-- ===== src/Spec/Parse/Access.antt =====
-- cpp/src/spec.h: the parsers of privileges, policies, owners and comments.
use pg_laswell.Base.{ℕ, Bool, true, false, not, ◌&&◌, String, List, [], ◌∷◌, if◌then◌else◌}
use pg_laswell.Base.Bytes.{is_text, one_of, text}
use pg_laswell.Base.Result.{ok, ◌>>=◌}
use pg_laswell.Canonical.Document.{Members}
use pg_laswell.Spec.Checks.{
  Check, intent, all_of, at_key, contains_key, is_string, is_boolean, value_string, value_bool,
  each, fails, holds, is_full_array, named, given, require_string, optional_creation_comment, known,
  refuse, all_named, string_named, has_none, elements_of,
}
use pg_laswell.Spec.Parse.Objects.{is_one_of, type_among}

-- The key that names the roles.
abbrev pub who_key : Bool → String
who_key true = "to"
who_key false = "from"

unfoldable pub default_privileges_body : ℕ → Members → Bool → Check
unfolding type_among
default_privileges_body n body granting = all_of (
    known n body (
      "kind"
      ∷ "schema"
      ∷ "for_role"
      ∷ "object_type"
      ∷ "privileges"
      ∷ "grant"
      ∷ who_key granting
      ∷ [])
    ∷ type_among n body ("TABLES" ∷ "SEQUENCES" ∷ "FUNCTIONS" ∷ "TYPES" ∷ "SCHEMAS" ∷ [])
        "object_type must be TABLES, SEQUENCES, FUNCTIONS, TYPES or SCHEMAS"
    ∷ refuse n (not (holds is_full_array (at_key body "privileges")))
        "privileges must be a non-empty array"
    ∷ refuse n (not (holds is_full_array (at_key body (who_key granting))))
        "must be a non-empty array of roles"
    ∷ [])

unfoldable pub parse_alter_default_privileges : ℕ → Members → Check
unfolding default_privileges_body
parse_alter_default_privileges n body =
    value_bool body "grant" true >>= λ granting. default_privileges_body n body granting

unfoldable pub parse_alter_policy : ℕ → Members → Check
parse_alter_policy n body = all_of (
    known n body ("kind" ∷ "schema" ∷ "table" ∷ "name" ∷ "using" ∷ "check" ∷ "roles" ∷ [])
    ∷ all_named n body ("schema" ∷ "table" ∷ "name" ∷ [])
    ∷ refuse n (has_none body ("using" ∷ "check" ∷ "roles" ∷ [])) "changes nothing"
    ∷ [])

unfoldable pub commentable_object_types : List String
commentable_object_types =
    "TABLE" ∷ "COLUMN" ∷ "VIEW" ∷ "MATERIALIZED VIEW" ∷ "INDEX" ∷ "SEQUENCE" ∷ "SCHEMA" ∷ "TYPE"
    ∷ "DOMAIN" ∷ "FUNCTION" ∷ "TRIGGER" ∷ "CONSTRAINT" ∷ "POLICY" ∷ "RULE" ∷ "EXTENSION"
    ∷ "PUBLICATION" ∷ "SUBSCRIPTION" ∷ []

unfoldable pub comment_body : ℕ → Members → List ℕ → Check
unfolding commentable_object_types
comment_body n body ot = all_of (
    refuse n (not (one_of ot commentable_object_types))
      "object_type is not one this tool comments on"
    ∷ named n body "name"
    ∷ given n body "comment"
    ∷ refuse n
        (one_of ot ("SCHEMA" ∷ "EXTENSION" ∷ "PUBLICATION" ∷ "SUBSCRIPTION" ∷ [])
          && contains_key body "schema")
        "should not carry \"schema\" for this comment"
    ∷ refuse n
        (one_of ot ("COLUMN" ∷ "TRIGGER" ∷ "CONSTRAINT" ∷ "POLICY" ∷ "RULE" ∷ [])
          && not (contains_key body "table"))
        "needs \"table\" for this comment"
    ∷ [])

unfoldable pub parse_set_comment : ℕ → Members → Check
unfolding comment_body
parse_set_comment n body = all_of (
    known n body ("kind" ∷ "object_type" ∷ "schema" ∷ "name" ∷ "table" ∷ "comment" ∷ [])
    ∷ (require_string body "object_type" (intent n) >>= λ ot. comment_body n body ot)
    ∷ [])

unfoldable pub parse_set_owner : ℕ → Members → Check
unfolding type_among
parse_set_owner n body = all_of (
    known n body ("kind" ∷ "object_type" ∷ "schema" ∷ "name" ∷ "owner" ∷ [])
    ∷ type_among n body
        ("TABLE" ∷ "VIEW" ∷ "MATERIALIZED VIEW" ∷ "SEQUENCE" ∷ "SCHEMA" ∷ "TYPE" ∷ "DOMAIN"
          ∷ "FUNCTION" ∷ [])
        "object_type cannot be given an owner here"
    ∷ all_named n body ("name" ∷ "owner" ∷ [])
    ∷ [])

unfoldable pub parse_set_row_security : ℕ → Members → Check
parse_set_row_security n body = all_of (
    known n body ("kind" ∷ "schema" ∷ "table" ∷ "enabled" ∷ "force" ∷ [])
    ∷ all_named n body ("schema" ∷ "table" ∷ [])
    ∷ refuse n (not (holds is_boolean (at_key body "enabled")))
        "enabled must be stated as a boolean"
    ∷ refuse n (fails is_boolean (at_key body "force")) "force must be a boolean"
    ∷ [])

unfoldable pub strings : ℕ → Members → List String → Check
strings n body [] = ok tt
strings n body (k ∷ ks) =
    refuse n (fails is_string (at_key body k)) "must be a string" >>= λ _. strings n body ks

unfoldable pub parse_create_policy : ℕ → Members → Check
unfolding strings
parse_create_policy n body = all_of (
    known n body (
      "kind" ∷ "schema" ∷ "table" ∷ "name" ∷ "command" ∷ "roles" ∷ "using" ∷ "check" ∷ "comment"
      ∷ [])
    ∷ optional_creation_comment n body
    ∷ all_named n body ("schema" ∷ "table" ∷ "name" ∷ [])
    ∷ refuse n (has_none body ("using" ∷ "check" ∷ [])) "needs a \"using\" or \"check\" expression"
    ∷ strings n body ("using" ∷ "check" ∷ "command" ∷ [])
    ∷ refuse n (fails is_full_array (at_key body "roles")) "roles must be a non-empty array"
    ∷ each (string_named n "roles" "roles must be strings") (elements_of (at_key body "roles"))
    ∷ [])

unfoldable pub parse_set_trigger_state : ℕ → Members → Check
parse_set_trigger_state n body = all_of (
    known n body ("kind" ∷ "schema" ∷ "table" ∷ "trigger" ∷ "enabled" ∷ [])
    ∷ all_named n body ("schema" ∷ "table" ∷ "trigger" ∷ [])
    ∷ refuse n (not (holds is_boolean (at_key body "enabled")))
        "enabled must be stated as a boolean"
    ∷ [])

-- `kPrivs.at(ot)`
unfoldable pub privileges_of : List ℕ → List String
privileges_of ot =
    if is_text ot "TABLE"
    then "SELECT" ∷ "INSERT" ∷ "UPDATE" ∷ "DELETE" ∷ "TRUNCATE" ∷ "REFERENCES" ∷ "TRIGGER"
      ∷ "MAINTAIN" ∷ "ALL" ∷ []
    else if is_text ot "SCHEMA"
    then "USAGE" ∷ "CREATE" ∷ "ALL" ∷ []
    else if is_text ot "SEQUENCE"
    then "USAGE" ∷ "SELECT" ∷ "UPDATE" ∷ "ALL" ∷ []
    else if is_text ot "FUNCTION"
    then "EXECUTE" ∷ "ALL" ∷ []
    else if is_text ot "DATABASE"
    then "CREATE" ∷ "CONNECT" ∷ "TEMPORARY" ∷ "TEMP" ∷ "ALL" ∷ []
    else "USAGE" ∷ "ALL" ∷ []

-- What is granted on: a table, every table of a schema, or a named object.
unfoldable pub granted_on : ℕ → Members → List ℕ → Check
granted_on n body ot =
    if is_text ot "TABLE"
    then (named n body "schema" >>= λ _.
        (value_bool body "all_in_schema" false >>= λ all.
        if all then ok tt else named n body "table"))
    else named n body "name"

unfoldable pub column_grant : ℕ → Members → List ℕ → Check
column_grant n body ot =
    if contains_key body "columns"
    then all_of (
        refuse n (not (is_text ot "TABLE")) "columns applies only to a TABLE grant"
        ∷ refuse n (fails is_full_array (at_key body "columns")) "columns must be a non-empty array"
        ∷ each (string_named n "columns" "columns must be strings")
            (elements_of (at_key body "columns"))
        ∷ [])
    else ok tt

unfoldable pub grant_body : Bool → ℕ → Members → List ℕ → Check
unfolding granted_on column_grant privileges_of
grant_body granting n body ot = all_of (
    refuse n
      (not (
        one_of ot
          ("TABLE" ∷ "SCHEMA" ∷ "SEQUENCE" ∷ "FUNCTION" ∷ "TYPE" ∷ "DOMAIN" ∷ "DATABASE" ∷ [])))
      "object_type cannot be granted on here"
    ∷ granted_on n body ot
    ∷ refuse n (fails is_boolean (at_key body "all_in_schema")) "all_in_schema must be a boolean"
    ∷ refuse n (not (holds is_full_array (at_key body "privileges")))
        "privileges must be a non-empty array"
    ∷ each
        (λ pv.
          refuse n (not (is_one_of (privileges_of ot) pv)) "privileges has one it does not accept")
        (elements_of (at_key body "privileges"))
    ∷ refuse n (not (holds is_full_array (at_key body (who_key granting))))
        "must be a non-empty array of roles"
    ∷ each (λ r. refuse n (not (is_string r)) "must be strings")
        (elements_of (at_key body (who_key granting)))
    ∷ column_grant n body ot
    ∷ [])

unfoldable pub parse_grant_like : Bool → ℕ → Members → Check
unfolding grant_body
parse_grant_like granting n body = all_of (
    known n body (
      "kind"
      ∷ "object_type"
      ∷ "schema"
      ∷ "table"
      ∷ "name"
      ∷ "arguments"
      ∷ "privileges"
      ∷ "columns"
      ∷ "all_in_schema"
      ∷ who_key granting
      ∷ [])
    ∷ (value_string body "object_type" (text "TABLE") >>= λ ot. grant_body granting n body ot)
    ∷ [])
