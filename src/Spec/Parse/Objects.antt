-- ===== src/Spec/Parse/Objects.antt =====
-- cpp/src/spec.h: the parsers of the kinds that create, change or drop an object that is no table.
use pg_laswell.Base.{
  ℕ, Bool, true, false, not, ◌&&◌, String, List, [], ◌∷◌, leb, nat_eq, ◌+◌, if◌then◌else◌,
}
use pg_laswell.Base.Bytes.{one_of, text}
use pg_laswell.Base.Result.{ok, ◌>>=◌}
use pg_laswell.Canonical.Document.{Json, string, Members}
use pg_laswell.Spec.Checks.{
  Check, intent, all_of, at_key, contains_key, is_string, is_boolean, is_number_integer, each,
  fails, two_or_more, given, require_string, optional_creation_comment, known, refuse, all_named,
  element_named, has_none, elements_of,
}
use pg_laswell.Spec.Parse.Tables.{optional_named}

unfoldable pub generic_object_types : List String
generic_object_types =
    "AGGREGATE" ∷ "CAST" ∷ "COLLATION" ∷ "CONVERSION" ∷ "OPERATOR" ∷ "OPERATOR CLASS"
    ∷ "OPERATOR FAMILY" ∷ "TEXT SEARCH CONFIGURATION" ∷ "TEXT SEARCH DICTIONARY"
    ∷ "TEXT SEARCH PARSER" ∷ "TEXT SEARCH TEMPLATE" ∷ "TRANSFORM" ∷ "ACCESS METHOD" ∷ "LANGUAGE"
    ∷ "FOREIGN DATA WRAPPER" ∷ "SERVER" ∷ "USER MAPPING" ∷ "FOREIGN TABLE" ∷ []

-- `object_type` is one of a set.
unfoldable pub type_among : ℕ → Members → List String → String → Check
type_among n body types what =
    require_string body "object_type" (intent n) >>= λ ot. refuse n (not (one_of ot types)) what

unfoldable pub parse_alter_object : ℕ → Members → Check
unfolding type_among generic_object_types
parse_alter_object n body = all_of (
    known n body ("kind" ∷ "object_type" ∷ "schema" ∷ "name" ∷ "to" ∷ "owner" ∷ "set_schema" ∷ [])
    ∷ type_among n body generic_object_types "object_type is not one alter_object handles"
    ∷ given n body "name"
    ∷ refuse n (has_none body ("to" ∷ "owner" ∷ "set_schema" ∷ [])) "changes nothing"
    ∷ [])

unfoldable pub parse_create_object : ℕ → Members → Check
unfolding type_among generic_object_types
parse_create_object n body = all_of (
    known n body ("kind" ∷ "object_type" ∷ "schema" ∷ "name" ∷ "definition" ∷ "comment" ∷ [])
    ∷ type_among n body generic_object_types "object_type is not one create_object handles"
    ∷ given n body "name"
    ∷ given n body "definition"
    ∷ [])

unfoldable pub parse_drop_object : ℕ → Members → Check
unfolding type_among generic_object_types
parse_drop_object n body = all_of (
    known n body ("kind" ∷ "object_type" ∷ "schema" ∷ "name" ∷ [])
    ∷ type_among n body generic_object_types "object_type is not one drop_object handles"
    ∷ given n body "name"
    ∷ [])

unfoldable pub parse_create_table_as : ℕ → Members → Check
parse_create_table_as n body = all_of (
    known n body
      ("kind" ∷ "schema" ∷ "table" ∷ "definition" ∷ "comment" ∷ "with_data" ∷ "unlogged" ∷ [])
    ∷ all_named n body ("schema" ∷ "table" ∷ [])
    ∷ given n body "definition"
    ∷ given n body "comment"
    ∷ refuse n (fails is_boolean (at_key body "with_data")) "with_data must be a boolean"
    ∷ [])

unfoldable pub parse_import_foreign_schema : ℕ → Members → Check
parse_import_foreign_schema n body = all_of (
    known n body ("kind" ∷ "server" ∷ "remote_schema" ∷ "schema" ∷ "limit_to" ∷ "except" ∷ [])
    ∷ all_named n body ("server" ∷ "remote_schema" ∷ "schema" ∷ [])
    ∷ refuse n (contains_key body "limit_to" && contains_key body "except")
        "cannot state both limit_to and except"
    ∷ [])

unfoldable pub parse_security_label : ℕ → Members → Check
parse_security_label n body = all_of (
    known n body ("kind" ∷ "object_type" ∷ "schema" ∷ "name" ∷ "provider" ∷ "label" ∷ [])
    ∷ given n body "object_type"
    ∷ given n body "name"
    ∷ given n body "provider"
    ∷ refuse n (fails is_string (at_key body "label"))
        "label must be a string, or absent to remove it"
    ∷ [])

-- `std::tolower` of a byte.
unfoldable pub lowered : ℕ → ℕ
lowered c = if leb b'A' c && leb c b'Z' then c + 32 else c

-- Do the first bytes of the text, lowered, spell the literal?
unfoldable pub starts_lowered : List ℕ → List ℕ → Bool
unfolding lowered
starts_lowered s [] = true
starts_lowered [] (k ∷ ks) = false
starts_lowered (c ∷ s) (k ∷ ks) = nat_eq (lowered c) k && starts_lowered s ks

-- The definition is a query, not a statement.
unfoldable pub query_only : ℕ → Members → Check
unfolding starts_lowered text
query_only n body = require_string body "definition" (intent n) >>= λ def.
    refuse n (starts_lowered def (text "create"))
      "definition is the view's QUERY, not a CREATE statement"

unfoldable pub parse_create_matview : ℕ → Members → Check
unfolding query_only
parse_create_matview n body = all_of (
    known n body
      ("kind" ∷ "schema" ∷ "name" ∷ "definition" ∷ "comment" ∷ "with_data" ∷ "tablespace" ∷ [])
    ∷ all_named n body ("schema" ∷ "name" ∷ [])
    ∷ given n body "comment"
    ∷ query_only n body
    ∷ refuse n (fails is_boolean (at_key body "with_data")) "with_data must be a boolean"
    ∷ [])

unfoldable pub parse_replace_view : ℕ → Members → Check
unfolding query_only
parse_replace_view n body = all_of (
    known n body ("kind" ∷ "schema" ∷ "name" ∷ "definition" ∷ "comment" ∷ [])
    ∷ all_named n body ("schema" ∷ "name" ∷ [])
    ∷ query_only n body
    ∷ [])

-- `!v.is_string() || set.count(v) == 0`
unfoldable pub is_one_of : List String → Json → Bool
is_one_of allowed (string s) = one_of s allowed
is_one_of allowed v = false

unfoldable pub parse_create_statistics : ℕ → Members → Check
unfolding is_one_of
parse_create_statistics n body = all_of (
    known n body ("kind" ∷ "schema" ∷ "name" ∷ "table" ∷ "columns" ∷ "kinds" ∷ "comment" ∷ [])
    ∷ all_named n body ("schema" ∷ "name" ∷ "table" ∷ [])
    ∷ refuse n (not (two_or_more (at_key body "columns"))) "columns needs at least two columns"
    ∷ each (element_named n "columns") (elements_of (at_key body "columns"))
    ∷ each
        (λ k.
          refuse n (not (is_one_of ("ndistinct" ∷ "dependencies" ∷ "mcv" ∷ []) k))
            "kinds has an unknown statistic kind")
        (elements_of (at_key body "kinds"))
    ∷ [])

unfoldable pub parse_create_rule : ℕ → Members → Check
parse_create_rule n body = all_of (
    known n body (
      "kind" ∷ "schema" ∷ "table" ∷ "name" ∷ "event" ∷ "instead" ∷ "action" ∷ "where" ∷ "comment"
      ∷ [])
    ∷ optional_creation_comment n body
    ∷ all_named n body ("schema" ∷ "table" ∷ "name" ∷ [])
    ∷ (require_string body "event" (intent n) >>= λ e.
        refuse n (not (one_of e ("SELECT" ∷ "INSERT" ∷ "UPDATE" ∷ "DELETE" ∷ [])))
          "event must be SELECT, INSERT, UPDATE or DELETE")
    ∷ given n body "action"
    ∷ [])

-- schema, table and name: `parse_drop_rule`, `parse_drop_trigger` and `parse_drop_policy`.
unfoldable pub parse_drop_of_table : ℕ → Members → Check
parse_drop_of_table n body = all_of (
    known n body ("kind" ∷ "schema" ∷ "table" ∷ "name" ∷ [])
    ∷ all_named n body ("schema" ∷ "table" ∷ "name" ∷ [])
    ∷ [])

unfoldable pub integer_keys : ℕ → Members → List String → Check
integer_keys n body [] = ok tt
integer_keys n body (k ∷ ks) =
    refuse n (fails is_number_integer (at_key body k)) "must be an integer" >>= λ _.
    integer_keys n body ks

unfoldable pub parse_create_sequence : ℕ → Members → Check
unfolding integer_keys
parse_create_sequence n body = all_of (
    known n body ("kind" ∷ "schema" ∷ "name" ∷ "comment" ∷ "start" ∷ "increment" ∷ "owned_by" ∷ [])
    ∷ all_named n body ("schema" ∷ "name" ∷ [])
    ∷ given n body "comment"
    ∷ integer_keys n body ("start" ∷ "increment" ∷ [])
    ∷ [])

unfoldable pub parse_alter_sequence : ℕ → Members → Check
unfolding integer_keys
parse_alter_sequence n body = all_of (
    known n body ("kind" ∷ "schema" ∷ "name" ∷ "restart" ∷ "increment" ∷ "owned_by" ∷ "to" ∷ [])
    ∷ all_named n body ("schema" ∷ "name" ∷ [])
    ∷ integer_keys n body ("restart" ∷ "increment" ∷ [])
    ∷ refuse n (has_none body ("restart" ∷ "increment" ∷ "owned_by" ∷ "to" ∷ [])) "changes nothing"
    ∷ [])

unfoldable pub parse_schema_like : Bool → ℕ → Members → Check
parse_schema_like creating n body = all_of (
    known n body
      (if creating then "kind" ∷ "schema" ∷ "comment" ∷ "owner" ∷ [] else "kind" ∷ "schema" ∷ [])
    ∷ all_named n body ("schema" ∷ [])
    ∷ (if creating then given n body "comment" else ok tt)
    ∷ [])

unfoldable pub parse_alter_schema : ℕ → Members → Check
parse_alter_schema n body = all_of (
    known n body ("kind" ∷ "schema" ∷ "to" ∷ "owner" ∷ [])
    ∷ all_named n body ("schema" ∷ [])
    ∷ refuse n (has_none body ("to" ∷ "owner" ∷ [])) "changes nothing"
    ∷ [])

unfoldable pub parse_create_extension : ℕ → Members → Check
parse_create_extension n body = all_of (
    known n body ("kind" ∷ "name" ∷ "schema" ∷ "version" ∷ "comment" ∷ [])
    ∷ optional_creation_comment n body
    ∷ all_named n body ("name" ∷ [])
    ∷ optional_named n body "schema"
    ∷ refuse n (fails is_string (at_key body "version")) "version must be a string"
    ∷ [])

unfoldable pub parse_drop_extension : ℕ → Members → Check
parse_drop_extension n body =
    all_of (known n body ("kind" ∷ "name" ∷ []) ∷ all_named n body ("name" ∷ []) ∷ [])

unfoldable pub parse_alter_extension : ℕ → Members → Check
parse_alter_extension n body = all_of (
    known n body ("kind" ∷ "name" ∷ "version" ∷ "schema" ∷ [])
    ∷ all_named n body ("name" ∷ [])
    ∷ refuse n (has_none body ("version" ∷ "schema" ∷ [])) "changes nothing"
    ∷ [])

-- schema and name, for the drops that need nothing else.
unfoldable pub parse_named_object : ℕ → Members → Check
parse_named_object n body = all_of (
    known n body ("kind" ∷ "schema" ∷ "name" ∷ []) ∷ all_named n body ("schema" ∷ "name" ∷ []) ∷ [])
