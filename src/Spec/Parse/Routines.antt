-- ===== src/Spec/Parse/Routines.antt =====
-- cpp/src/spec.h: the parsers of types, functions, triggers and logical replication.
use pg_laswell.Base.{
  ℕ, Bool, true, false, not, ◌&&◌, ◌||◌, String, List, [], ◌∷◌, is_nil, nat_eq, map, if◌then◌else◌,
}
use pg_laswell.Base.Bytes.{is_text, one_of, text}
use pg_laswell.Base.Result.{ok, err, ◌>>=◌}
use pg_laswell.Canonical.Document.{Json, object, Members}
use pg_laswell.Spec.Checks.{
  Check, refused, intent, all_of, at_key, contains_key, is_string, is_boolean, is_array,
  value_string, each, fails, holds, is_full_array, named, given, require_string,
  optional_creation_comment, known, refuse, all_named, has_none, elements_of,
}
use pg_laswell.Spec.Parse.Objects.{is_one_of, lowered}

-- `type_kind`: what each kind of type has to give.
unfoldable pub type_body : ℕ → Members → List ℕ → Check
type_body n body tk =
    if is_text tk "enum"
    then all_of (
        refuse n (not (holds is_full_array (at_key body "labels")))
          "labels must be a non-empty array for an enum"
        ∷ each (λ l. refuse n (not (is_string l)) "labels must be strings")
            (elements_of (at_key body "labels"))
        ∷ [])
    else if is_text tk "domain"
    then given n body "base"
    else if is_text tk "composite"
    then refuse n (not (holds is_full_array (at_key body "attributes")))
        "attributes must be a non-empty array for a composite"
    else err (refused (intent n) "type_kind must be enum, domain or composite")

unfoldable pub parse_create_type : ℕ → Members → Check
unfolding type_body
parse_create_type n body = all_of (
    known n body (
      "kind" ∷ "schema" ∷ "name" ∷ "type_kind" ∷ "labels" ∷ "base" ∷ "check" ∷ "attributes"
      ∷ "comment" ∷ "not_null" ∷ [])
    ∷ all_named n body ("schema" ∷ "name" ∷ [])
    ∷ given n body "comment"
    ∷ (require_string body "type_kind" (intent n) >>= λ tk. type_body n body tk)
    ∷ [])

unfoldable pub parse_add_enum_value : ℕ → Members → Check
parse_add_enum_value n body = all_of (
    known n body ("kind" ∷ "schema" ∷ "name" ∷ "value" ∷ "before" ∷ "after" ∷ [])
    ∷ all_named n body ("schema" ∷ "name" ∷ [])
    ∷ given n body "value"
    ∷ refuse n (contains_key body "before" && contains_key body "after")
        "cannot state both \"before\" and \"after\""
    ∷ [])

unfoldable pub parse_alter_domain : ℕ → Members → Check
parse_alter_domain n body = all_of (
    known n body (
      "kind" ∷ "schema" ∷ "name" ∷ "add_check" ∷ "constraint_name" ∷ "drop_constraint" ∷ "not_null"
      ∷ "default" ∷ [])
    ∷ all_named n body ("schema" ∷ "name" ∷ [])
    ∷ (if contains_key body "add_check"
        then all_of (given n body "add_check" ∷ named n body "constraint_name" ∷ [])
        else ok tt)
    ∷ refuse n (has_none body ("add_check" ∷ "drop_constraint" ∷ "not_null" ∷ "default" ∷ []))
        "changes nothing"
    ∷ [])

-- A routine is identified by its arguments: `contains("arguments")`, an array.
abbrev pub has_arguments : Members → Bool
has_arguments body = holds is_array (at_key body "arguments")

unfoldable pub parse_alter_function : ℕ → Members → Check
parse_alter_function n body = all_of (
    known n body (
      "kind" ∷ "schema" ∷ "name" ∷ "arguments" ∷ "to" ∷ "owner" ∷ "search_path" ∷ "volatility" ∷ [])
    ∷ all_named n body ("schema" ∷ "name" ∷ [])
    ∷ refuse n (not (has_arguments body)) "arguments is required, even when empty"
    ∷ refuse n (has_none body ("to" ∷ "owner" ∷ "search_path" ∷ "volatility" ∷ []))
        "changes nothing"
    ∷ [])

unfoldable pub parse_alter_view : ℕ → Members → Check
parse_alter_view n body = all_of (
    known n body ("kind" ∷ "schema" ∷ "name" ∷ "to" ∷ "owner" ∷ "options" ∷ [])
    ∷ all_named n body ("schema" ∷ "name" ∷ [])
    ∷ refuse n (has_none body ("to" ∷ "owner" ∷ "options" ∷ [])) "changes nothing"
    ∷ [])

-- An argument has a type at least.
unfoldable pub is_argument : Json → Bool
is_argument (object ms) = contains_key ms "type"
is_argument v = false

unfoldable pub routine_body : ℕ → Members → List ℕ → Check
unfolding is_argument
routine_body n body rk = all_of (
    refuse n (not (one_of rk ("FUNCTION" ∷ "PROCEDURE" ∷ [])))
      "routine_kind must be FUNCTION or PROCEDURE"
    ∷ refuse n (is_text rk "PROCEDURE" && contains_key body "returns")
        "is a PROCEDURE and cannot declare a return type"
    ∷ all_named n body ("schema" ∷ "name" ∷ [])
    ∷ (if is_text rk "FUNCTION" then given n body "returns" else ok tt)
    ∷ given n body "language"
    ∷ given n body "body"
    ∷ given n body "comment"
    ∷ refuse n (fails is_array (at_key body "arguments"))
        "arguments must be an array of {name, type}"
    ∷ each (λ a. refuse n (not (is_argument a)) "arguments entries need at least a type")
        (elements_of (at_key body "arguments"))
    ∷ [])

unfoldable pub parse_create_function : ℕ → Members → Check
unfolding routine_body
parse_create_function n body = all_of (
    known n body (
      "kind" ∷ "schema" ∷ "name" ∷ "arguments" ∷ "returns" ∷ "language" ∷ "body" ∷ "volatility"
      ∷ "strict" ∷ "security_definer" ∷ "comment" ∷ "routine_kind" ∷ [])
    ∷ (value_string body "routine_kind" (text "FUNCTION") >>= λ rk. routine_body n body rk)
    ∷ [])

unfoldable pub parse_drop_function : ℕ → Members → Check
parse_drop_function n body = all_of (
    known n body ("kind" ∷ "schema" ∷ "name" ∷ "arguments" ∷ "routine_kind" ∷ [])
    ∷ all_named n body ("schema" ∷ "name" ∷ [])
    ∷ refuse n (not (has_arguments body)) "arguments is required, even when empty"
    ∷ [])

unfoldable pub parse_create_trigger : ℕ → Members → Check
parse_create_trigger n body = all_of (
    known n body (
      "kind" ∷ "schema" ∷ "table" ∷ "name" ∷ "timing" ∷ "events" ∷ "function" ∷ "for_each" ∷ "when"
      ∷ "comment" ∷ [])
    ∷ optional_creation_comment n body
    ∷ all_named n body ("schema" ∷ "table" ∷ "name" ∷ [])
    ∷ given n body "function"
    ∷ (require_string body "timing" (intent n) >>= λ t.
        refuse n (not (one_of t ("BEFORE" ∷ "AFTER" ∷ "INSTEAD OF" ∷ [])))
          "timing must be BEFORE, AFTER or INSTEAD OF")
    ∷ refuse n (not (holds is_full_array (at_key body "events"))) "events must be a non-empty array"
    ∷ each
        (λ e.
          refuse n (not (is_one_of ("INSERT" ∷ "UPDATE" ∷ "DELETE" ∷ "TRUNCATE" ∷ []) e))
            "events has an unknown event")
        (elements_of (at_key body "events"))
    ∷ [])

unfoldable pub parse_replication_name : ℕ → Members → Check
parse_replication_name n body =
    all_of (known n body ("kind" ∷ "name" ∷ []) ∷ all_named n body ("name" ∷ []) ∷ [])

-- `comment` only when creating.
abbrev pub with_comment : Bool → List String → List String
with_comment true ks = "comment" ∷ ks
with_comment false ks = ks

unfoldable pub full_arrays : ℕ → Members → List String → Check
full_arrays n body [] = ok tt
full_arrays n body (k ∷ ks) =
    refuse n (fails is_full_array (at_key body k)) "must be a non-empty array" >>= λ _.
    full_arrays n body ks

unfoldable pub parse_publication : Bool → ℕ → Members → Check
unfolding full_arrays
parse_publication creating n body = all_of (
    known n body (
      with_comment creating (
        "kind" ∷ "name" ∷ "tables" ∷ "all_tables" ∷ "operations" ∷ "add_tables" ∷ "drop_tables"
        ∷ "publish_via_partition_root" ∷ []))
    ∷ optional_creation_comment n body
    ∷ refuse n (fails is_boolean (at_key body "publish_via_partition_root"))
        "publish_via_partition_root must be a boolean"
    ∷ named n body "name"
    ∷ full_arrays n body ("tables" ∷ "add_tables" ∷ "drop_tables" ∷ [])
    ∷ each
        (λ o.
          refuse n (not (is_one_of ("insert" ∷ "update" ∷ "delete" ∷ "truncate" ∷ []) o))
            "operations has an unknown operation")
        (elements_of (at_key body "operations"))
    ∷ [])

-- Does the text start with these bytes, or have them anywhere, as `find` reports?
unfoldable pub starts_with : List ℕ → List ℕ → Bool
starts_with s [] = true
starts_with [] (k ∷ ks) = false
starts_with (c ∷ s) (k ∷ ks) = nat_eq c k && starts_with s ks

unfoldable pub has_infix : List ℕ → List ℕ → Bool
unfolding starts_with
has_infix [] ks = is_nil ks
has_infix (c ∷ s) ks = starts_with (c ∷ s) ks || has_infix s ks

unfoldable pub connection_of : ℕ → Members → Check
unfolding has_infix lowered text
connection_of n body =
    if contains_key body "connection"
    then (require_string body "connection" (intent n) >>= λ conn.
        refuse n (has_infix (map lowered conn) (text "password"))
          "connection must not carry a password")
    else ok tt

unfoldable pub booleans : ℕ → Members → List String → Check
booleans n body [] = ok tt
booleans n body (k ∷ ks) =
    refuse n (fails is_boolean (at_key body k)) "must be a boolean" >>= λ _. booleans n body ks

unfoldable pub parse_subscription : Bool → ℕ → Members → Check
unfolding connection_of booleans
parse_subscription creating n body = all_of (
    known n body (
      with_comment creating (
        "kind" ∷ "name" ∷ "connection" ∷ "publications" ∷ "enabled" ∷ "connect" ∷ "slot_name"
        ∷ "refresh" ∷ []))
    ∷ optional_creation_comment n body
    ∷ named n body "name"
    ∷ connection_of n body
    ∷ (if creating
        then all_of (
            given n body "connection"
            ∷ refuse n (not (holds is_full_array (at_key body "publications")))
                "publications must be a non-empty array"
            ∷ [])
        else ok tt)
    ∷ booleans n body ("enabled" ∷ "connect" ∷ "refresh" ∷ [])
    ∷ [])
