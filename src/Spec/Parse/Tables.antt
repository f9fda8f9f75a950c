-- ===== src/Spec/Parse/Tables.antt =====
-- cpp/src/spec.h: the parsers of the kinds that change a table, its columns or its partitions.
use pg_laswell.Base.{
  ℕ, Bool, true, false, not, ◌||◌, String, Option, none, some, List, [], ◌∷◌, if◌then◌else◌,
}
use pg_laswell.Base.Bytes.{is_text, one_of}
use pg_laswell.Base.Result.{ok, err, ◌>>=◌}
use pg_laswell.Canonical.Document.{Json, object, Members, end, field}
use pg_laswell.Spec.Checks.{
  Check, refused, runtime, intent, all_of, refuse_if, at_key, contains_key, is_string, is_boolean,
  is_array, is_number, is_number_integer, value_string, value_bool, each, fails, holds,
  is_full_array, named, given, require_identifier, require_string, period_flag,
  optional_creation_comment, known, refuse, all_named, element_named, string_named, has_none,
  elements_of,
}

unfoldable pub parse_drop_index : ℕ → Members → Check
parse_drop_index n body = all_of (
    known n body ("kind" ∷ "schema" ∷ "table" ∷ "name" ∷ [])
    ∷ all_named n body ("schema" ∷ "table" ∷ "name" ∷ [])
    ∷ [])

unfoldable pub parse_set_not_null : ℕ → Members → Check
parse_set_not_null n body = all_of (
    known n body ("kind" ∷ "schema" ∷ "table" ∷ "column" ∷ "keep_check" ∷ [])
    ∷ all_named n body ("schema" ∷ "table" ∷ "column" ∷ [])
    ∷ refuse n (fails is_boolean (at_key body "keep_check")) "keep_check must be a boolean"
    ∷ [])

-- Absent means DROP IDENTITY.
unfoldable pub identity_form : ℕ → Members → Check
identity_form n body =
    if contains_key body "identity"
    then (require_string body "identity" (intent n) >>= λ v.
        refuse n (not (one_of v ("ALWAYS" ∷ "BY DEFAULT" ∷ [])))
          "identity must be ALWAYS or BY DEFAULT")
    else ok tt

unfoldable pub parse_set_identity : ℕ → Members → Check
unfolding identity_form
parse_set_identity n body = all_of (
    known n body ("kind" ∷ "schema" ∷ "table" ∷ "column" ∷ "identity" ∷ [])
    ∷ all_named n body ("schema" ∷ "table" ∷ "column" ∷ [])
    ∷ identity_form n body
    ∷ [])

-- `contains(key) && set.count(value(key, "")) == 0`
unfoldable pub option_in : ℕ → Members → String → List String → String → Check
option_in n body k allowed what =
    if contains_key body k
    then (value_string body k [] >>= λ v. refuse n (not (one_of v allowed)) what)
    else ok tt

unfoldable pub parse_set_column_options : ℕ → Members → Check
unfolding option_in
parse_set_column_options n body = all_of (
    known n body
      ("kind" ∷ "schema" ∷ "table" ∷ "column" ∷ "statistics" ∷ "storage" ∷ "compression" ∷ [])
    ∷ all_named n body ("schema" ∷ "table" ∷ "column" ∷ [])
    ∷ refuse n (fails is_number_integer (at_key body "statistics")) "statistics must be an integer"
    ∷ option_in n body "storage" ("PLAIN" ∷ "EXTERNAL" ∷ "EXTENDED" ∷ "MAIN" ∷ [])
        "storage must be PLAIN, EXTERNAL, EXTENDED or MAIN"
    ∷ option_in n body "compression" ("pglz" ∷ "lz4" ∷ "default" ∷ [])
        "compression must be pglz, lz4 or default"
    ∷ refuse n (has_none body ("statistics" ∷ "storage" ∷ "compression" ∷ [])) "changes nothing"
    ∷ [])

-- The names and values of `options`.
unfoldable pub option_members : ℕ → Members → Check
option_members n end = ok tt
option_members n (field name v ms) = require_identifier name "options" n >>= λ _.
    (refuse n (not (is_string v || is_number v)) "options must be a string or a number" >>= λ _.
    option_members n ms)

unfoldable pub options_of : ℕ → Option Json → Check
unfolding option_members
options_of n (some (object ms)) = option_members n ms
options_of n none = ok tt
options_of n (some v) = err (refused (intent n) "options must be an object of name to value")

unfoldable pub parse_set_table_options : ℕ → Members → Check
unfolding options_of
parse_set_table_options n body = all_of (
    known n body ("kind" ∷ "schema" ∷ "table" ∷ "options" ∷ "reset" ∷ [])
    ∷ all_named n body ("schema" ∷ "table" ∷ [])
    ∷ options_of n (at_key body "options")
    ∷ refuse n (fails is_array (at_key body "reset")) "reset must be an array"
    ∷ each (element_named n "reset") (elements_of (at_key body "reset"))
    ∷ refuse n (has_none body ("options" ∷ "reset" ∷ [])) "changes nothing"
    ∷ [])

unfoldable pub parse_set_logged : ℕ → Members → Check
parse_set_logged n body = all_of (
    known n body ("kind" ∷ "schema" ∷ "table" ∷ "logged" ∷ [])
    ∷ all_named n body ("schema" ∷ "table" ∷ [])
    ∷ refuse n (not (holds is_boolean (at_key body "logged"))) "logged must be stated as a boolean"
    ∷ [])

unfoldable pub parse_set_tablespace : ℕ → Members → Check
parse_set_tablespace n body = all_of (
    known n body ("kind" ∷ "schema" ∷ "table" ∷ "tablespace" ∷ [])
    ∷ all_named n body ("schema" ∷ "table" ∷ "tablespace" ∷ [])
    ∷ [])

unfoldable pub parse_set_access_method : ℕ → Members → Check
parse_set_access_method n body = all_of (
    known n body ("kind" ∷ "schema" ∷ "table" ∷ "method" ∷ [])
    ∷ all_named n body ("schema" ∷ "table" ∷ "method" ∷ [])
    ∷ [])

-- The forms, and the index that one of them names.
unfoldable pub replica_form : ℕ → Members → Check
replica_form n body = do
  v ← require_string body "identity" (intent n)
  all_of (
      refuse n (not (one_of v ("DEFAULT" ∷ "FULL" ∷ "NOTHING" ∷ "USING INDEX" ∷ [])))
        "identity must be DEFAULT, FULL, NOTHING or USING INDEX"
      ∷ (if is_text v "USING INDEX" then named n body "index" else ok tt)
      ∷ [])

unfoldable pub parse_set_replica_identity : ℕ → Members → Check
unfolding replica_form
parse_set_replica_identity n body = all_of (
    known n body ("kind" ∷ "schema" ∷ "table" ∷ "identity" ∷ "index" ∷ [])
    ∷ all_named n body ("schema" ∷ "table" ∷ [])
    ∷ replica_form n body
    ∷ [])

-- `require_identifier(in.body.value(key, ""), …)` where the key is there.
unfoldable pub optional_named : ℕ → Members → String → Check
optional_named n body k =
    if contains_key body k
    then (value_string body k [] >>= λ s. require_identifier s k n)
    else ok tt

unfoldable pub parse_cluster_on : ℕ → Members → Check
unfolding optional_named
parse_cluster_on n body = all_of (
    known n body ("kind" ∷ "schema" ∷ "table" ∷ "index" ∷ [])
    ∷ all_named n body ("schema" ∷ "table" ∷ [])
    ∷ optional_named n body "index"
    ∷ [])

unfoldable pub parse_alter_column_default : ℕ → Members → Check
parse_alter_column_default n body = all_of (
    known n body ("kind" ∷ "schema" ∷ "table" ∷ "column" ∷ "default" ∷ [])
    ∷ all_named n body ("schema" ∷ "table" ∷ "column" ∷ [])
    ∷ refuse n (fails is_string (at_key body "default"))
        "default must be a string, or absent to drop it"
    ∷ [])

unfoldable pub parse_drop_not_null : ℕ → Members → Check
parse_drop_not_null n body = all_of (
    known n body ("kind" ∷ "schema" ∷ "table" ∷ "column" ∷ [])
    ∷ all_named n body ("schema" ∷ "table" ∷ "column" ∷ [])
    ∷ [])

unfoldable pub parse_drop_table : ℕ → Members → Check
parse_drop_table n body = all_of (
    known n body ("kind" ∷ "schema" ∷ "table" ∷ [])
    ∷ all_named n body ("schema" ∷ "table" ∷ [])
    ∷ [])

-- What is renamed: nothing but the table where it is none.
abbrev pub with_what : Option String → List String → List String
with_what none ks = ks
with_what (some what) ks = what ∷ ks

unfoldable pub parse_rename : Option String → ℕ → Members → Check
parse_rename what n body = all_of (
    known n body (with_what what ("kind" ∷ "schema" ∷ "table" ∷ "to" ∷ []))
    ∷ all_named n body ("schema" ∷ "table" ∷ "to" ∷ [])
    ∷ all_named n body (with_what what [])
    ∷ [])

unfoldable pub parse_alter_column_type : ℕ → Members → Check
parse_alter_column_type n body = all_of (
    known n body ("kind" ∷ "schema" ∷ "table" ∷ "column" ∷ "type" ∷ "using" ∷ [])
    ∷ all_named n body ("schema" ∷ "table" ∷ "column" ∷ [])
    ∷ given n body "type"
    ∷ refuse_if (fails is_string (at_key body "using"))
        (runtime (intent n) "using must be a string")
    ∷ [])

unfoldable pub parse_drop_column : ℕ → Members → Check
parse_drop_column n body = all_of (
    known n body ("kind" ∷ "schema" ∷ "table" ∷ "column" ∷ [])
    ∷ all_named n body ("schema" ∷ "table" ∷ "column" ∷ [])
    ∷ [])

unfoldable pub parse_drop_constraint : ℕ → Members → Check
parse_drop_constraint n body = all_of (
    known n body ("kind" ∷ "schema" ∷ "table" ∷ "name" ∷ [])
    ∷ all_named n body ("schema" ∷ "table" ∷ "name" ∷ [])
    ∷ [])

unfoldable pub parse_unique_like : ℕ → Members → Check
parse_unique_like n body = all_of (
    known n body
      ("kind" ∷ "schema" ∷ "table" ∷ "name" ∷ "columns" ∷ "comment" ∷ "without_overlaps" ∷ [])
    ∷ optional_creation_comment n body
    ∷ all_named n body ("schema" ∷ "table" ∷ "name" ∷ [])
    ∷ refuse n (not (holds is_full_array (at_key body "columns")))
        "columns must be a non-empty array"
    ∷ each (string_named n "columns" "columns must be strings")
        (elements_of (at_key body "columns"))
    ∷ period_flag body "without_overlaps" "columns" (intent n)
    ∷ [])

unfoldable pub parse_detach_partition : ℕ → Members → Check
parse_detach_partition n body = all_of (
    known n body ("kind" ∷ "schema" ∷ "table" ∷ "partition" ∷ [])
    ∷ all_named n body ("schema" ∷ "table" ∷ "partition" ∷ [])
    ∷ [])

-- `range + list + deflt != 1`
abbrev pub exactly_one : Bool → Bool → Bool → Bool
exactly_one true false false = true
exactly_one false true false = true
exactly_one false false true = true
exactly_one a b c = false

unfoldable pub partition_bound : ℕ → Members → Check
partition_bound n body = do
  deflt ← value_bool body "default" false
  let range = contains_key body "from" || contains_key body "to"
  let list = contains_key body "values"
  all_of (
      refuse n (not (exactly_one range list deflt)) "must state exactly one kind of bound"
      ∷ (if range then all_of (given n body "from" ∷ given n body "to" ∷ []) else ok tt)
      ∷ refuse n (fails is_full_array (at_key body "values")) "values must be a non-empty array"
      ∷ each (λ v. refuse n (not (is_string v)) "values must be strings")
          (elements_of (at_key body "values"))
      ∷ [])

unfoldable pub parse_attach_partition : ℕ → Members → Check
unfolding partition_bound
parse_attach_partition n body = all_of (
    known n body
      ("kind" ∷ "schema" ∷ "table" ∷ "partition" ∷ "from" ∷ "to" ∷ "values" ∷ "default" ∷ [])
    ∷ all_named n body ("schema" ∷ "table" ∷ "partition" ∷ [])
    ∷ partition_bound n body
    ∷ [])
