-- ===== src/Spec/Parse/NewTable.antt =====
-- cpp/src/spec.h: `parse_create_table`.
use pg_laswell.Base.{
  ℕ, ◌+◌, Bool, true, false, not, ◌&&◌, ◌||◌, Option, none, some, List, [], ◌∷◌, leb, nat_eq,
  if◌then◌else◌,
}
use pg_laswell.Base.Int.{ℤ, pos, negsuc}
use pg_laswell.Base.Result.{Result, ok, err, ◌>>=◌}
use pg_laswell.Canonical.Document.{Json, string, object, Members, end, field}
use pg_laswell.Spec.Checks.{
  Check, SpecError, refused, type_error, intent, all_of, at_key, contains_key, is_string,
  is_boolean, is_number, is_number_integer, value_string, value_bool, each, holds, is_full_array,
  named, given, require_identifier, require_string, reject_unknown_keys, period_flag, known, refuse,
  all_named, has_none, elements_of,
}
use pg_laswell.Spec.Checks.Integer.{get_int}
use pg_laswell.Spec.Parse.Constraints.{seen_before, split_dot}
use pg_laswell.Spec.Parse.Source.{one_if, full_columns}

-- The storage parameters, each an identifier with a text or a number.
unfoldable pub storage_members : ℕ → Members → Check
storage_members n end = ok tt
storage_members n (field k v ms) = require_identifier k "options" n >>= λ _.
    (refuse n (not (is_string v) && not (is_number v)) "options must be strings or numbers" >>= λ _.
    storage_members n ms)

unfoldable pub storage_of : ℕ → Members → Option Json → Check
unfolding storage_members
storage_of n body none = ok tt
storage_of n body (some (object options)) = storage_members n options >>= λ _.
    refuse n (contains_key body "partition_by") "gives storage options to a partitioned table"
storage_of n body (some v) = err (refused (intent n) "options must be an object of name to value")

-- Which kinds of bound are stated.
abbrev is_range : Members → Bool
is_range body = contains_key body "from" || contains_key body "to"

abbrev is_hash : Members → Bool
is_hash body = contains_key body "modulus" || contains_key body "remainder"

-- `schema.table`, at the first dot.
unfoldable pub parent_named : ℕ → List ℕ → Check
unfolding split_dot
parent_named n parent = elim (split_dot parent) [
  | none ↦ err (refused (intent n) "partition_of must be \"schema.table\"")
  | some p ↦
      require_identifier p.0 "partition_of" n >>= λ _. require_identifier p.1 "partition_of" n
]

-- `get<int>() < 1`, and `< 0`.
abbrev below_one : ℤ → Bool
below_one (pos n) = nat_eq n 0
below_one (negsuc n) = true

abbrev is_negative : ℤ → Bool
is_negative (pos n) = false
is_negative (negsuc n) = true

-- `a >= b`
abbrev at_least : ℤ → ℤ → Bool
at_least (pos a) (pos b) = leb b a
at_least (pos a) (negsuc b) = true
at_least (negsuc a) (pos b) = false
at_least (negsuc a) (negsuc b) = leb a b

-- `contains(key) && is_number_integer()`, and then `get<int>()`.
unfoldable pub integer_of : ℕ → Option Json → Result SpecError ℤ
unfolding get_int
integer_of n none = err (refused (intent n) "needs an integer modulus and a remainder")
integer_of n (some v) =
    if is_number_integer v
    then get_int v
    else err (refused (intent n) "needs an integer modulus and a remainder")

unfoldable pub hash_bound : ℕ → Members → Check
unfolding integer_of
hash_bound n body = integer_of n (at_key body "modulus") >>= λ modulus.
    (refuse n (below_one modulus) "needs an integer modulus and a remainder" >>= λ _.
    (integer_of n (at_key body "remainder") >>= λ remainder.
    refuse n (is_negative remainder || at_least remainder modulus)
      "needs an integer modulus and a remainder"))

abbrev text_value : ℕ → Json → Check
text_value n v = refuse n (not (is_string v)) "values must be strings"

-- A partition of a table, which states one bound.
unfoldable pub partition : ℕ → Members → Bool → Check
unfolding parent_named hash_bound
partition n body default = all_of (
    (require_string body "partition_of" (intent n) >>= λ parent. parent_named n parent)
    ∷ refuse n (not (has_none body ("columns" ∷ "primary_key" ∷ "without_overlaps" ∷ [])))
        "gives columns or a key to a partition"
    ∷ refuse n
        (not (
          nat_eq
            (one_if (is_range body)
              + one_if (contains_key body "values")
              + one_if (is_hash body)
              + one_if default)
            1))
        "must state exactly one kind of bound"
    ∷ (if is_range body then all_of (given n body "from" ∷ given n body "to" ∷ []) else ok tt)
    ∷ (if contains_key body "values"
        then all_of (
            refuse n (not (holds is_full_array (at_key body "values")))
              "values must be a non-empty array"
            ∷ each (text_value n) (elements_of (at_key body "values"))
            ∷ [])
        else ok tt)
    ∷ (if is_hash body then hash_bound n body else ok tt)
    ∷ [])

unfoldable pub new_column : ℕ → Json → Check
new_column n (object column) = all_of (
    reject_unknown_keys column ("name" ∷ "type" ∷ "nullable" ∷ "default" ∷ "comment" ∷ [])
      (intent n)
    ∷ named n column "name"
    ∷ given n column "type"
    ∷ given n column "comment"
    ∷ refuse n (not (holds is_boolean (at_key column "nullable")))
        "columns nullable must be stated as a boolean"
    ∷ [])
new_column n v = err (refused (intent n) "columns entries must be objects")

-- `col.value("name", "")` of each column.
unfoldable pub declared_names : List Json → Result SpecError (List (List ℕ))
declared_names [] = ok []
declared_names (object column ∷ vs) =
    value_string column "name" [] >>= λ name. (declared_names vs >>= λ names. ok (name ∷ names))
declared_names (v ∷ vs) = err type_error

unfoldable pub key_declared : ℕ → List (List ℕ) → Json → Check
unfolding seen_before
key_declared n names (string s) =
    refuse n (not (seen_before names s)) "primary_key names one that is not one of its columns"
key_declared n names v = err (refused (intent n) "primary_key must be strings")

unfoldable pub primary_key : ℕ → Members → Check
unfolding declared_names key_declared
primary_key n body =
    if contains_key body "primary_key"
    then all_of (
        refuse n (not (holds is_full_array (at_key body "primary_key")))
          "primary_key must be a non-empty array of columns"
        ∷ (declared_names (elements_of (at_key body "columns")) >>= λ names.
            each (key_declared n names) (elements_of (at_key body "primary_key")))
        ∷ [])
    else ok tt

unfoldable pub own_table : ℕ → Members → Check
unfolding new_column primary_key
own_table n body = all_of (
    refuse n
      (is_range body
        || (contains_key body "values" || (is_hash body || contains_key body "default")))
      "states a partition bound without partition_of"
    ∷ full_columns n body
    ∷ each (new_column n) (elements_of (at_key body "columns"))
    ∷ primary_key n body
    ∷ (if contains_key body "without_overlaps"
        then all_of (
            refuse n (not (contains_key body "primary_key"))
              "without_overlaps is given without a primary_key"
            ∷ period_flag body "without_overlaps" "primary_key" (intent n)
            ∷ [])
        else ok tt)
    ∷ [])

unfoldable pub parse_create_table : ℕ → Members → Check
unfolding storage_of partition own_table
parse_create_table n body = all_of (
    known n body (
      "kind" ∷ "schema" ∷ "table" ∷ "columns" ∷ "comment" ∷ "primary_key" ∷ "without_overlaps"
      ∷ "partition_by" ∷ "unlogged" ∷ "options" ∷ "partition_of" ∷ "from" ∷ "to" ∷ "values"
      ∷ "default" ∷ "modulus" ∷ "remainder" ∷ [])
    ∷ all_named n body ("schema" ∷ "table" ∷ [])
    ∷ given n body "comment"
    ∷ storage_of n body (at_key body "options")
    ∷ (value_bool body "default" false >>= λ default.
        if contains_key body "partition_of" then partition n body default else own_table n body)
    ∷ [])
