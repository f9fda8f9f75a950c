-- ===== src/Spec/Parse/Source.antt =====
-- cpp/src/spec.h: what the kinds that write rows share: `row_key_columns`, `parse_row_source`,
-- `require_update_columns_supplied` and `parse_preserve_and_invariants`.
use pg_laswell.Base.{
  ℕ, ◌+◌, Bool, true, false, not, ◌&&◌, ◌||◌, Option, none, some, List, [], ◌∷◌, is_nil, ltb,
  nat_eq, length, if◌then◌else◌,
}
use pg_laswell.Base.Result.{Result, ok, err, ◌>>=◌}
use pg_laswell.Canonical.Document.{Json, string, array, cons, Members}
use pg_laswell.Trust.Entries.{same}
use pg_laswell.Spec.Checks.{
  Check, SpecError, refused, intent, all_of, at_key, contains_key, is_array, is_boolean, is_object,
  is_string, items, get_string, each, holds, fails, is_full_array, given, require_identifier,
  refuse, string_named, elements_of,
}
use pg_laswell.Spec.Parse.Columns.{is_filled, preserve_of, invariant_of}
use pg_laswell.Spec.Parse.Constraints.{seen_before}

unfoldable pub key_texts : ℕ → List Json → Result SpecError (List (List ℕ))
key_texts n [] = ok []
key_texts n (string s ∷ vs) = key_texts n vs >>= λ ks. ok (s ∷ ks)
key_texts n (v ∷ vs) =
    err (refused (intent n) "key must be a column name or a list of column names")

unfoldable pub key_columns : ℕ → Option Json → Bool → Result SpecError (List (List ℕ))
unfolding key_texts
key_columns n none true = err (refused (intent n) "is missing a non-empty \"key\"")
key_columns n none false = ok []
key_columns n (some (string s)) required = ok (s ∷ [])
key_columns n (some (array (cons x xs))) required = key_texts n (x ∷ items xs)
key_columns n (some v) required =
    err (refused (intent n) "key must be a column name or a non-empty list of column names")

-- Each is an identifier, and none that was named before.
unfoldable pub keys_once : ℕ → List (List ℕ) → List (List ℕ) → Check
unfolding seen_before
keys_once n seen [] = ok tt
keys_once n seen (k ∷ ks) = require_identifier k "key" n >>= λ _.
    (refuse n (seen_before seen k) "key names a column twice" >>= λ _. keys_once n (k ∷ seen) ks)

unfoldable pub row_key_columns : ℕ → Members → Bool → Result SpecError (List (List ℕ))
unfolding key_columns keys_once
row_key_columns n body required =
    key_columns n (at_key body "key") required >>= λ keys. (keys_once n [] keys >>= λ _. ok keys)

unfoldable pub require_scalar_cell : ℕ → Json → Check
require_scalar_cell n cell =
    refuse n (is_object cell || is_array cell) "a value must be a string, number, boolean or null"

unfoldable pub row_cells : ℕ → ℕ → Json → Check
unfolding require_scalar_cell
row_cells n arity (array row) =
    refuse n (not (nat_eq (length (items row)) arity)) "a row does not line up with \"columns\""
    >>= λ _. each (require_scalar_cell n) (items row)
row_cells n arity v = err (refused (intent n) "a row must be an array")

unfoldable pub columns_once : ℕ → List (List ℕ) → List Json → Check
unfolding seen_before
columns_once n seen [] = ok tt
columns_once n seen (string s ∷ vs) = require_identifier s "columns" n >>= λ _.
    (refuse n (seen_before seen s) "columns names one twice" >>= λ _. columns_once n (s ∷ seen) vs)
columns_once n seen (v ∷ vs) = err (refused (intent n) "columns entries must be strings")

-- `c.get<std::string>() == key` for one of the columns.
unfoldable pub among_columns : List Json → List ℕ → Result SpecError Bool
unfolding same
among_columns [] key = ok false
among_columns (c ∷ cs) key =
    get_string c >>= λ s. (among_columns cs key >>= λ found. ok (same s key || found))

unfoldable pub keys_carried : ℕ → List Json → List (List ℕ) → Check
unfolding among_columns
keys_carried n columns [] = ok tt
keys_carried n columns (k ∷ ks) = among_columns columns k >>= λ found.
    (refuse n (not found) "key is not in \"columns\"" >>= λ _. keys_carried n columns ks)

-- `in.body["columns"]` is a non-empty array.
abbrev pub full_columns : ℕ → Members → Check
full_columns n body =
    refuse n (not (holds is_full_array (at_key body "columns"))) "needs a non-empty \"columns\""

unfoldable pub select_source : ℕ → Members → Check
select_source n body = all_of (
    given n body "select"
    ∷ each (string_named n "columns" "columns entries must be strings")
        (elements_of (at_key body "columns"))
    ∷ refuse n (not (contains_key body "key")) "uses \"select\" but names no \"key\""
    ∷ [])

unfoldable pub values_source : ℕ → Members → Check
unfolding columns_once row_cells row_key_columns keys_carried
values_source n body = all_of (
    full_columns n body
    ∷ columns_once n [] (elements_of (at_key body "columns"))
    ∷ refuse n (not (holds is_full_array (at_key body "values")))
        "values must be a non-empty array of rows"
    ∷ each (row_cells n (length (elements_of (at_key body "columns"))))
        (elements_of (at_key body "values"))
    ∷ (row_key_columns n body false >>= λ keys.
        keys_carried n (elements_of (at_key body "columns")) keys)
    ∷ [])

abbrev pub one_if : Bool → ℕ
one_if true = 1
one_if false = 0

-- How many of the forms name the rows.
unfoldable pub row_sources : Members → Bool → ℕ
row_sources body allow_where =
    one_if (contains_key body "values")
    + one_if (contains_key body "select")
    + one_if (allow_where && holds is_filled (at_key body "where"))

unfoldable pub parse_row_source : ℕ → Members → Bool → Check
unfolding row_sources select_source values_source
parse_row_source n body allow_where = all_of (
    refuse n (nat_eq (row_sources body allow_where) 0) "names no rows"
    ∷ refuse n (ltb 1 (row_sources body allow_where)) "names rows more than one way"
    ∷ (if contains_key body "select" then select_source n body else ok tt)
    ∷ (if contains_key body "values" then values_source n body else ok tt)
    ∷ refuse n (fails is_boolean (at_key body "paced")) "paced must be a boolean"
    ∷ refuse n (fails is_string (at_key body "verify_remaining"))
        "verify_remaining must be a string"
    ∷ [])

-- The texts among the columns.
unfoldable pub supplied : List Json → List (List ℕ)
supplied [] = []
supplied (string s ∷ vs) = s ∷ supplied vs
supplied (v ∷ vs) = supplied vs

unfoldable pub column_supplied : ℕ → List (List ℕ) → Json → Check
unfolding seen_before
column_supplied n names (string s) =
    refuse n (not (seen_before names s)) "update_columns names one that is not supplied"
column_supplied n names v = ok tt

unfoldable pub require_update_columns_supplied : ℕ → Members → Check
unfolding supplied column_supplied
require_update_columns_supplied n body =
    if is_nil (supplied (elements_of (at_key body "columns")))
    then ok tt
    else each (column_supplied n (supplied (elements_of (at_key body "columns"))))
        (elements_of (at_key body "update_columns"))

unfoldable pub parse_preserve_and_invariants : ℕ → Members → Check
unfolding preserve_of invariant_of
parse_preserve_and_invariants n body = all_of (
    preserve_of n body (at_key body "preserve")
    ∷ refuse n (fails is_array (at_key body "assert_invariants"))
        "assert_invariants must be an array"
    ∷ each (invariant_of n) (elements_of (at_key body "assert_invariants"))
    ∷ [])
