-- ===== src/Spec/Parse/Rows.antt =====
-- cpp/src/spec.h: `parse_delete_rows`, `parse_insert_rows`, `parse_update_rows`, `parse_merge_rows`
-- and `parse_copy_rows`.
use pg_laswell.Base.{
  ℕ, ◌+◌, Bool, true, false, not, ◌&&◌, ◌||◌, String, List, [], ◌∷◌, ltb, length, if◌then◌else◌,
}
use pg_laswell.Base.Bytes.{is_text, one_of, text}
use pg_laswell.Base.Result.{ok, ◌>>=◌}
use pg_laswell.Canonical.Document.{Json, string, Members}
use pg_laswell.Trust.Entries.{same}
use pg_laswell.Spec.Checks.{
  Check, all_of, at_key, contains_key, is_string, value_string, each, holds, fails, is_full_array,
  known, refuse, all_named, string_named, has_none, elements_of,
}
use pg_laswell.Spec.Parse.Columns.{is_filled}
use pg_laswell.Spec.Parse.Source.{
  row_key_columns, keys_carried, full_columns, parse_row_source, require_update_columns_supplied,
  parse_preserve_and_invariants,
}

-- Neither "values" nor "select".
abbrev by_where : Members → Bool
by_where body = not (contains_key body "values") && not (contains_key body "select")

unfoldable pub parse_delete_rows : ℕ → Members → Check
unfolding row_key_columns parse_row_source parse_preserve_and_invariants
parse_delete_rows n body = all_of (
    known n body (
      "kind" ∷ "schema" ∷ "table" ∷ "key" ∷ "where" ∷ "columns" ∷ "values" ∷ "select" ∷ "paced"
      ∷ "verify_remaining" ∷ "preserve" ∷ "assert_invariants" ∷ [])
    ∷ all_named n body ("schema" ∷ "table" ∷ [])
    ∷ (row_key_columns n body true >>= λ keys.
        refuse n (by_where body && ltb 1 (length keys))
          "key is a list, which the \"where\" form does not take")
    ∷ (if by_where body
        then (value_string body "where" [] >>= λ w.
            refuse n (not (holds is_filled (at_key body "where"))) "names no rows to delete")
        else ok tt)
    ∷ parse_row_source n body true
    ∷ parse_preserve_and_invariants n body
    ∷ [])

-- The columns that a conflict or a match updates.
unfoldable pub update_columns : ℕ → Members → Bool → Check
unfolding require_update_columns_supplied
update_columns n body updates =
    if contains_key body "update_columns"
    then all_of (
        refuse n (not updates) "has \"update_columns\" and nothing would be updated"
        ∷ refuse n (not (holds is_full_array (at_key body "update_columns")))
            "update_columns must be a non-empty array"
        ∷ each (string_named n "update_columns" "update_columns entries must be strings")
            (elements_of (at_key body "update_columns"))
        ∷ require_update_columns_supplied n body
        ∷ [])
    else ok tt

-- The arbiter of a conflict.
unfoldable pub conflict_target : ℕ → Members → Bool → Check
conflict_target n body true =
    refuse n (contains_key body "conflict_target") "has a \"conflict_target\" and refuses"
conflict_target n body false = all_of (
    refuse n (not (holds is_full_array (at_key body "conflict_target")))
      "on_conflict needs a \"conflict_target\""
    ∷ each (string_named n "conflict_target" "conflict_target entries must be strings")
        (elements_of (at_key body "conflict_target"))
    ∷ [])

unfoldable pub conflict_of : ℕ → Members → List ℕ → Check
unfolding conflict_target update_columns
conflict_of n body way = all_of (
    refuse n
      (contains_key body "on_conflict" && not (one_of way ("refuse" ∷ "skip" ∷ "update" ∷ [])))
      "on_conflict must be \"refuse\", \"skip\" or \"update\""
    ∷ conflict_target n body (is_text way "refuse")
    ∷ refuse n (fails is_filled (at_key body "conflict_where"))
        "conflict_where must be a non-empty string"
    ∷ update_columns n body (is_text way "update")
    ∷ [])

unfoldable pub parse_insert_rows : ℕ → Members → Check
unfolding row_key_columns parse_row_source conflict_of parse_preserve_and_invariants
parse_insert_rows n body = all_of (
    known n body (
      "kind" ∷ "schema" ∷ "table" ∷ "key" ∷ "columns" ∷ "values" ∷ "select" ∷ "on_conflict"
      ∷ "conflict_target" ∷ "conflict_where" ∷ "update_columns" ∷ "overriding" ∷ "paced"
      ∷ "verify_remaining" ∷ "assert_invariants" ∷ [])
    ∷ all_named n body ("schema" ∷ "table" ∷ [])
    ∷ (row_key_columns n body false >>= λ keys. ok tt)
    ∷ parse_row_source n body false
    ∷ (if contains_key body "select" then full_columns n body else ok tt)
    ∷ (value_string body "on_conflict" (text "refuse") >>= λ way. conflict_of n body way)
    ∷ (if contains_key body "overriding"
        then (value_string body "overriding" [] >>= λ o.
            refuse n (not (one_of o ("system" ∷ "user" ∷ [])))
              "overriding must be \"system\" or \"user\"")
        else ok tt)
    ∷ parse_preserve_and_invariants n body
    ∷ [])

-- `c.is_string() && c.get<std::string>() == key` for one of the columns.
unfoldable pub names_column : List Json → List ℕ → Bool
unfolding same
names_column [] key = false
names_column (string s ∷ cs) key = same s key || names_column cs key
names_column (c ∷ cs) key = names_column cs key

unfoldable pub keys_named : ℕ → List Json → List (List ℕ) → Check
unfolding names_column
keys_named n columns [] = ok tt
keys_named n columns (k ∷ ks) =
    refuse n (not (names_column columns k)) "columns does not include the key" >>= λ _.
    keys_named n columns ks

unfoldable pub parse_update_rows : ℕ → Members → Check
unfolding row_key_columns parse_row_source keys_named parse_preserve_and_invariants
parse_update_rows n body = all_of (
    known n body (
      "kind" ∷ "schema" ∷ "table" ∷ "key" ∷ "columns" ∷ "values" ∷ "select" ∷ "paced"
      ∷ "verify_remaining" ∷ "preserve" ∷ "assert_invariants" ∷ [])
    ∷ all_named n body ("schema" ∷ "table" ∷ [])
    ∷ (row_key_columns n body true >>= λ keys. all_of (
        parse_row_source n body false
        ∷ full_columns n body
        ∷ keys_named n (elements_of (at_key body "columns")) keys
        ∷ refuse n (ltb (length (elements_of (at_key body "columns"))) (length keys + 1))
            "sets no columns"
        ∷ []))
    ∷ parse_preserve_and_invariants n body
    ∷ [])

abbrev only_string : ℕ → Json → Check
only_string n v = refuse n (not (is_string v)) "columns entries must be strings"

-- What the three branches of a merge do.
unfoldable pub merge_branches : ℕ → Members → List ℕ → List ℕ → List ℕ → Check
unfolding update_columns
merge_branches n body matched not_matched by_source = all_of (
    refuse n
      (is_text matched "nothing" && (is_text not_matched "nothing" && is_text by_source "nothing"))
      "would do nothing"
    ∷ update_columns n body (is_text matched "update")
    ∷ [])

-- One branch, if it is stated.
abbrev branch_of : ℕ → Members → String → List ℕ → List String → Check
branch_of n body k way allowed =
    refuse n (contains_key body k && not (one_of way allowed)) "has an unknown WHEN branch"

unfoldable pub when_branches : ℕ → Members → Check
unfolding merge_branches
when_branches n body = value_string body "when_matched" (text "update") >>= λ matched.
    (branch_of n body "when_matched" matched ("update" ∷ "delete" ∷ "nothing" ∷ []) >>= λ _.
    (value_string body "when_not_matched" (text "insert") >>= λ not_matched.
    (branch_of n body "when_not_matched" not_matched ("insert" ∷ "nothing" ∷ []) >>= λ _.
    (value_string body "when_not_matched_by_source" (text "nothing") >>= λ by_source.
    (branch_of n body "when_not_matched_by_source" by_source ("nothing" ∷ "delete" ∷ []) >>= λ _.
    merge_branches n body matched not_matched by_source)))))

unfoldable pub parse_merge_rows : ℕ → Members → Check
unfolding row_key_columns parse_row_source keys_carried when_branches parse_preserve_and_invariants
parse_merge_rows n body = all_of (
    known n body (
      "kind" ∷ "schema" ∷ "table" ∷ "key" ∷ "columns" ∷ "values" ∷ "select" ∷ "when_matched"
      ∷ "update_columns" ∷ "when_not_matched" ∷ "when_not_matched_by_source" ∷ "paced"
      ∷ "verify_remaining" ∷ "preserve" ∷ "assert_invariants" ∷ [])
    ∷ all_named n body ("schema" ∷ "table" ∷ [])
    ∷ (row_key_columns n body true >>= λ keys. all_of (
        parse_row_source n body false
        ∷ full_columns n body
        ∷ each (only_string n) (elements_of (at_key body "columns"))
        ∷ keys_carried n (elements_of (at_key body "columns")) keys
        ∷ []))
    ∷ when_branches n body
    ∷ parse_preserve_and_invariants n body
    ∷ [])

unfoldable pub parse_copy_rows : ℕ → Members → Check
unfolding parse_row_source
parse_copy_rows n body = all_of (
    refuse n (not (has_none body ("on_error" ∷ "reject_limit" ∷ "freeze" ∷ [])))
      "uses an option that this build cannot send"
    ∷ known n body (
        "kind" ∷ "schema" ∷ "table" ∷ "columns" ∷ "values" ∷ "verify_remaining"
        ∷ "assert_invariants" ∷ [])
    ∷ all_named n body ("schema" ∷ "table" ∷ [])
    ∷ refuse n (contains_key body "select") "has \"select\", which COPY cannot take"
    ∷ parse_row_source n body false
    ∷ refuse n (not (contains_key body "values")) "needs \"values\""
    ∷ full_columns n body
    ∷ [])
