-- ===== src/Spec/Parse/Columns.antt =====
-- cpp/src/spec.h: `parse_add_column`, `parse_backfill` and `parse_create_index`.
use pg_laswell.Base.{
  ℕ, ◌+◌, Bool, true, false, not, ◌&&◌, ◌||◌, Option, none, some, List, [], ◌∷◌, ltb, leb, nat_eq,
  length, if◌then◌else◌,
}
use pg_laswell.Base.Bytes.{one_of, text}
use pg_laswell.Base.Result.{ok, err, ◌>>=◌}
use pg_laswell.Canonical.Document.{Json, null, boolean, string, object, Members, end, field}
use pg_laswell.Trust.Entries.{same}
use pg_laswell.Spec.Checks.{
  Check, refused, intent, all_of, at_key, contains_key, is_boolean, is_array, is_number,
  value_string, each, fails, holds, is_full_array, named, given, require_identifier, require_string,
  known, refuse, all_named, string_named, elements_of, is_comment,
}
use pg_laswell.Spec.Parse.Objects.{is_one_of}
use pg_laswell.Spec.Parse.Constraints.{both_or_neither}

-- A text that is not empty.
abbrev pub is_filled : Json → Bool
is_filled v = is_comment v

unfoldable pub fill_members : ℕ → Members → Check
fill_members n src = all_of (
    refuse n (not (holds is_filled (at_key src "from"))) "fill needs a non-empty \"from\""
    ∷ refuse n (not (holds is_filled (at_key src "on"))) "fill needs a non-empty \"on\""
    ∷ refuse n (not (holds is_filled (at_key src "value"))) "fill needs a non-empty \"value\""
    ∷ [])

-- One source of a fill: an expression, or another table.
unfoldable pub fill_source : ℕ → Json → Check
unfolding fill_members
fill_source n (string s) = refuse n (not (is_filled (string s))) "fill is an empty expression"
fill_source n (object src) = known n src ("from" ∷ "on" ∷ "value" ∷ []) >>= λ _. fill_members n src
fill_source n v = err (refused (intent n) "fill is neither an expression nor a source object")

abbrev pub is_true : Json → Bool
is_true (boolean b) = b
is_true v = false

unfoldable pub fill_of : ℕ → Members → Json → Check
unfolding fill_source
fill_of n body fill = all_of (
    refuse n (not (is_filled fill) && not (is_full_array fill))
      "fill must be a non-empty SQL expression, or a list of sources"
    ∷ (if is_array fill then each (fill_source n) (elements_of (some fill)) else ok tt)
    ∷ refuse n (holds is_true (at_key body "nullable"))
        "fill is for a column declared with nullable false"
    ∷ [])

abbrev pub is_null : Json → Bool
is_null null = true
is_null v = false

-- The column has a default and a fill.
abbrev pub defaulted_fill : Members → Bool
defaulted_fill body = contains_key body "fill" && fails is_null (at_key body "default")

-- What becomes of the trigger.
unfoldable pub after_of : ℕ → Members → Check
unfolding is_one_of
after_of n body =
    if not (defaulted_fill body) && (contains_key body "fill" || contains_key body "after")
    then all_of (
        refuse n (not (contains_key body "fill"))
          "after is only meaningful together with a fill expression"
        ∷ refuse n
            (not (holds (is_one_of ("drop_trigger" ∷ "keep_trigger" ∷ [])) (at_key body "after")))
            "after must be \"drop_trigger\" or \"keep_trigger\""
        ∷ [])
    else ok tt

unfoldable pub fill_key : ℕ → Members → Option Json → Check
fill_key n body none = ok tt
fill_key n body (some key) = all_of (
    refuse n (not (contains_key body "fill"))
      "key is only meaningful together with a fill expression"
    ∷ string_named n "key" "key must be a column name" key
    ∷ [])

-- The name of the trigger that is generated, table + "_" + column + "_laswell_fill".
unfoldable pub generated_name : ℕ → Members → Check
generated_name n body =
    if contains_key body "fill"
    then (value_string body "table" [] >>= λ t.
        (value_string body "column" [] >>= λ c.
        refuse n (ltb 63 (length t + 1 + length c + 13)) "the generated name is too long"))
    else ok tt

abbrev pub fill_if_there : ℕ → Members → Option Json → Check
fill_if_there n body none = ok tt
fill_if_there n body (some fill) = fill_of n body fill

unfoldable pub parse_add_column : ℕ → Members → Check
unfolding fill_of after_of fill_key generated_name
parse_add_column n body = all_of (
    known n body (
      "kind" ∷ "schema" ∷ "table" ∷ "column" ∷ "type" ∷ "nullable" ∷ "default" ∷ "comment" ∷ "fill"
      ∷ "key" ∷ "after" ∷ "paced" ∷ [])
    ∷ all_named n body ("schema" ∷ "table" ∷ "column" ∷ [])
    ∷ given n body "type"
    ∷ refuse n (not (holds is_boolean (at_key body "nullable")))
        "must state \"nullable\" explicitly"
    ∷ given n body "comment"
    ∷ refuse n (fails is_boolean (at_key body "paced")) "paced must be true or false"
    ∷ refuse n (contains_key body "paced" && not (contains_key body "fill"))
        "has \"paced\" and no \"fill\""
    ∷ fill_if_there n body (at_key body "fill")
    ∷ refuse n (defaulted_fill body && contains_key body "after")
        "after does not apply when the column has a default"
    ∷ after_of n body
    ∷ fill_key n body (at_key body "key")
    ∷ generated_name n body
    ∷ [])

-- Each column that is set, and its expression.
unfoldable pub set_members : ℕ → Members → Check
set_members n end = ok tt
set_members n (field column v ms) = require_identifier column "set" n >>= λ _.
    (refuse n (not (is_filled v)) "set must be a non-empty SQL expression" >>= λ _.
    set_members n ms)

unfoldable pub set_of : ℕ → Option Json → Check
unfolding set_members
set_of n (some (object (field column v ms))) = set_members n (field column v ms)
set_of n v = err (refused (intent n) "needs a non-empty \"set\" object")

-- Where the rows are kept as they were, which is not the table itself.
unfoldable pub preserve_of : ℕ → Members → Option Json → Check
unfolding same
preserve_of n body none = ok tt
preserve_of n body (some (object p)) = all_of (
    known n p ("schema" ∷ "table" ∷ [])
    ∷ (require_string p "schema" (intent n) >>= λ s. require_identifier s "preserve.schema" n)
    ∷ (require_string p "table" (intent n) >>= λ t. require_identifier t "preserve.table" n)
    ∷ (value_string p "schema" [] >>= λ ps.
        (value_string body "schema" [] >>= λ s.
        (value_string p "table" [] >>= λ pt.
        (value_string body "table" [] >>= λ t.
        refuse n (same ps s && same pt t) "preserve names the table being changed"))))
    ∷ [])
preserve_of n body (some v) = err (refused (intent n) "preserve must be an object")

unfoldable pub invariant_of : ℕ → Json → Check
invariant_of n (object i) =
    all_of (known n i ("name" ∷ "query" ∷ []) ∷ given n i "name" ∷ given n i "query" ∷ [])
invariant_of n v = err (refused (intent n) "assert_invariants entries must be objects")

unfoldable pub parse_backfill : ℕ → Members → Check
unfolding set_of preserve_of invariant_of
parse_backfill n body = all_of (
    known n body (
      "kind" ∷ "schema" ∷ "table" ∷ "key" ∷ "set" ∷ "from" ∷ "where" ∷ "verify_remaining"
      ∷ "assert_invariants" ∷ "preserve" ∷ "paced" ∷ [])
    ∷ refuse n (fails is_boolean (at_key body "paced")) "paced must be true or false"
    ∷ refuse n (fails is_true (at_key body "paced") && contains_key body "preserve")
        "asks for \"paced\": false together with \"preserve\""
    ∷ all_named n body ("schema" ∷ "table" ∷ "key" ∷ [])
    ∷ set_of n (at_key body "set")
    ∷ (value_string body "where" [] >>= λ w.
        refuse n (not (is_filled (string w))) "has no \"where\" clause")
    ∷ preserve_of n body (at_key body "preserve")
    ∷ refuse n (fails is_array (at_key body "assert_invariants"))
        "assert_invariants must be an array"
    ∷ each (invariant_of n) (elements_of (at_key body "assert_invariants"))
    ∷ [])

-- A column by its name, or an object that says more about it.
unfoldable pub index_column : ℕ → Json → Check
unfolding is_one_of
index_column n (string s) = require_identifier s "columns" n
index_column n (object c) = all_of (
    known n c ("name" ∷ "expression" ∷ "direction" ∷ "nulls" ∷ "opclass" ∷ [])
    ∷ refuse n (both_or_neither (contains_key c "name") (contains_key c "expression"))
        "columns entries need exactly one of \"name\" and \"expression\""
    ∷ (if contains_key c "name" then named n c "name" else given n c "expression")
    ∷ refuse n (fails (is_one_of ("asc" ∷ "desc" ∷ [])) (at_key c "direction"))
        "columns direction must be \"asc\" or \"desc\""
    ∷ refuse n (fails (is_one_of ("first" ∷ "last" ∷ [])) (at_key c "nulls"))
        "columns nulls must be \"first\" or \"last\""
    ∷ (if contains_key c "opclass" then named n c "opclass" else ok tt)
    ∷ [])
index_column n v = err (refused (intent n) "columns entries must be a column name or an object")

unfoldable pub include_of : ℕ → Members → Check
include_of n body =
    if contains_key body "include"
    then all_of (
        refuse n (fails is_full_array (at_key body "include"))
          "include must be a non-empty array of column names"
        ∷ each (string_named n "include" "include entries must be column names")
            (elements_of (at_key body "include"))
        ∷ (value_string body "method" (text "btree") >>= λ m.
            refuse n (not (one_of m ("btree" ∷ "gist" ∷ "spgist" ∷ [])))
              "uses include with another method")
        ∷ [])
    else ok tt

-- `std::isalnum`, or `_` or `.`
is_word_byte : ℕ → Bool
is_word_byte c =
    leb b'a' c && leb c b'z'
    || (leb b'A' c && leb c b'Z' || (leb b'0' c && leb c b'9' || (nat_eq c b'_' || nat_eq c b'.')))

all_word : List ℕ → Bool
unfolding is_word_byte
all_word [] = true
all_word (c ∷ cs) = is_word_byte c && all_word cs

unfoldable pub is_word : Json → Bool
unfolding all_word
is_word (string (c ∷ cs)) = all_word (c ∷ cs)
is_word v = false

unfoldable pub with_members : ℕ → Members → Check
unfolding is_word
with_members n end = ok tt
with_members n (field k v ms) = require_identifier k "with" n >>= λ _.
    (refuse n (not (is_number v || (is_boolean v || is_word v)))
        "with must be a number, a boolean or a short word"
      >>= λ _. with_members n ms)

unfoldable pub with_of : ℕ → Option Json → Check
unfolding with_members
with_of n none = ok tt
with_of n (some (object (field k v ms))) = with_members n (field k v ms)
with_of n (some v) = err (refused (intent n) "with must be a non-empty object")

unfoldable pub parse_create_index : ℕ → Members → Check
unfolding index_column include_of with_of is_one_of
parse_create_index n body = all_of (
    known n body (
      "kind" ∷ "schema" ∷ "table" ∷ "name" ∷ "columns" ∷ "include" ∷ "unique" ∷ "method" ∷ "where"
      ∷ "with" ∷ "comment" ∷ "on_equivalent_index" ∷ [])
    ∷ all_named n body ("schema" ∷ "table" ∷ "name" ∷ [])
    ∷ refuse n (not (holds is_full_array (at_key body "columns")))
        "needs a non-empty \"columns\" array"
    ∷ each (index_column n) (elements_of (at_key body "columns"))
    ∷ include_of n body
    ∷ given n body "comment"
    ∷ with_of n (at_key body "with")
    ∷ refuse n
        (fails (is_one_of ("rename" ∷ "adopt" ∷ "refuse" ∷ [])) (at_key body "on_equivalent_index"))
        "on_equivalent_index must be \"rename\", \"adopt\" or \"refuse\""
    ∷ [])
