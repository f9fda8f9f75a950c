-- ===== src/Spec/Parse/Constraints.antt =====
-- cpp/src/spec.h: the parsers of constraints and of text search mappings.
use pg_laswell.Base.{
  ℕ, Bool, true, false, not, ◌&&◌, ◌||◌, String, Option, none, some, List, [], ◌∷◌, is_nil, ltb,
  nat_eq, length, if◌then◌else◌,
}
use pg_laswell.Base.Bytes.{is_text, one_of, text}
use pg_laswell.Base.Result.{ok, err, ◌>>=◌}
use pg_laswell.Canonical.Document.{Json, string, object, Members}
use pg_laswell.Trust.Entries.{same}
use pg_laswell.Spec.Checks.{
  Check, refused, intent, all_of, at_key, contains_key, is_array, value_string, value_bool, each,
  holds, is_full_array, named, given, require_identifier, require_string, reject_unknown_keys,
  period_flag, optional_creation_comment, known, refuse, all_named, string_named, elements_of,
}
use pg_laswell.Spec.Parse.Routines.{has_infix}

-- One list of columns.
unfoldable pub column_list : ℕ → Members → String → Check
column_list n body k = all_of (
    refuse n (not (holds is_full_array (at_key body k))) "needs a non-empty array"
    ∷ each (string_named n k "entries must be strings") (elements_of (at_key body k))
    ∷ [])

-- One referential action, if it is stated.
unfoldable pub action_of : ℕ → Members → String → Check
action_of n body k =
    if contains_key body k
    then (value_string body k [] >>= λ v.
        (refuse n
            (not
              (one_of v ("NO ACTION" ∷ "RESTRICT" ∷ "CASCADE" ∷ "SET NULL" ∷ "SET DEFAULT" ∷ [])))
            "must be one of the actions"
          >>= λ _.
              (value_bool body "period" false >>= λ period.
              refuse n (period && not (is_text v "NO ACTION"))
                "is not NO ACTION on a foreign key with a period")))
    else ok tt

unfoldable pub parse_add_foreign_key : ℕ → Members → Check
unfolding column_list action_of
parse_add_foreign_key n body = all_of (
    known n body (
      "kind" ∷ "schema" ∷ "table" ∷ "name" ∷ "columns" ∷ "references_schema" ∷ "references_table"
      ∷ "references_columns" ∷ "on_delete" ∷ "on_update" ∷ "comment" ∷ "period" ∷ [])
    ∷ optional_creation_comment n body
    ∷ all_named n body ("schema" ∷ "table" ∷ "name" ∷ "references_schema" ∷ "references_table" ∷ [])
    ∷ column_list n body "columns"
    ∷ column_list n body "references_columns"
    ∷ refuse n
        (not (
          nat_eq (length (elements_of (at_key body "columns")))
            (length (elements_of (at_key body "references_columns")))))
        "maps its columns one to one"
    ∷ action_of n body "on_delete"
    ∷ action_of n body "on_update"
    ∷ period_flag body "period" "columns" (intent n)
    ∷ [])

unfoldable pub parse_add_check_constraint : ℕ → Members → Check
parse_add_check_constraint n body = all_of (
    known n body ("kind" ∷ "schema" ∷ "table" ∷ "name" ∷ "expression" ∷ "comment" ∷ [])
    ∷ optional_creation_comment n body
    ∷ all_named n body ("schema" ∷ "table" ∷ "name" ∷ [])
    ∷ given n body "expression"
    ∷ [])

-- A byte of "+-*/<>=~!@#%^&|`?".
is_operator_byte : List ℕ → ℕ → Bool
is_operator_byte [] c = false
is_operator_byte (o ∷ os) c = nat_eq o c || is_operator_byte os c

unfoldable pub all_operator : List ℕ → Bool
unfolding is_operator_byte text
all_operator [] = true
all_operator (c ∷ cs) = is_operator_byte (text "+-*/<>=~!@#%^&|`?") c && all_operator cs

-- An operator's own characters, and no comment.
unfoldable pub is_operator : List ℕ → Bool
unfolding all_operator has_infix text
is_operator op =
    not (is_nil op)
    && (not (ltb 63 (length op))
        && (all_operator op && (not (has_infix op (text "--")) && not (has_infix op (text "/*")))))

-- An entry names a column or an expression, one of them.
unfoldable pub compared : ℕ → Members → Check
compared n e =
    if contains_key e "column"
    then (require_string e "column" (intent n) >>= λ c. require_identifier c "elements.column" n)
    else given n e "expression"

abbrev pub both_or_neither : Bool → Bool → Bool
both_or_neither true b = b
both_or_neither false b = not b

unfoldable pub exclusion_element : ℕ → Json → Check
unfolding compared is_operator
exclusion_element n (object e) = all_of (
    reject_unknown_keys e ("column" ∷ "expression" ∷ "with" ∷ []) (intent n)
    ∷ refuse n (both_or_neither (contains_key e "column") (contains_key e "expression"))
        "elements entries name a column or an expression, one of them"
    ∷ compared n e
    ∷ (require_string e "with" (intent n) >>= λ op.
        refuse n (not (is_operator op)) "elements.with is not an operator")
    ∷ [])
exclusion_element n v = err (refused (intent n) "elements entries must be objects")

-- `contains("where")`, and it is no text or an empty one.
abbrev pub is_bare : Json → Bool
is_bare (string (c ∷ cs)) = false
is_bare v = true

unfoldable pub parse_add_exclusion_constraint : ℕ → Members → Check
unfolding exclusion_element
parse_add_exclusion_constraint n body = all_of (
    known n body
      ("kind" ∷ "schema" ∷ "table" ∷ "name" ∷ "using" ∷ "elements" ∷ "where" ∷ "comment" ∷ [])
    ∷ optional_creation_comment n body
    ∷ all_named n body ("schema" ∷ "table" ∷ "name" ∷ [])
    ∷ (if contains_key body "using" then named n body "using" else ok tt)
    ∷ refuse n (holds is_bare (at_key body "where")) "where must be a non-empty string"
    ∷ refuse n (not (holds is_full_array (at_key body "elements")))
        "elements must be a non-empty array"
    ∷ each (exclusion_element n) (elements_of (at_key body "elements"))
    ∷ [])

-- Was the token named before?
unfoldable pub seen_before : List (List ℕ) → List ℕ → Bool
unfolding same
seen_before [] t = false
seen_before (s ∷ seen) t = same s t || seen_before seen t

unfoldable pub token_list : ℕ → List (List ℕ) → List Json → Check
unfolding seen_before
token_list n seen [] = ok tt
token_list n seen (string t ∷ ts) = require_identifier t "tokens" n >>= λ _.
    (refuse n (seen_before seen t) "tokens names one twice" >>= λ _. token_list n (t ∷ seen) ts)
token_list n seen (v ∷ ts) = err (refused (intent n) "tokens must be strings")

-- What is in front of the first dot, and behind it, if there is one.
unfoldable pub split_dot : List ℕ → Option (List ℕ × List ℕ)
split_dot [] = none
split_dot (c ∷ s) =
    let rest = split_dot s in
    if nat_eq c b'.' then some ([], s) else elim rest [ none ↦ none | some p ↦ some (c ∷ p.0, p.1) ]

unfoldable pub dictionary : ℕ → Json → Check
unfolding split_dot
dictionary n (string v) = elim (split_dot v) [
  | none ↦ require_identifier v "dictionaries" n
  | some p ↦
      require_identifier p.0 "dictionaries" n >>= λ _. require_identifier p.1 "dictionaries" n
]
dictionary n v = err (refused (intent n) "dictionaries must be strings")

unfoldable pub parse_set_text_search_mapping : ℕ → Members → Check
unfolding token_list dictionary
parse_set_text_search_mapping n body = all_of (
    known n body ("kind" ∷ "schema" ∷ "name" ∷ "tokens" ∷ "dictionaries" ∷ [])
    ∷ all_named n body ("schema" ∷ "name" ∷ [])
    ∷ refuse n (not (holds is_full_array (at_key body "tokens"))) "tokens must be a non-empty array"
    ∷ token_list n [] (elements_of (at_key body "tokens"))
    ∷ refuse n (not (holds is_array (at_key body "dictionaries"))) "dictionaries must be an array"
    ∷ each (dictionary n) (elements_of (at_key body "dictionaries"))
    ∷ [])
