-- ===== src/Spec/Tests.antt =====
-- Runs of cpp/src/spec.h, `parse_spec` and its parsers, and the theorems at them.
use pg_laswell.Base.{ℕ, true, false, ◌≡◌, ◌↔◌, refl, some, List, [], ◌∷◌}
use pg_laswell.Base.Int.{pos}
use pg_laswell.Base.Bytes.{text}
use pg_laswell.Base.Result.{Result, ok, err}
use pg_laswell.Canonical.Document.{
  Json, string, integer, unsigned, array, object, nil, cons, Members, end, field, canonicalize,
  canonicalize_into, join, sort, insert,
}
use pg_laswell.Spec.Checks.{
  each, SpecError, type_error, refused, intent, require_identifier, reject_unknown_keys, at_key,
  elements, require_string, all_of, all_named, named, contains_key, optional_creation_comment,
  value_string,
}
use pg_laswell.Canonical.Utf8.{utf16_units, lex_less}
use pg_laswell.Canonical.Strings.{escape}
use pg_laswell.Canonical.Numbers.{integer_text, to_int64}
use pg_laswell.Spec.Checks.Identifier
use pg_laswell.Spec.Checks.Identifier.{IsPlain}
use pg_laswell.Spec.Kinds.{IntentKind}
use pg_laswell.Spec.Keys.{ModuleKeys, conflict_keys, dotted}
use pg_laswell.Spec.Keys.Names.{Names}
use pg_laswell.Spec.Keys.Tables.{names_table}
use pg_laswell.Spec.Keys.Accepted
use pg_laswell.Spec.Document.Rows
use pg_laswell.Spec.Document.Rows.{Lined}
use pg_laswell.Spec.Parse.NewTable.{hash_bound}
use pg_laswell.Spec.Parse.Rows.{parse_insert_rows}
use pg_laswell.Spec.Parse.Access.{parse_set_owner}
use pg_laswell.Spec.Parse.Tables.{parse_drop_table}
use pg_laswell.Spec.Parse.Routines.{parse_subscription}
use pg_laswell.Spec.Document.{Modules, Spec, no_target, parse_spec, check_version}
use pg_laswell.Spec.Document.Dispatch.{parse_body}
use pg_laswell.Spec.Document.Signed
use pg_laswell.Spec.Document.Signed.{unsigned_of}
use pg_laswell.Spec.Document.Formed
use pg_laswell.Spec.Document.Formed.{WellFormed}

-- A build without extension modules.
abbrev core_only : Modules
core_only = record { declares = λ name. false; parses = λ name n body. ok tt }

abbrev first_byte : List ℕ → List ℕ
first_byte [] = 0 ∷ []
first_byte (b ∷ bs) = b ∷ []

-- {"kind": "drop_table", "schema": "s", "table": "t"}
abbrev drop_t : Members
drop_t =
    field (text "kind") (string (text "drop_table"))
      (field (text "schema") (string (text "s")) (field (text "table") (string (text "t")) end))

abbrev small_doc : Members
small_doc = field (text "description") (string (text "d")) (
    field (text "id") (string (text "a")) (
      field (text "intents") (array (cons (object drop_t) nil)) (
        field (text "laswell_spec_version") (unsigned 1)
          (field (text "signatures") (array nil) end))))

abbrev small_spec : Result SpecError Spec
small_spec = parse_spec core_only first_byte (object small_doc)

abbrev parsed : Result SpecError Spec → Spec
parsed (ok s) = s
parsed (err e) = record {
  document = end;
  signed_projection = end;
  canonical_bytes = [];
  digest = [];
  parts = record {
    id = [];
    description = [];
    rationale = [];
    depends_on = [];
    release = [];
    target = no_target;
    intents = [];
  };
  signatures = array nil;
}

small_accepted : small_spec ≡ ok (parsed small_spec)
unfolding parse_spec text reject_unknown_keys at_key elements require_string all_of all_named
    canonicalize canonicalize_into utf16_units join sort insert lex_less escape integer_text
    to_int64
small_accepted = refl

parse_spec_signed_example :
    parse_spec core_only first_byte (object (parsed small_spec).signed_projection)
    ≡ ok (unsigned_of (parsed small_spec))
parse_spec_signed_example =
    Signed.parse_spec_signed core_only first_byte small_doc (parsed small_spec) small_accepted

parse_spec-WellFormed_example : WellFormed core_only (parsed small_spec)
parse_spec-WellFormed_example =
    Formed.parse_spec-WellFormed core_only first_byte (object small_doc) (parsed small_spec)
      small_accepted

require_identifier-IsPlain_example :
    (require_identifier (text "orders_2") "table" 0 ≡ ok tt) ↔ IsPlain (text "orders_2")
require_identifier-IsPlain_example =
    Identifier.require_identifier-IsPlain (text "orders_2") "table" 0

-- 4294967297 passes as version 1.
version_wraps : check_version (some (integer (pos 4294967297))) ≡ ok tt
unfolding check_version
version_wraps = refl

-- A connection URI with a password in it is accepted.
uri_accepted :
    parse_subscription false 0 (
      field (text "kind") (string (text "alter_subscription")) (
        field
          (text "name")
          (string (text "s"))
          (field (text "connection") (string (text "postgresql://u:secret@h/d")) end)))
    ≡ ok tt
unfolding parse_subscription text all_of reject_unknown_keys optional_creation_comment at_key named
    contains_key
uri_accepted = refl

abbrev no_keys : ModuleKeys
no_keys = record { object_key = λ k body. ok []; further_keys = λ k body. ok [] }

-- {"kind": "set_owner", "object_type": "TABLE", "schema": 1, "name": "t", "owner": "o"}
abbrev odd_owner : Members
odd_owner = field (text "kind") (string (text "set_owner")) (
    field (text "object_type") (string (text "TABLE")) (
      field (text "schema") (unsigned 1)
        (field (text "name") (string (text "t")) (field (text "owner") (string (text "o")) end))))

owner_accepted : parse_set_owner 0 odd_owner ≡ ok tt
unfolding parse_set_owner text all_of reject_unknown_keys require_string at_key all_named
owner_accepted = refl

owner_raises : conflict_keys no_keys IntentKind.set_owner odd_owner ≡ err type_error
unfolding conflict_keys text value_string at_key
owner_raises = refl

drop_t_accepted : parse_drop_table 0 drop_t ≡ ok tt
unfolding parse_drop_table text all_of reject_unknown_keys all_named at_key
drop_t_accepted = refl

accepted_keyed_example :
    (s : List ℕ) × (t : List ℕ) × (more : List (List ℕ)) × (Names drop_t "schema" s
      × (Names drop_t "table" t
          × (conflict_keys no_keys IntentKind.drop_table drop_t ≡ ok (dotted s t ∷ more))))
unfolding parse_body
accepted_keyed_example =
    Accepted.accepted_keyed (λ name n body. ok tt) no_keys IntentKind.drop_table 0 drop_t
      (unfold names_table in refl) drop_t_accepted

-- {"kind": "insert_rows", "schema": "s", "table": "t", "key": "a", "columns": ["a", "b"], "values": [[1, "x"]]}
abbrev two_columns : Json
two_columns = array (cons (string (text "a")) (cons (string (text "b")) nil))

abbrev one_row : Json
one_row = array (cons (array (cons (unsigned 1) (cons (string (text "x")) nil))) nil)

abbrev insert_body : Json → Members
insert_body rows = field (text "columns") two_columns (
    field (text "key") (string (text "a")) (
      field (text "kind") (string (text "insert_rows")) (
        field (text "schema") (string (text "s"))
          (field (text "table") (string (text "t")) (field (text "values") rows end)))))

insert_accepted : parse_insert_rows 0 (insert_body one_row) ≡ ok tt
unfolding parse_insert_rows text all_of reject_unknown_keys all_named at_key contains_key
    value_string elements each
insert_accepted = refl

-- A row that is too short.
short_row :
    parse_insert_rows 0 (insert_body (array (cons two_columns (cons (array nil) nil))))
    ≡ err (refused (intent 0) "a row does not line up with \"columns\"")
unfolding parse_insert_rows text all_of reject_unknown_keys all_named at_key contains_key
    value_string elements each
short_row = refl

insert_listed : contains_key (insert_body one_row) "values" ≡ true
unfolding contains_key at_key text
insert_listed = refl

accepted_rows-Lined_example : Lined (insert_body one_row)
unfolding parse_body
accepted_rows-Lined_example =
    Rows.accepted_rows-Lined (λ name n body. ok tt) Rows.inserts 0 (insert_body one_row)
      insert_listed insert_accepted

-- A modulus of 2^32 + 1, which counts as 1.
odd_modulus :
    hash_bound 0
      (field (text "modulus") (unsigned 4294967297) (field (text "remainder") (unsigned 0) end))
    ≡ ok tt
unfolding hash_bound text at_key
odd_modulus = refl
