-- ===== src/Spec/Keys.antt =====
-- cpp/src/spec.h: `object_key_for` and `conflict_keys`, what an intent is serialised against. Each reads the
-- body by `value`, so a member of another type raises.
pub mod Names
pub mod Tables
pub mod Columns
pub mod Physical
pub mod Rows
pub mod Named
pub mod Kinds
pub mod Accepted
use pg_laswell.Base.{
  ℕ, Bool, true, false, ◌&&◌, ◌||◌, String, List, [], ◌∷◌, ◌++◌, is_nil, nat_eq, if◌then◌else◌,
}
use pg_laswell.Base.Bytes.{is_text, text}
use pg_laswell.Base.Result.{Result, ok, err, ◌>>=◌}
use pg_laswell.Canonical.Document.{Json, object, Members}
use pg_laswell.Spec.Checks.{
  SpecError, type_error, at_key, contains_key, value_string, value_bool, elements_of,
}
use pg_laswell.Spec.Kinds.{IntentKind}

-- What of the body the object's key is made of.
pub data KeyForm : Type 0 where
  no_object : KeyForm
  of_schema of_name of_both : String → KeyForm

unfoldable pub key_form : IntentKind → KeyForm
key_form IntentKind.create_schema = of_schema "schema:"
key_form IntentKind.drop_schema = of_schema "schema:"
key_form IntentKind.alter_schema = of_schema "schema:"
key_form IntentKind.create_extension = of_name "extension:"
key_form IntentKind.drop_extension = of_name "extension:"
key_form IntentKind.alter_extension = of_name "extension:"
key_form IntentKind.create_type = of_both "type:"
key_form IntentKind.drop_type = of_both "type:"
key_form IntentKind.add_enum_value = of_both "type:"
key_form IntentKind.alter_domain = of_both "type:"
key_form IntentKind.create_function = of_both "function:"
key_form IntentKind.drop_function = of_both "function:"
key_form IntentKind.alter_function = of_both "function:"
key_form IntentKind.create_sequence = of_both "sequence:"
key_form IntentKind.drop_sequence = of_both "sequence:"
key_form IntentKind.alter_sequence = of_both "sequence:"
key_form IntentKind.set_text_search_mapping = of_both "tsconfig:"
key_form _ = no_object

-- A module's keys: the object's, and the further conflicts with the tables that a module adds.
pub record ModuleKeys : Type 0 where
  pub object_key : List ℕ → Members → Result SpecError (List ℕ)
  pub further_keys : List ℕ → Members → Result SpecError (List (List ℕ))

abbrev pub dotted : List ℕ → List ℕ → List ℕ
dotted a b = a ++ b'.' ∷ b

unfoldable pub formed : KeyForm → List ℕ → List ℕ → List ℕ
unfolding text
formed no_object schema name = []
formed (of_schema p) schema name = text p ++ schema
formed (of_name p) schema name = text p ++ name
formed (of_both p) schema name = text p ++ dotted schema name

unfoldable pub object_key_for : ModuleKeys → IntentKind → Members → Result SpecError (List ℕ)
unfolding formed key_form
object_key_for m (IntentKind.of_module k) body = do
  schema ← value_string body "schema" []
  name ← value_string body "name" []
  m.object_key k body
object_key_for m kind body = do
  schema ← value_string body "schema" []
  name ← value_string body "name" []
  ok (formed (key_form kind) schema name)

-- `!k.empty() && k != "." && k.back() != '.'`; "." ends in a dot too.
unfoldable pub ends_in_dot : List ℕ → Bool
ends_in_dot [] = false
ends_in_dot (c ∷ []) = nat_eq c b'.'
ends_in_dot (c ∷ (d ∷ s)) = ends_in_dot (d ∷ s)

unfoldable pub add : List ℕ → List (List ℕ)
unfolding ends_in_dot
add k = if is_nil k || ends_in_dot k then [] else k ∷ []

unfoldable pub has_byte : ℕ → List ℕ → Bool
has_byte c [] = false
has_byte c (b ∷ bs) = nat_eq b c || has_byte c bs

-- `s.substr(0, s.find(c))`
unfoldable pub up_to : ℕ → List ℕ → List ℕ
up_to c [] = []
up_to c (b ∷ bs) = if nat_eq b c then [] else b ∷ up_to c bs

-- `pop_back` while the text ends in a blank or an opening bracket.
unfoldable pub trimmed : List ℕ → List ℕ
trimmed [] = []
trimmed (b ∷ bs) =
    let rest = trimmed bs in
    if is_nil rest && (nat_eq b b' ' || nat_eq b b'[') then [] else b ∷ rest

-- A column's type, where it is qualified.
unfoldable pub type_key : List ℕ → List (List ℕ)
unfolding trimmed up_to has_byte add text
type_key type = if has_byte b'.' type then add (text "type:" ++ trimmed (up_to b'(' type)) else []

-- The same of a column of a new table, whose end is left as it is.
unfoldable pub column_type_key : List ℕ → List (List ℕ)
unfolding up_to has_byte add text
column_type_key type = if has_byte b'.' type then add (text "type:" ++ up_to b'(' type) else []

unfoldable pub column_keys : List Json → Result SpecError (List (List ℕ))
unfolding column_type_key
column_keys [] = ok []
column_keys (object c ∷ cs) = do
  type ← value_string c "type" []
  rest ← column_keys cs
  ok (column_type_key type ++ rest)
column_keys (v ∷ cs) = err type_error

unfoldable pub function_key : List ℕ → List (List ℕ)
unfolding up_to has_byte add text
function_key fn =
    let name = up_to b'(' fn in if has_byte b'.' name then add (text "function:" ++ name) else []

-- `add(schema + "." + in.body.value(key, ""))`
unfoldable pub named_relation : Members → List ℕ → String → Result SpecError (List (List ℕ))
unfolding add
named_relation body schema k = value_string body k [] >>= λ name. ok (add (dotted schema name))

-- A key with a period needs the operator classes of an extension.
unfoldable pub gist_if : Bool → List (List ℕ)
unfolding text
gist_if true = text "extension:btree_gist" ∷ []
gist_if false = []

-- What the parent of a partition adds.
unfoldable pub parent_key : Members → Result SpecError (List (List ℕ))
unfolding add
parent_key body =
    if contains_key body "partition_of"
    then (value_string body "partition_of" [] >>= λ p. ok (add p))
    else ok []

unfoldable pub edges : ModuleKeys → IntentKind → Members → List ℕ → Result SpecError (List (List ℕ))
unfolding type_key column_keys function_key named_relation gist_if parent_key
edges m (IntentKind.of_module k) body schema = m.further_keys k body
edges m IntentKind.add_column body schema = value_string body "type" [] >>= λ t. ok (type_key t)
edges m IntentKind.alter_column_type body schema =
    value_string body "type" [] >>= λ t. ok (type_key t)
edges m IntentKind.create_table body schema = do
  parent ← parent_key body
  period ← value_bool body "without_overlaps" false
  columns ← column_keys (elements_of (at_key body "columns"))
  ok (parent ++ (gist_if period ++ columns))
edges m IntentKind.create_trigger body schema =
    value_string body "function" [] >>= λ fn. ok (function_key fn)
edges m IntentKind.attach_partition body schema = named_relation body schema "partition"
edges m IntentKind.detach_partition body schema = named_relation body schema "partition"
edges m IntentKind.rename_table body schema = named_relation body schema "to"
edges m IntentKind.add_foreign_key body schema =
    value_string body "references_schema" [] >>= λ s. named_relation body s "references_table"
edges m IntentKind.add_unique_constraint body schema =
    value_bool body "without_overlaps" false >>= λ period. ok (gist_if period)
edges m IntentKind.add_primary_key body schema =
    value_bool body "without_overlaps" false >>= λ period. ok (gist_if period)
edges m IntentKind.add_exclusion_constraint body schema =
    value_string body "using" (text "gist") >>= λ u. ok (gist_if (is_text u "gist"))
edges m IntentKind.replace_view body schema = named_relation body schema "name"
edges m IntentKind.drop_view body schema = named_relation body schema "name"
edges m IntentKind.alter_view body schema = named_relation body schema "name"
edges m IntentKind.create_materialized_view body schema = named_relation body schema "name"
edges m _ body schema = ok []

-- `qualified_table()`, where the body has a table.
unfoldable pub table_key : List ℕ → List ℕ → List (List ℕ)
unfolding add
table_key schema table = if is_nil table then [] else add (dotted schema table)

unfoldable pub conflict_keys : ModuleKeys → IntentKind → Members → Result SpecError (List (List ℕ))
unfolding object_key_for table_key edges add
conflict_keys m kind body = do
  schema ← value_string body "schema" []
  key ← object_key_for m kind body
  table ← value_string body "table" []
  more ← edges m kind body schema
  ok (add key ++ (table_key schema table ++ more))
