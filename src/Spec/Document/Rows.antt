-- ===== src/Spec/Document/Rows.antt =====
-- Proofs about cpp/src/spec.h, `parse_row_source`: the literal rows of an accepted body.
use pg_laswell.Base.{
  ℕ, Bool, true, false, not, ◌||◌, ◌≡◌, inl, inr, refl, subst, ap, ◌∙◌, sym, Option, none, some,
  List, [], ◌∷◌, ◌++◌, map, length, nat_eq, arith, All, All_over, Bool-cases,
}
use pg_laswell.Base.Result.{ok, >>=-eq-ok, ok_inj}
use pg_laswell.Canonical.Document.{
  Json, null, float, binary, boolean, integer, unsigned, string, array, object, Items, nil, cons,
  Members,
}
use pg_laswell.Trust.Entries.{same}
use pg_laswell.Spec.Checks.{
  Check, at_key, contains_key, is_array, is_object, items, each, elements_of, refuse,
}
use pg_laswell.Spec.Checks.Identifier.{IsPlain}
use pg_laswell.Spec.Kinds.{IntentKind}
use pg_laswell.Spec.Keys.Names.{all_of-All, nat_same}
use pg_laswell.Spec.Document.Columned.{Once, refuse-false, same_eq, columns_once-Columned}
use pg_laswell.Spec.Parse.Source.{
  row_cells, require_scalar_cell, among_columns, keys_carried, values_source, parse_row_source,
  row_key_columns, key_columns, key_texts, keys_once,
}
use pg_laswell.Spec.Document.Dispatch.{parse_body}

abbrev pub Scalar : Json → Type 0
Scalar v = (is_object v ≡ false) × (is_array v ≡ false)

-- A row of the given length whose values are scalars.
abbrev pub Fits : ℕ → Json → Type 0
Fits arity v =
    (row : Items) × (v ≡ array row) × ((length (items row) ≡ arity) × All Scalar (items row))

abbrev pub Contains : List (List ℕ) → List ℕ → Type 0
Contains cs k = (before : List (List ℕ)) × (after : List (List ℕ)) × (cs ≡ before ++ (k ∷ after))

-- The columns of a stated key: none, one text, or the texts of a list.
abbrev pub KeyIs : Option Json → List (List ℕ) → Type 0
KeyIs none keys = keys ≡ []
KeyIs (some (string k)) keys = keys ≡ k ∷ []
KeyIs (some (array xs)) keys = items xs ≡ map string keys
KeyIs (some v) keys = ⊥

-- The columns are different plain names, each row has a scalar for each, and the key is among them.
pub record Lined (body : Members) : Type 0 where
  pub columns : List (List ℕ)
  pub keys : List (List ℕ)
  pub columns_read : elements_of (at_key body "columns") ≡ map string columns
  pub plain : All IsPlain columns
  pub once : Once columns
  pub rows_fit : All (Fits (length columns)) (elements_of (at_key body "values"))
  pub keys_stated : KeyIs (at_key body "key") keys
  pub keys_among : All (Contains columns) keys

each-All :
    (check : Json → Check) (vs : List Json)
    → each check vs ≡ ok tt
    → All (λ (v : Json). check v ≡ ok tt) vs
unfolding each
each-All check [] h = tt
each-All check (v ∷ vs) h = let (u, p, k) = >>=-eq-ok (check v) _ h in (p, each-All check vs k)

cell-Scalar : (n : ℕ) (v : Json) → require_scalar_cell n v ≡ ok tt → Scalar v
unfolding require_scalar_cell
cell-Scalar n v h =
    let e = refuse-false n (is_object v || is_array v) _ h in (ground arith, ground arith)

row-Fits : (n arity : ℕ) (v : Json) → row_cells n arity v ≡ ok tt → Fits arity v
unfolding row_cells
row-Fits n arity (array row) h =
    let (u, p, k) = >>=-eq-ok (refuse n (not (nat_eq (length (items row)) arity)) _) _ h in
    let e = refuse-false n (not (nat_eq (length (items row)) arity)) _ p in
    (
      row,
      refl,
      (
        nat_same (length (items row)) arity (ground arith),
        All_over (items row) (cell-Scalar n) (each-All (require_scalar_cell n) (items row) k),
      ),
    )
row-Fits n arity null h = absurd (cc)
row-Fits n arity float h = absurd (cc)
row-Fits n arity binary h = absurd (cc)
row-Fits n arity (boolean b) h = absurd (cc)
row-Fits n arity (integer z) h = absurd (cc)
row-Fits n arity (unsigned z) h = absurd (cc)
row-Fits n arity (string s) h = absurd (cc)
row-Fits n arity (object ms) h = absurd (cc)

among_columns-Contains :
    (cs : List (List ℕ)) (k : List ℕ) (b : Bool)
    → among_columns (map string cs) k ≡ ok b
    → b ≡ true
    → Contains cs k
unfolding among_columns
among_columns-Contains [] k b h t = absurd (cc)
among_columns-Contains (c ∷ cs) k b h t =
    let (found, p, e) = >>=-eq-ok (among_columns (map string cs) k) _ h in
    elim (Bool-cases (same c k)) [
      | inl here ↦ ([], cs, ap (λ x. x ∷ cs) (same_eq c k here))
      | inr away ↦
          let (before, after, q) =
            among_columns-Contains cs k found p (ok_inj (rw away at e) ∙ t) in
          (c ∷ before, after, ap (λ x. c ∷ x) q)
    ]

keys_carried-Contains :
    (n : ℕ) (cs ks : List (List ℕ))
    → keys_carried n (map string cs) ks ≡ ok tt
    → All (Contains cs) ks
unfolding keys_carried
keys_carried-Contains n cs [] h = tt
keys_carried-Contains n cs (k ∷ ks) h =
    let (found, p, r) = >>=-eq-ok (among_columns (map string cs) k) _ h in
    let (u, q, l) = >>=-eq-ok (refuse n (not found) _) _ r in
    let e = refuse-false n (not found) _ q in
    (among_columns-Contains cs k found p (ground arith), keys_carried-Contains n cs ks l)

length-strings : (cs : List (List ℕ)) → length (map string cs) ≡ length cs
length-strings [] = refl
length-strings (c ∷ cs) = ground (arith, length-strings cs)

key_texts-map :
    (n : ℕ) (vs : List Json) (keys : List (List ℕ))
    → key_texts n vs ≡ ok keys
    → vs ≡ map string keys
unfolding key_texts
key_texts-map n [] keys h = ap (map string) (ok_inj h)
key_texts-map n (string s ∷ vs) keys h =
    let (ks, p, k) = >>=-eq-ok (key_texts n vs) _ h in
    ap (λ t. string s ∷ t) (key_texts-map n vs ks p) ∙ ap (map string) (ok_inj k)
key_texts-map n (null ∷ vs) keys h = absurd (cc)
key_texts-map n (float ∷ vs) keys h = absurd (cc)
key_texts-map n (binary ∷ vs) keys h = absurd (cc)
key_texts-map n (boolean b ∷ vs) keys h = absurd (cc)
key_texts-map n (integer z ∷ vs) keys h = absurd (cc)
key_texts-map n (unsigned z ∷ vs) keys h = absurd (cc)
key_texts-map n (array xs ∷ vs) keys h = absurd (cc)
key_texts-map n (object ms ∷ vs) keys h = absurd (cc)

key_columns-KeyIs :
    (n : ℕ) (o : Option Json) (keys : List (List ℕ))
    → key_columns n o false ≡ ok keys
    → KeyIs o keys
unfolding key_columns
key_columns-KeyIs n none keys h = sym (ok_inj h)
key_columns-KeyIs n (some (string s)) keys h = sym (ok_inj h)
key_columns-KeyIs n (some (array (cons x xs))) keys h = key_texts-map n (x ∷ items xs) keys h
key_columns-KeyIs n (some (array nil)) keys h = absurd (cc)
key_columns-KeyIs n (some null) keys h = absurd (cc)
key_columns-KeyIs n (some float) keys h = absurd (cc)
key_columns-KeyIs n (some binary) keys h = absurd (cc)
key_columns-KeyIs n (some (boolean b)) keys h = absurd (cc)
key_columns-KeyIs n (some (integer z)) keys h = absurd (cc)
key_columns-KeyIs n (some (unsigned z)) keys h = absurd (cc)
key_columns-KeyIs n (some (object ms)) keys h = absurd (cc)

key_read :
    (n : ℕ) (body : Members) (keys : List (List ℕ))
    → row_key_columns n body false ≡ ok keys
    → KeyIs (at_key body "key") keys
unfolding row_key_columns
key_read n body keys h =
    let (ks, p, k) = >>=-eq-ok (key_columns n (at_key body "key") false) _ h in
    let (u, q, l) = >>=-eq-ok (keys_once n [] ks) _ k in
    key_columns-KeyIs n (at_key body "key") keys (p ∙ l)

values_source-Lined : (n : ℕ) (body : Members) → values_source n body ≡ ok tt → Lined body
unfolding values_source
values_source-Lined n body h =
    let all = all_of-All _ h in
    let (cs, e, (plain, (away, once))) = columns_once-Columned n [] _ all.1.0 in
    let rows =
      each-All (row_cells n (length (elements_of (at_key body "columns")))) _ all.1.1.1.0 in
    let (ks, p, k) = >>=-eq-ok (row_key_columns n body false) _ all.1.1.1.1.0 in
    record {
      columns = cs;
      keys = ks;
      columns_read = e;
      plain = plain;
      once = once;
      rows_fit = All_over _ (row-Fits n (length cs)) (
          subst
            (λ a. All (λ (v : Json). row_cells n a v ≡ ok tt) (elements_of (at_key body "values")))
            (ap length e ∙ length-strings cs) rows);
      keys_stated = key_read n body ks p;
      keys_among = keys_carried-Contains n cs ks (subst (λ t. keys_carried n t ks ≡ ok tt) e k);
    }

source-Lined :
    (n : ℕ) (body : Members) (allow_where : Bool)
    → contains_key body "values" ≡ true
    → parse_row_source n body allow_where ≡ ok tt
    → Lined body
unfolding parse_row_source
source-Lined n body allow_where c h =
    let all = all_of-All _ h in values_source-Lined n body (rw c at all.1.1.1.0)

-- The kinds that write rows.
pub data RowKind : Type 0 where
  deletes inserts updates merges copies : RowKind

abbrev pub intent_kind : RowKind → IntentKind
intent_kind deletes = IntentKind.delete_rows
intent_kind inserts = IntentKind.insert_rows
intent_kind updates = IntentKind.update_rows
intent_kind merges = IntentKind.merge_rows
intent_kind copies = IntentKind.copy_rows

-- Where a body that writes rows is accepted and lists them as "values": the columns are plain names,
-- none twice; each row is an array with as many values as there are columns, none of them an array or
-- an object; and the key, if it is stated, is one text or a list of texts, each of them one of the
-- columns.
pub accepted_rows-Lined :
    (pm : List ℕ → ℕ → Members → Check) (kind : RowKind) (n : ℕ) (body : Members)
    → contains_key body "values" ≡ true
    → parse_body pm (intent_kind kind) n body ≡ ok tt
    → Lined body
unfolding parse_body
accepted_rows-Lined pm deletes n body c h =
    let all = all_of-All _ h in source-Lined n body true c all.1.1.1.1.0
accepted_rows-Lined pm inserts n body c h =
    let all = all_of-All _ h in source-Lined n body false c all.1.1.1.0
accepted_rows-Lined pm updates n body c h =
    let all = all_of-All _ h in
    let (ks, p, k) = >>=-eq-ok (row_key_columns n body true) _ all.1.1.0 in
    source-Lined n body false c (all_of-All _ k).0
accepted_rows-Lined pm merges n body c h =
    let all = all_of-All _ h in
    let (ks, p, k) = >>=-eq-ok (row_key_columns n body true) _ all.1.1.0 in
    source-Lined n body false c (all_of-All _ k).0
accepted_rows-Lined pm copies n body c h =
    let all = all_of-All _ h in source-Lined n body false c all.1.1.1.1.0
