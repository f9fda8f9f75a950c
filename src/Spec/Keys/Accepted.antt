-- ===== src/Spec/Keys/Accepted.antt =====
-- Proofs about cpp/src/spec.h: from an accepted body of a kind that names a table to its conflict keys.
use pg_laswell.Base.{
  ℕ, true, false, ◌≡◌, inl, inr, refl, ap, ◌∙◌, String, some, List, [], ◌∷◌, ◌++◌, nat_eq, is_nil,
  All, arith,
}
use pg_laswell.Base.Result.{ok}
use pg_laswell.Canonical.Document.{string, Members}
use pg_laswell.Spec.Checks.{Check, at_key, value_string}
use pg_laswell.Spec.Checks.Identifier.{IsPlain, PlainByte}
use pg_laswell.Spec.Kinds.{IntentKind}
use pg_laswell.Spec.Keys.{
  ModuleKeys, dotted, ends_in_dot, add, object_key_for, edges, table_key, conflict_keys,
}
use pg_laswell.Spec.Keys.Names.{Names}
use pg_laswell.Spec.Keys.Tables.{names_table}
use pg_laswell.Spec.Keys.Kinds.{accepted-Facts, no_object_key}
use pg_laswell.Spec.Document.Dispatch.{parse_body}

dot_free : (c : ℕ) → PlainByte c → nat_eq c b'.' ≡ false
dot_free c (inl (inl (a, z))) = ground arith
dot_free c (inl (inr e)) = ground arith
dot_free c (inr (a, z)) = ground arith

plain_end : (cs : List ℕ) → All PlainByte cs → ends_in_dot cs ≡ false
unfolding ends_in_dot
plain_end [] h = refl
plain_end (c ∷ []) h = dot_free c h.0
plain_end (c ∷ (d ∷ cs)) h = plain_end (d ∷ cs) h.1

dotted_end :
    (s : List ℕ) (c : ℕ) (cs : List ℕ)
    → All PlainByte (c ∷ cs)
    → ends_in_dot (dotted s (c ∷ cs)) ≡ false
unfolding ends_in_dot
dotted_end [] c cs h = plain_end (c ∷ cs) h
dotted_end (b ∷ []) c cs h = plain_end (c ∷ cs) h
dotted_end (b ∷ (d ∷ s)) c cs h = dotted_end (d ∷ s) c cs h

dotted_full : (s t : List ℕ) → is_nil (dotted s t) ≡ false
dotted_full [] t = refl
dotted_full (b ∷ s) t = refl

table_key-plain : (s t : List ℕ) → IsPlain t → table_key s t ≡ dotted s t ∷ []
unfolding table_key add
table_key-plain s [] h = absurd h
table_key-plain s (c ∷ cs) h = ground (arith, dotted_full s (c ∷ cs), dotted_end s c cs h.1.1)

value_of :
    (body : Members) (k : String) (s : List ℕ)
    → at_key body k ≡ some (string s)
    → value_string body k [] ≡ ok s
unfolding value_string
value_of body k s e = rw e refl

keys_pass :
    (m : ModuleKeys) (kind : IntentKind) (body : Members) (s t : List ℕ) (more : List (List ℕ))
    → value_string body "schema" [] ≡ ok s
    → object_key_for m kind body ≡ ok []
    → value_string body "table" [] ≡ ok t
    → edges m kind body s ≡ ok more
    → conflict_keys m kind body ≡ ok (add [] ++ (table_key s t ++ more))
unfolding conflict_keys add
keys_pass m kind body s t more hs ho ht he = rw (hs, ho, ht, he) refl

-- An intent of one of the 40 kinds of `names_table` that its parser has accepted names its schema and
-- its table by plain identifiers, taking its conflict keys does not raise, and the first of them is
-- the qualified table.
pub accepted_keyed :
    (pm : List ℕ → ℕ → Members → Check) (m : ModuleKeys) (kind : IntentKind) (n : ℕ)
    (body : Members)
    → names_table kind ≡ true
    → parse_body pm kind n body ≡ ok tt
    → (s : List ℕ) × (t : List ℕ) × (more : List (List ℕ)) × (Names body "schema" s
        × (Names body "table" t × (conflict_keys m kind body ≡ ok (dotted s t ∷ more))))
unfolding add
accepted_keyed pm m kind n body h p =
    let facts = accepted-Facts pm m kind n body h p in
    let (s, (es, ps)) = facts.schema in
    let (t, (et, pt)) = facts.table in
    let (nm, en) = facts.name in
    let (more, ee) = facts.edges_read s in
    (
      s,
      t,
      more,
      (
        (es, ps),
        (
          (et, pt),
          keys_pass m kind body s t more (value_of body "schema" s es)
                (no_object_key m kind body s nm h (value_of body "schema" s es) en)
                (value_of body "table" t et) ee
              ∙ ap (λ ks. ok (ks ++ more)) (table_key-plain s t pt),
        ),
      ),
    )
