-- ===== src/Spec/Document/Columned.antt =====
-- Proofs about cpp/src/spec.h, `parse_row_source`: the columns of an accepted body, none of them twice.
use pg_laswell.Base.{
  ℕ, Bool, true, false, ◌≡◌, ◌≢◌, refl, sym, subst, ap, List, [], ◌∷◌, map, String, arith, All,
  All_over,
}
use pg_laswell.Base.Result.{ok, >>=-eq-ok}
use pg_laswell.Canonical.Document.{
  Json, null, float, binary, boolean, integer, unsigned, string, array, object,
}
use pg_laswell.Trust.Entries.{same}
use pg_laswell.Spec.Checks.{require_identifier, refuse}
use pg_laswell.Spec.Checks.Identifier.{IsPlain, require_identifier-IsPlain}
use pg_laswell.Spec.Keys.Names.{nat_same}
use pg_laswell.Spec.Parse.Constraints.{seen_before}
use pg_laswell.Spec.Parse.Source.{columns_once}

-- No name stands twice in the list.
abbrev pub Once : List (List ℕ) → Type 0
Once [] = Unit
Once (c ∷ cs) = All (λ (d : List ℕ). c ≢ d) cs × Once cs

pub refuse-false : (n : ℕ) (b : Bool) (what : String) → refuse n b what ≡ ok tt → b ≡ false
refuse-false n true what h = absurd (cc)
refuse-false n false what h = refl

same_refl : (s : List ℕ) → same s s ≡ true
unfolding same
same_refl [] = refl
same_refl (c ∷ cs) = ground (arith, same_refl cs)

pub same_eq : (s t : List ℕ) → same s t ≡ true → s ≡ t
unfolding same
same_eq [] [] h = refl
same_eq [] (c ∷ t) h = absurd (cc)
same_eq (c ∷ s) [] h = absurd (cc)
same_eq (c ∷ s) (d ∷ t) h = ground (arith, nat_same c d, same_eq s t)

not_seen :
    (seen : List (List ℕ)) (t : List ℕ)
    → seen_before seen t ≡ false
    → All (λ (s : List ℕ). s ≢ t) seen
unfolding seen_before
not_seen [] t h = tt
not_seen (s ∷ seen) t h = (apart, not_seen seen t (ground arith))
  where
    apart : s ≢ t
    apart e = ground (arith, subst (λ u. same u t ≡ true) (sym e) (same_refl t))

-- What the loop over the columns has seen to.
abbrev pub Columned : List (List ℕ) → List Json → Type 0
Columned seen vs =
    (cs : List (List ℕ)) × (vs ≡ map string cs)
    × (All IsPlain cs × (All (λ (c : List ℕ). All (λ (s : List ℕ). s ≢ c) seen) cs × Once cs))

pub columns_once-Columned :
    (n : ℕ) (seen : List (List ℕ)) (vs : List Json)
    → columns_once n seen vs ≡ ok tt
    → Columned seen vs
unfolding columns_once
columns_once-Columned n seen [] h = ([], refl, (tt, (tt, tt)))
columns_once-Columned n seen (string s ∷ vs) h =
    let (u, p, k) = >>=-eq-ok (require_identifier s "columns" n) _ h in
    let (w, q, l) = >>=-eq-ok (refuse n (seen_before seen s) _) _ k in
    let (cs, e, (plain, (away, once))) = columns_once-Columned n (s ∷ seen) vs l in
    (
      s ∷ cs,
      ap (λ t. string s ∷ t) e,
      (
        ((require_identifier-IsPlain s "columns" n).0 p, plain),
        (
          (
            not_seen seen s (refuse-false n (seen_before seen s) _ q),
            All_over cs (λ c a. a.1) away,
          ),
          (All_over cs (λ c a. a.0) away, once),
        ),
      ),
    )
columns_once-Columned n seen (null ∷ vs) h = absurd (cc)
columns_once-Columned n seen (float ∷ vs) h = absurd (cc)
columns_once-Columned n seen (binary ∷ vs) h = absurd (cc)
columns_once-Columned n seen (boolean b ∷ vs) h = absurd (cc)
columns_once-Columned n seen (integer z ∷ vs) h = absurd (cc)
columns_once-Columned n seen (unsigned z ∷ vs) h = absurd (cc)
columns_once-Columned n seen (array xs ∷ vs) h = absurd (cc)
columns_once-Columned n seen (object ms ∷ vs) h = absurd (cc)
