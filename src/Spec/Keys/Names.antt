-- ===== src/Spec/Keys/Names.antt =====
-- Proofs about cpp/src/spec.h: what the checks of an accepted body say of its members.
use pg_laswell.Base.{
  ℕ, true, false, ◌≡◌, inl, inr, refl, subst, ap, String, Option, none, some, List, [], ◌∷◌, nat_eq,
  All, arith, if◌then◌else◌, Bool-cases,
}
use Prim.Native.Char.{code}
use Prim.Native.String.{[] as done, ◌∷◌ as ◌then◌}
use pg_laswell.Base.Bytes.{is_text, one_of, text}
use pg_laswell.Base.Result.{ok, >>=-eq-ok, ok_inj}
use pg_laswell.Canonical.Document.{
  Json, null, float, binary, boolean, integer, unsigned, string, array, object, Members, end, field,
}
use pg_laswell.Spec.Checks.{
  Check, Place, intent, at_key, filled, or_missing, all_of, named, all_named, given, known,
  require_string, value_string,
}
use pg_laswell.Spec.Checks.Identifier.{IsPlain, require_identifier-IsPlain}
use pg_laswell.Spec.Document.Signed.{among}
use pg_laswell.Spec.Document.Formed.{KeysAmong, reject_unknown-KeysAmong}

-- The member is a text.
abbrev pub IsTextAt : Members → String → Type 0
IsTextAt body k = (s : List ℕ) × (at_key body k ≡ some (string s))

-- The member is a plain name.
abbrev pub Names : Members → String → List ℕ → Type 0
Names body k s = (at_key body k ≡ some (string s)) × IsPlain s

-- `value(key, "")` does not raise.
abbrev pub Reads : Members → String → Type 0
Reads body k = (s : List ℕ) × (value_string body k [] ≡ ok s)

pub all_of-All : (cs : List Check) → all_of cs ≡ ok tt → All (λ (c : Check). c ≡ ok tt) cs
unfolding all_of
all_of-All [] h = tt
all_of-All (c ∷ cs) h = let (u, p, k) = >>=-eq-ok c _ h in (p, all_of-All cs k)

filled_string :
    (o : Option Json) (at : Place) (k : String) (s : List ℕ)
    → or_missing (filled o) at k ≡ ok s
    → o ≡ some (string s)
filled_string none at k s h = absurd (cc)
filled_string (some (string (c ∷ cs))) at k s h = ap (λ t. some (string t)) (ok_inj h)
filled_string (some (string [])) at k s h = absurd (cc)
filled_string (some null) at k s h = absurd (cc)
filled_string (some float) at k s h = absurd (cc)
filled_string (some binary) at k s h = absurd (cc)
filled_string (some (boolean b)) at k s h = absurd (cc)
filled_string (some (integer z)) at k s h = absurd (cc)
filled_string (some (unsigned n)) at k s h = absurd (cc)
filled_string (some (array xs)) at k s h = absurd (cc)
filled_string (some (object ms)) at k s h = absurd (cc)

pub given-IsTextAt :
    (n : ℕ) (body : Members) (k : String) → given n body k ≡ ok tt → IsTextAt body k
unfolding require_string
given-IsTextAt n body k h =
    let (s, r, t) = >>=-eq-ok (require_string body k (intent n)) _ h in
    (s, filled_string (at_key body k) (intent n) k s r)

pub named-Names :
    (n : ℕ) (body : Members) (k : String) → named n body k ≡ ok tt → (s : List ℕ) × Names body k s
unfolding named require_string
named-Names n body k h =
    let (s, r, t) = >>=-eq-ok (require_string body k (intent n)) _ h in
    (s, (filled_string (at_key body k) (intent n) k s r, (require_identifier-IsPlain s k n).0 t))

pub all_named-Names :
    (n : ℕ) (body : Members) (ks : List String)
    → all_named n body ks ≡ ok tt
    → All (λ (k : String). (s : List ℕ) × Names body k s) ks
unfolding all_named
all_named-Names n body [] h = tt
all_named-Names n body (k ∷ ks) h =
    let (u, p, q) = >>=-eq-ok (named n body k) _ h in
    (named-Names n body k p, all_named-Names n body ks q)

pub Reads-text : (body : Members) (k : String) → IsTextAt body k → Reads body k
unfolding value_string
Reads-text body k (s, e) = (s, rw e refl)

pub Reads-named : (body : Members) (k : String) → (s : List ℕ) × Names body k s → Reads body k
Reads-named body k (s, (e, p)) = Reads-text body k (s, e)

pub nat_same : (a b : ℕ) → nat_eq a b ≡ true → a ≡ b
nat_same a b h = ground arith

is_text-text : (name : List ℕ) (a : String) → is_text name a ≡ true → name ≡ text a
unfolding is_text text
is_text-text [] done h = refl
is_text-text [] (c then a) h = absurd (ground arith)
is_text-text (b ∷ name) done h = absurd (ground arith)
is_text-text (b ∷ name) (c then a) h =
    ground (arith, nat_same b (code c), is_text-text name a (ground arith))

allowed-among :
    (name : List ℕ) (k : String) (allowed : List String)
    → one_of name allowed ≡ true
    → is_text name k ≡ true
    → among k allowed ≡ true
unfolding one_of among
allowed-among name k [] h m = absurd (ground arith)
allowed-among name k (a ∷ allowed) h m = elim (Bool-cases (is_text name a)) [
  | inl here ↦ ground (arith, subst (λ t. is_text t k ≡ true) (is_text-text name a here) m)
  | inr away ↦ ground (arith, allowed-among name k allowed (ground arith) m)
]

absent :
    (ms : Members) (allowed : List String) (k : String)
    → KeysAmong allowed ms
    → among k allowed ≡ false
    → at_key ms k ≡ none
unfolding at_key
absent end allowed k h m = refl
absent (field name v ms) allowed k h m = elim (Bool-cases (is_text name k)) [
  | inl here ↦ absurd (ground (arith, allowed-among name k allowed h.0 here))
  | inr away ↦ rw away (absent ms allowed k h.1 m)
]

-- A key that the parser does not allow is not there.
pub Reads-absent :
    (n : ℕ) (body : Members) (allowed : List String) (k : String)
    → known n body allowed ≡ ok tt
    → among k allowed ≡ false
    → Reads body k
unfolding value_string
Reads-absent n body allowed k h m =
    ([], rw (absent body allowed k (reject_unknown-KeysAmong body allowed (intent n) h) m) refl)
