-- ===== src/Canonical/Strings/Shape.antt =====
-- Proofs about cpp/src/canonical.h, `utf8_next`: the strings that it decodes.
use pg_laswell.Base.{
  ℕ, zero, suc, ◌%◌, ◌≤◌, ◌<◌, ◌&&◌, ◌≡◌, inl, inr, subst, sym, List, [], ◌∷◌, ltb, leb, length,
  arith, Bool-cases,
}
use pg_laswell.Base.Result.{ok, >>=-eq-ok, ok_inj}
use pg_laswell.Canonical.Utf8.{Decoded, utf8_next, multi_byte, need, take_bytes, all_continuation}
use pg_laswell.Canonical.Strings.{escape_from, escape}

abbrev pub Continues : ℕ → Type 0
Continues c = (128 ≤ c) × (c < 192)

-- Each lead byte is followed by as many continuation bytes as it says. Overlong forms and surrogates
-- are of this shape.
pub data Shaped : List ℕ → Type 0 where
  nothing : Shaped []
  one : (b : ℕ) (s : List ℕ) → b < 128 → Shaped s → Shaped (b ∷ s)
  two : (b c : ℕ) (s : List ℕ) → 192 ≤ b → b < 224 → Continues c → Shaped s → Shaped (b ∷ (c ∷ s))
  three :
      (b c d : ℕ) (s : List ℕ)
      → 224 ≤ b
      → b < 240
      → Continues c
      → Continues d
      → Shaped s
      → Shaped (b ∷ (c ∷ (d ∷ s)))
  four :
      (b c d e : ℕ) (s : List ℕ)
      → 240 ≤ b
      → b < 248
      → Continues c
      → Continues d
      → Continues e
      → Shaped s
      → Shaped (b ∷ (c ∷ (d ∷ (e ∷ s))))

two_shaped :
    (b lead : ℕ) (s : List ℕ) (d : Decoded)
    → 192 ≤ b
    → b < 224
    → multi_byte 1 b lead s ≡ ok d
    → Shaped d.rest
    → Shaped (b ∷ s)
unfolding multi_byte need take_bytes all_continuation
two_shaped b lead [] d l u h k = absurd (cc)
two_shaped b lead (c ∷ s) d l u h k = elim (Bool-cases (all_continuation (c ∷ []))) [
  | inr bad ↦ absurd (ground arith)
  | inl good ↦
      let e = ok_inj (rw good at h) in
      two b c s l u (ground arith, ground arith) (subst (λ (y : Decoded). Shaped y.rest) (sym e) k)
]

three_shaped :
    (b lead : ℕ) (s : List ℕ) (d : Decoded)
    → 224 ≤ b
    → b < 240
    → multi_byte 2 b lead s ≡ ok d
    → Shaped d.rest
    → Shaped (b ∷ s)
unfolding multi_byte need take_bytes all_continuation
three_shaped b lead [] d l u h k = absurd (cc)
three_shaped b lead (c ∷ []) d l u h k = absurd (cc)
three_shaped b lead (c ∷ (c2 ∷ s)) d l u h k =
    elim (Bool-cases (all_continuation (c ∷ (c2 ∷ [])))) [
      | inr bad ↦ absurd (ground arith)
      | inl good ↦
          let e = ok_inj (rw good at h) in
          three b c c2 s l u (ground arith, ground arith) (ground arith, ground arith)
            (subst (λ (y : Decoded). Shaped y.rest) (sym e) k)
    ]

four_shaped :
    (b lead : ℕ) (s : List ℕ) (d : Decoded)
    → 240 ≤ b
    → b < 248
    → multi_byte 3 b lead s ≡ ok d
    → Shaped d.rest
    → Shaped (b ∷ s)
unfolding multi_byte need take_bytes all_continuation
four_shaped b lead [] d l u h k = absurd (cc)
four_shaped b lead (c ∷ []) d l u h k = absurd (cc)
four_shaped b lead (c ∷ (c2 ∷ [])) d l u h k = absurd (cc)
four_shaped b lead (c ∷ (c2 ∷ (c3 ∷ s))) d l u h k =
    elim (Bool-cases (all_continuation (c ∷ (c2 ∷ (c3 ∷ []))))) [
      | inr bad ↦ absurd (ground arith)
      | inl good ↦
          let e = ok_inj (rw good at h) in
          four b c c2 c3 s l u (ground arith, ground arith) (ground arith, ground arith)
            (ground arith, ground arith) (subst (λ (y : Decoded). Shaped y.rest) (sym e) k)
    ]

next_shaped :
    (b : ℕ) (s : List ℕ) (d : Decoded) → utf8_next b s ≡ ok d → Shaped d.rest → Shaped (b ∷ s)
unfolding utf8_next
next_shaped b s d h k = elim (Bool-cases (ltb b 128)) [
  | inl a ↦
      let e = ok_inj (rw a at h) in
      one b s (ground arith) (subst (λ (y : Decoded). Shaped y.rest) (sym e) k)
  | inr a ↦ elim (Bool-cases (leb 192 b && ltb b 224)) [
    | inl x ↦ two_shaped b (b % 32) s d (ground arith) (ground arith) (rw (a, x) at h) k
    | inr x ↦ elim (Bool-cases (leb 224 b && ltb b 240)) [
      | inl y ↦ three_shaped b (b % 16) s d (ground arith) (ground arith) (rw (a, x, y) at h) k
      | inr y ↦ elim (Bool-cases (leb 240 b && ltb b 248)) [
        | inl z ↦ four_shaped b (b % 8) s d (ground arith) (ground arith) (rw (a, x, y, z) at h) k
        | inr z ↦ absurd (ground arith)
      ]
    ]
  ]
]

from_shaped : (fuel : ℕ) (s out : List ℕ) → escape_from fuel s ≡ ok out → Shaped s
unfolding escape_from
from_shaped fuel [] out h = nothing
from_shaped zero (b ∷ s) out h = absurd (cc)
from_shaped (suc fuel) (b ∷ s) out h =
    let (d, n, h') = >>=-eq-ok (utf8_next b s) _ h in
    let (more, q, _) = >>=-eq-ok (escape_from fuel d.rest) _ h' in
    next_shaped b s d n (from_shaped fuel d.rest more q)

-- A string that is escaped is of the shape of UTF-8.
pub escape-Shaped : (s out : List ℕ) → escape s ≡ ok out → Shaped s
unfolding escape
escape-Shaped s out h =
    let (inner, q, _) = >>=-eq-ok (escape_from (length s) s) _ h in from_shaped (length s) s inner q
