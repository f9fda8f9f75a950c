-- ===== src/Canonical/Strings/Fuel.antt =====
-- Proofs about cpp/src/canonical.h, the loops over a string.
use pg_laswell.Base.{
  ℕ, zero, suc, ◌+◌, ◌%◌, ◌≤◌, ◌<◌, ◌≡◌, ◌≢◌, ◌⊎◌, inl, inr, refl, ◌∙◌, ◌++◌, some, List, [], ◌∷◌,
  length, arith, Option-cases,
}
use pg_laswell.Base.Result.{Result, ok, err}
use pg_laswell.Canonical.Utf8.{
  out_of_fuel, Decoded, utf8_next, multi_byte, need, take_bytes, all_continuation, gather_bits,
  units_from, utf16_units,
}
use pg_laswell.Canonical.Strings.{escape_from, escape, escape_point}

pub Result-cases :
    {E : Type 0} {A : Type 0} (r : Result E A) → ((a : A) × (r ≡ ok a)) ⊎ ((e : E) × (r ≡ err e))
Result-cases (ok a) = inl (a, refl)
Result-cases (err e) = inr (e, refl)

take_bytes_rest :
    (n : ℕ) (s : List ℕ) (c rest : List ℕ)
    → take_bytes n s ≡ some (c, rest)
    → length rest ≤ length s
unfolding take_bytes
take_bytes_rest zero s c rest h = ground arith
take_bytes_rest (suc n) [] c rest h = absurd (ground arith)
take_bytes_rest (suc n) (b ∷ s) c rest h = elim (Option-cases (take_bytes n s)) [
  | inl e ↦ absurd (ground arith)
  | inr ((c', r'), e) ↦ ground (arith, take_bytes_rest n s c' r' e)
]

multi_byte_rest :
    (n c0 lead : ℕ) (s : List ℕ) (d : Decoded)
    → multi_byte n c0 lead s ≡ ok d
    → length d.rest ≤ length s
multi_byte_rest n c0 lead s d h = elim (Option-cases (take_bytes n s)) [
  | inl e ↦ absurd (unfold multi_byte need in ground arith)
  | inr ((c', r'), e) ↦ unfold multi_byte need in ground (arith, take_bytes_rest n s c' r' e)
]

-- Decoding always moves on.
pub utf8_next_rest :
    (b : ℕ) (s : List ℕ) (d : Decoded) → utf8_next b s ≡ ok d → length d.rest ≤ length s
utf8_next_rest b s d h =
    unfold utf8_next in
    ground (
      arith,
      multi_byte_rest 1 b (b % 32) s d,
      multi_byte_rest 2 b (b % 16) s d,
      multi_byte_rest 3 b (b % 8) s d,
    )

multi_byte_fuel : (n c0 lead : ℕ) (s : List ℕ) → multi_byte n c0 lead s ≢ err out_of_fuel
multi_byte_fuel n c0 lead s h = elim (Option-cases (take_bytes n s)) [
  | inl e ↦ unfold multi_byte need in ground arith
  | inr ((c', r'), e) ↦ unfold multi_byte need in ground arith
]

utf8_next_fuel : (b : ℕ) (s : List ℕ) → utf8_next b s ≢ err out_of_fuel
utf8_next_fuel b s h =
    unfold utf8_next in
    ground (
      arith,
      multi_byte_fuel 1 b (b % 32) s,
      multi_byte_fuel 2 b (b % 16) s,
      multi_byte_fuel 3 b (b % 8) s,
    )

escape_from_fuel : (fuel : ℕ) (s : List ℕ) → length s ≤ fuel → escape_from fuel s ≢ err out_of_fuel
unfolding escape_from
escape_from_fuel zero [] h e = cc
escape_from_fuel zero (b ∷ s) h e = absurd (omega arith)
escape_from_fuel (suc fuel) [] h e = cc
escape_from_fuel (suc fuel) (b ∷ s) h e = elim (Result-cases (utf8_next b s)) [
  | inr (f, k) ↦ ground (arith, utf8_next_fuel b s)
  | inl (d, k) ↦ elim (Result-cases (escape_from fuel d.rest)) [
    | inl (m, q) ↦ ground arith
    | inr (f, q) ↦ ground (arith, escape_from_fuel fuel d.rest, utf8_next_rest b s d k)
  ]
]

units_from_fuel : (fuel : ℕ) (s : List ℕ) → length s ≤ fuel → units_from fuel s ≢ err out_of_fuel
unfolding units_from
units_from_fuel zero [] h e = cc
units_from_fuel zero (b ∷ s) h e = absurd (omega arith)
units_from_fuel (suc fuel) [] h e = cc
units_from_fuel (suc fuel) (b ∷ s) h e = elim (Result-cases (utf8_next b s)) [
  | inr (f, k) ↦ ground (arith, utf8_next_fuel b s)
  | inl (d, k) ↦ elim (Result-cases (units_from fuel d.rest)) [
    | inl (m, q) ↦ ground arith
    | inr (f, q) ↦ ground (arith, units_from_fuel fuel d.rest, utf8_next_rest b s d k)
  ]
]

-- The two loops over a string end: they decode it whole, or raise one of the three faults of
-- malformed UTF-8.
pub strings_total : (s : List ℕ) → (escape s ≢ err out_of_fuel) × (utf16_units s ≢ err out_of_fuel)
strings_total s = (
  λ h. elim (Result-cases (escape_from (length s) s)) [
    | inl (m, q) ↦ unfold escape in ground arith
    | inr (f, q) ↦ unfold escape in ground (arith, escape_from_fuel (length s) s)
  ],
  λ h. unfold utf16_units in units_from_fuel (length s) s (omega arith) h,
)

overlong_next :
    (c : ℕ)
    → c < 32
    → utf8_next 192 ((128 + c) ∷ [])
      ≡ ok (record { point = c; taken = 192 ∷ (128 + c) ∷ []; rest = [] })
unfolding utf8_next multi_byte need take_bytes all_continuation gather_bits
overlong_next c h = ground arith

plain_next :
    (c : ℕ) → c < 32 → utf8_next c [] ≡ ok (record { point = c; taken = c ∷ []; rest = [] })
unfolding utf8_next
plain_next c h = ground arith

control_escaped :
    (c : ℕ) → c < 32 → escape (c ∷ []) ≡ ok (b'"' ∷ ((escape_point c (c ∷ []) ++ []) ++ b'"' ∷ []))
unfolding escape
control_escaped c h = rw (plain_next c h) refl

overlong_equal : (c : ℕ) → c < 32 → escape (192 ∷ (128 + c) ∷ []) ≡ escape (c ∷ [])
unfolding escape
overlong_equal c h =
    let small : (128 + c) % 64 ≡ c = omega arith in
    ground (arith, overlong_next c h, plain_next c h)

-- A control character that is encoded in two bytes, which UTF-8 forbids, is not refused: the string
-- has canonical bytes, and they are those of the character itself.
pub overlong_same :
    (c : ℕ)
    → c < 32
    → (out : List ℕ) × (escape (192 ∷ (128 + c) ∷ []) ≡ ok out) × (escape (c ∷ []) ≡ ok out)
overlong_same c h = (_, overlong_equal c h ∙ control_escaped c h, control_escaped c h)
