-- ===== src/Canonical/Document/Integers.antt =====
-- Proofs about cpp/src/canonical.h, the integers of a document.
use pg_laswell.Base.{
  ◌+◌, ◌≤◌, ltb, ℕ, suc, ◌-◌, ◌<◌, ◌≡◌, ◌⊎◌, inl, inr, refl, List, arith, Bool-cases,
}
use pg_laswell.Base.Int.{ℤ, pos, negsuc}
use pg_laswell.Base.Result.{ok, err}
use pg_laswell.Canonical.Utf8.{Segment, integer_out_of_range}
use pg_laswell.Canonical.Numbers.{to_string, is_safe, integer_text}
use pg_laswell.Canonical.Numbers.Exact.{
  read, read-to_string, Below53, is_safe-Below53, Below53-is_safe, to_int64_low, to_int64_high,
}
use pg_laswell.Canonical.Document.{integer, unsigned, canonicalize_into}

-- The absolute value is not below 2^53.
abbrev Above53 : ℤ → Type 0
Above53 (pos n) = 9007199254740992 ≤ n
Above53 (negsuc n) = 9007199254740992 ≤ suc n

not_small : (n : ℤ) → (Below53 n → ⊥) → Above53 n
not_small (pos n) h = elim (Bool-cases (ltb n 9007199254740992)) [
  | inl small ↦ absurd (h (ground arith))
  | inr big ↦ ground arith
]
not_small (negsuc n) h = elim (Bool-cases (ltb (suc n) 9007199254740992)) [
  | inl small ↦ absurd (h (ground arith))
  | inr big ↦ ground arith
]

-- A signed integer of a document has canonical bytes exactly when its absolute value is below 2^53,
-- and these read back as the integer; any other is refused with its place.
pub integer_exact :
    (n : ℤ) (pointer : List Segment)
    → ((out : List ℕ) × (canonicalize_into (integer n) pointer ≡ ok out)
        × (read out ≡ n)
        × Below53 n)
      ⊎ ((canonicalize_into (integer n) pointer ≡ err (integer_out_of_range pointer))
          × (Below53 n → ⊥))
unfolding canonicalize_into integer_text
integer_exact n pointer = elim (Bool-cases (is_safe n)) [
  | inl safe ↦ inl (to_string n, rw safe refl, read-to_string n safe, is_safe-Below53 n safe)
  | inr big ↦ inr (rw big refl, λ b. ground (arith, Below53-is_safe n b))
]

-- Of a 64-bit unsigned integer of a document: one below 2^53 has canonical bytes that read back as
-- itself; one less than 2^53 below 2^64 has those of the small negative integer that it is cast to;
-- and every other is refused with its place.
pub unsigned_wraps :
    (u : ℕ) (pointer : List Segment)
    → u < 18446744073709551616
    → ((out : List ℕ) × (canonicalize_into (unsigned u) pointer ≡ ok out)
        × (((u < 9007199254740992) × (read out ≡ pos u))
            ⊎ ((18446744073709551616 < u + 9007199254740992)
                × (read out ≡ negsuc (18446744073709551615 - u)))))
      ⊎ ((canonicalize_into (unsigned u) pointer ≡ err (integer_out_of_range pointer))
          × ((9007199254740992 ≤ u) × (u + 9007199254740992 ≤ 18446744073709551616)))
unfolding canonicalize_into
unsigned_wraps u pointer h = elim (Bool-cases (ltb u 9223372036854775808)) [
  | inl low ↦ rw (to_int64_low u (ground arith)) (elim (integer_exact (pos u) pointer) [
    | inl (out, e, r, b) ↦ inl (out, e, inl (b, r))
    | inr (e, n) ↦ inr (e, (not_small (pos u) n, ground arith))
  ])
  | inr high ↦
      rw (to_int64_high u (ground arith) h)
        (elim (integer_exact (negsuc (18446744073709551615 - u)) pointer) [
          | inl (out, e, r, b) ↦ inl (out, e, inr (omega (arith, b, h), r))
          | inr (e, n) ↦
              inr (
                e,
                (ground arith, omega (arith, h, not_small (negsuc (18446744073709551615 - u)) n)),
              )
        ])
]
