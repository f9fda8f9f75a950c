-- ===== src/Canonical/Numbers/Exact.antt =====
-- Proofs about cpp/src/canonical.h, the integers of `canonicalize_into`.
use pg_laswell.Base.{
  ℕ, zero, suc, ◌+◌, ◌-◌, ◌*◌, ◌/◌, ◌%◌, ◌^◌, ◌≤◌, ◌<◌, true, ◌≡◌, ◌⊎◌, inl, inr, ap, ◌∙◌, List, [],
  ◌∷◌, ltb, nat_eq, if◌then◌else◌, arith, Bool-cases,
}
use pg_laswell.Base.Int.{ℤ, pos, negsuc}
use pg_laswell.Canonical.Numbers.{decimal_from, decimal, to_string, is_safe, to_int64}

-- What a text of digits stands for.
abbrev pub value : ℕ → List ℕ → ℕ
value acc [] = acc
value acc (d ∷ ds) = value (acc * 10 + (d - 48)) ds

-- 10 to the number of digits.
abbrev pub bound : ℕ → ℕ
bound zero = 1
bound (suc f) = 10 * bound f

value-decimal_from :
    (f n : ℕ) (acc : List ℕ) → n < bound f → value 0 (decimal_from f n acc) ≡ value n acc
unfolding decimal_from
value-decimal_from zero n acc h = let e : 0 ≡ n = omega arith in ap (λ (k : ℕ). value k acc) e
value-decimal_from (suc f) n acc h = elim (Bool-cases (ltb n 10)) [
  | inl small ↦ rw small (ap (λ (k : ℕ). value k acc) (ground arith))
  | inr big ↦ rw big (
      value-decimal_from f (n / 10) ((48 + n % 10) ∷ acc) (omega arith)
      ∙ ap (λ (k : ℕ). value k acc) (omega arith))
]

value-decimal : (n : ℕ) → n < bound 20 → value 0 (decimal n) ≡ n
value-decimal n h = unfold decimal in value-decimal_from 20 n [] h

-- A text begins with a digit.
abbrev DigitFirst : List ℕ → Type 0
DigitFirst [] = ⊥
DigitFirst (d ∷ ds) = 48 ≤ d

decimal_from_digit : (f n d : ℕ) (acc : List ℕ) → 48 ≤ d → DigitFirst (decimal_from f n (d ∷ acc))
unfolding decimal_from
decimal_from_digit zero n d acc h = h
decimal_from_digit (suc f) n d acc h = elim (Bool-cases (ltb n 10)) [
  | inl small ↦ rw small (omega arith)
  | inr big ↦ rw big (decimal_from_digit f (n / 10) (48 + n % 10) (d ∷ acc) (omega arith))
]

decimal_from_first : (f n : ℕ) → DigitFirst (decimal_from (suc f) n [])
unfolding decimal_from
decimal_from_first f n = elim (Bool-cases (ltb n 10)) [
  | inl small ↦ rw small (omega arith)
  | inr big ↦ rw big (decimal_from_digit f (n / 10) (48 + n % 10) [] (omega arith))
]

decimal_digit : (n : ℕ) → DigitFirst (decimal n)
decimal_digit n = unfold decimal in decimal_from_first 19 n

-- Reading a text back: a minus sign, or digits.
abbrev pub read : List ℕ → ℤ
read [] = pos 0
read (c ∷ cs) = if nat_eq c b'-' then negsuc (value 0 cs - 1) else pos (value 0 (c ∷ cs))

read_digits : (s : List ℕ) → DigitFirst s → read s ≡ pos (value 0 s)
read_digits [] h = elim h [ ]
read_digits (c ∷ cs) h = ground arith

-- The text of every safe integer, read back, is the integer: no two of them share a text.
pub read-to_string : (n : ℤ) → is_safe n ≡ true → read (to_string n) ≡ n
unfolding is_safe to_string
read-to_string (pos n) h =
    read_digits (decimal n) (decimal_digit n) ∙ ap pos (value-decimal n (ground arith))
read-to_string (negsuc n) h =
    ap (λ (k : ℕ). negsuc (k - 1)) (value-decimal (suc n) (ground arith)) ∙ ap negsuc (omega arith)

-- The absolute value is below 2^53.
abbrev pub Below53 : ℤ → Type 0
Below53 (pos n) = n < 9007199254740992
Below53 (negsuc n) = suc n < 9007199254740992

pub is_safe-Below53 : (n : ℤ) → is_safe n ≡ true → Below53 n
unfolding is_safe
is_safe-Below53 (pos n) h = ground arith
is_safe-Below53 (negsuc n) h = ground arith

pub Below53-is_safe : (n : ℤ) → Below53 n → is_safe n ≡ true
unfolding is_safe
Below53-is_safe (pos n) h = ground arith
Below53-is_safe (negsuc n) h = ground arith

-- An unsigned value that is below 2^53, or less than 2^53 below 2^64.
abbrev pub CastBelow53 : ℕ → Type 0
CastBelow53 n = (n < 9007199254740992) ⊎ (18446744073709551616 < n + 9007199254740992)

pub is_safe-CastBelow53 : (n : ℕ) → is_safe (to_int64 n) ≡ true → CastBelow53 n
unfolding is_safe to_int64
is_safe-CastBelow53 n h = elim (Bool-cases (ltb n (2 ^ 63))) [
  | inl low ↦ inl (is_safe-Below53 (pos n) (unfold is_safe in rw low at h))
  | inr high ↦
      let b = is_safe-Below53 (negsuc (2 ^ 64 - n - 1)) (unfold is_safe in rw high at h) in
      inr (omega (arith, b))
]

pub to_int64_low : (u : ℕ) → u < 9223372036854775808 → to_int64 u ≡ pos u
unfolding to_int64
to_int64_low u h = ground arith

pub to_int64_high :
    (u : ℕ)
    → 9223372036854775808 ≤ u
    → u < 18446744073709551616
    → to_int64 u ≡ negsuc (18446744073709551615 - u)
unfolding to_int64
to_int64_high u h k = ground arith
