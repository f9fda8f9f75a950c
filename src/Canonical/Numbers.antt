-- ===== src/Canonical/Numbers.antt =====
-- cpp/src/canonical.h: the integers of `canonicalize_into`. `std::to_string` is the decimal text;
-- twenty digits hold every 64-bit value.
pub mod Exact
use pg_laswell.Base.{
  ℕ, zero, suc, ◌+◌, ◌-◌, ◌*◌, ◌/◌, ◌%◌, ◌^◌, Bool, true, false, ◌&&◌, List, [], ◌∷◌, ltb, leb,
  if◌then◌else◌,
}
use pg_laswell.Base.Int.{ℤ, pos, negsuc}
use pg_laswell.Base.Result.{Result, ok, err}
use pg_laswell.Canonical.Utf8.{Failure, Segment, integer_out_of_range}

-- `std::to_string` of a number without sign, on fuel for its digits.
unfoldable pub decimal_from : ℕ → ℕ → List ℕ → List ℕ
decimal_from zero n acc = acc
decimal_from (suc fuel) n acc =
    let digit = 48 + n % 10 in
    let more = decimal_from fuel (n / 10) (digit ∷ acc) in if ltb n 10 then digit ∷ acc else more

unfoldable pub decimal : ℕ → List ℕ
unfolding decimal_from
decimal n = decimal_from 20 n []

unfoldable pub to_string : ℤ → List ℕ
unfolding decimal
to_string (pos n) = decimal n
to_string (negsuc n) = b'-' ∷ decimal (suc n)

-- 2^53 - 1
abbrev pub max_safe : ℕ
max_safe = 9007199254740991

unfoldable pub is_safe : ℤ → Bool
is_safe (pos n) = leb n max_safe
is_safe (negsuc n) = leb (suc n) max_safe

-- `static_cast<std::int64_t>` of a `std::uint64_t`.
unfoldable pub to_int64 : ℕ → ℤ
to_int64 n = if ltb n (2 ^ 63) then pos n else negsuc (2 ^ 64 - n - 1)

unfoldable pub integer_text : ℤ → List Segment → Result Failure (List ℕ)
unfolding is_safe to_string
integer_text n pointer = if is_safe n then ok (to_string n) else err (integer_out_of_range pointer)
