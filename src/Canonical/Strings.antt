-- ===== src/Canonical/Strings.antt =====
-- cpp/src/canonical.h: `escape_into`.
pub mod Printable
pub mod Fuel
pub mod Shape
use pg_laswell.Base.{
  ℕ, zero, suc, ◌+◌, ◌-◌, ◌*◌, ◌/◌, ◌%◌, ◌≤◌, ◌<◌, Bool, true, false, ◌&&◌, ◌≡◌, ◌≢◌, refl, Option,
  none, some, List, [], ◌∷◌, ◌++◌, ltb, leb, nat_eq, length, if◌then◌else◌, arith, All, All-append,
}
use pg_laswell.Base.Result.{Result, ok, err, ◌>>=◌, >>=-eq-ok}
use pg_laswell.Canonical.Utf8.{
  Failure, out_of_fuel, Decoded, utf8_next, multi_byte, need, take_bytes, all_continuation,
  gather_bits,
}

-- `kHex[d]`
abbrev pub hex : ℕ → ℕ
hex d = if ltb d 10 then d + 48 else d + 87

-- What one code point becomes; `taken` are its own bytes.
unfoldable pub escape_point : ℕ → List ℕ → List ℕ
escape_point cp taken =
    if nat_eq cp b'"'
    then b'\\' ∷ b'"' ∷ []
    else if nat_eq cp b'\\'
    then b'\\' ∷ b'\\' ∷ []
    else if nat_eq cp 8
    then b'\\' ∷ b'b' ∷ []
    else if nat_eq cp 12
    then b'\\' ∷ b'f' ∷ []
    else if nat_eq cp 10
    then b'\\' ∷ b'n' ∷ []
    else if nat_eq cp 13
    then b'\\' ∷ b'r' ∷ []
    else if nat_eq cp 9
    then b'\\' ∷ b't' ∷ []
    else if ltb cp 32
    then b'\\' ∷ b'u' ∷ b'0' ∷ b'0' ∷ hex (cp / 16 % 16) ∷ hex (cp % 16) ∷ []
    else taken

-- The loop on fuel.
unfoldable pub escape_from : ℕ → List ℕ → Result Failure (List ℕ)
escape_from fuel [] = ok []
escape_from zero (b ∷ s) = err out_of_fuel
escape_from (suc fuel) (b ∷ s) = do
  d ← utf8_next b s
  more ← escape_from fuel d.rest
  ok (escape_point d.point d.taken ++ more)

unfoldable pub escape : List ℕ → Result Failure (List ℕ)
unfolding escape_from escape_point utf8_next multi_byte need take_bytes all_continuation gather_bits
escape s = do inner ← escape_from (length s) s; ok (b'"' ∷ (inner ++ b'"' ∷ []))
