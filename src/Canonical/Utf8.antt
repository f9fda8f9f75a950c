-- ===== src/Canonical/Utf8.antt =====
-- cpp/src/canonical.h: `utf8_next` and `utf16_units`. `b & 0x3F` is `b % 64`, a shift by 6 is a
-- product by 64, and `|` of disjoint bits is a sum. A string is the list of its bytes.
use pg_laswell.Base.{
  ℕ, zero, suc, ◌+◌, ◌-◌, ◌*◌, ◌/◌, ◌%◌, Bool, true, false, ◌&&◌, Option, none, some, List, [], ◌∷◌,
  ◌++◌, ltb, leb, length, if◌then◌else◌,
}
use pg_laswell.Base.Result.{Result, ok, err, ◌>>=◌}

-- A step of a JSON pointer.
pub data Segment : Type 0 where
  index : ℕ → Segment
  member : List ℕ → Segment

-- The exceptions of this file. `out_of_fuel` is no exception of the code.
pub data Failure : Type 0 where
  truncated_utf8 malformed_continuation invalid_lead_byte out_of_fuel : Failure
  float_not_allowed integer_out_of_range unrepresentable : List Segment → Failure

-- One code point, the bytes that it took, and the bytes behind it.
pub record Decoded : Type 0 where
  pub point : ℕ
  pub taken : List ℕ
  pub rest : List ℕ

unfoldable pub take_bytes : ℕ → List ℕ → Option (List ℕ × List ℕ)
take_bytes zero s = some ([], s)
take_bytes (suc n) [] = none
take_bytes (suc n) (b ∷ s) = elim (take_bytes n s) [
  | none ↦ none
  | some (c, rest) ↦ some (b ∷ c, rest)
]

-- `(b & 0xC0) == 0x80`
abbrev pub is_continuation : ℕ → Bool
is_continuation b = leb 128 b && ltb b 192

unfoldable pub all_continuation : List ℕ → Bool
all_continuation [] = true
all_continuation (b ∷ s) = is_continuation b && all_continuation s

-- `need(n)`, and the bytes that it looked at.
unfoldable pub need : ℕ → List ℕ → Result Failure (List ℕ × List ℕ)
need n s = elim (take_bytes n s) [
  | none ↦ err truncated_utf8
  | some (c, rest) ↦ if all_continuation c then ok (c, rest) else err malformed_continuation
]

-- The bits of the lead byte, then six of each continuation byte.
unfoldable pub gather_bits : ℕ → List ℕ → ℕ
gather_bits acc [] = acc
gather_bits acc (b ∷ s) = gather_bits (acc * 64 + b % 64) s

unfoldable pub multi_byte : ℕ → ℕ → ℕ → List ℕ → Result Failure Decoded
multi_byte n c0 lead s = do
  (c, rest) ← need n s
  ok (record { point = gather_bits lead c; taken = c0 ∷ c; rest = rest })

unfoldable pub utf8_next : ℕ → List ℕ → Result Failure Decoded
utf8_next c0 s =
    if ltb c0 128
    then ok (record { point = c0; taken = c0 ∷ []; rest = s })
    else if leb 192 c0 && ltb c0 224
    then multi_byte 1 c0 (c0 % 32) s
    else if leb 224 c0 && ltb c0 240
    then multi_byte 2 c0 (c0 % 16) s
    else if leb 240 c0 && ltb c0 248
    then multi_byte 3 c0 (c0 % 8) s
    else err invalid_lead_byte

-- The UTF-16 code units of one code point.
unfoldable pub units_of_point : ℕ → List ℕ
units_of_point cp =
    if leb cp 0xFFFF
    then cp ∷ []
    else (let v = cp - 0x10000 in (0xD800 + v / 1024) ∷ (0xDC00 + v % 1024) ∷ [])

-- The loop of `utf16_units` on fuel.
unfoldable pub units_from : ℕ → List ℕ → Result Failure (List ℕ)
units_from fuel [] = ok []
units_from zero (b ∷ s) = err out_of_fuel
units_from (suc fuel) (b ∷ s) = do
  d ← utf8_next b s
  more ← units_from fuel d.rest
  ok (units_of_point d.point ++ more)

unfoldable pub utf16_units : List ℕ → Result Failure (List ℕ)
unfolding units_from utf8_next units_of_point multi_byte need take_bytes all_continuation
    gather_bits
utf16_units s = units_from (length s) s

-- `<` of two vectors.
unfoldable pub lex_less : List ℕ → List ℕ → Bool
lex_less [] [] = false
lex_less [] (b ∷ bs) = true
lex_less (a ∷ as') [] = false
lex_less (a ∷ as') (b ∷ bs) =
    let rest = lex_less as' bs in if ltb a b then true else if ltb b a then false else rest
