-- ===== src/Canonical/Tests.antt =====
-- Canonical bytes of small documents, and each theorem at one of them.
use pg_laswell.Base.{ℕ, ◌+◌, ◌≤◌, ◌<◌, ◌≡◌, ◌⊎◌, refl, List, [], ◌∷◌, arith, All, true}
use pg_laswell.Base.Int.{pos, negsuc}
use pg_laswell.Base.Result.{ok, err}
use pg_laswell.Canonical.Utf8.{
  index, integer_out_of_range, float_not_allowed, utf16_units, lex_less,
}
use pg_laswell.Canonical.Strings.{escape}
use pg_laswell.Canonical.Strings.Printable
use pg_laswell.Canonical.Strings.Printable.{IsPrintable}
use pg_laswell.Canonical.Numbers.{integer_text, to_int64}
use pg_laswell.Canonical.Numbers.Exact.{read, Below53}
use pg_laswell.Canonical.Document.Integers
use pg_laswell.Canonical.Document.{
  Json, boolean, integer, unsigned, float, array, object, nil, cons, end, field, canonicalize,
  canonicalize_into, sort, insert, join,
}
use pg_laswell.Canonical.Document.Reorder
use pg_laswell.Canonical.Document.Reorder.{Reordered, in_object, swapped}
use pg_laswell.Canonical.Document.Refusals
use pg_laswell.Canonical.Document.Refusals.{Storable}

-- {"b":true,"a":-7} and its members the other way round.
abbrev b_first : Json
b_first = object (field (b'b' ∷ []) (boolean true) (field (b'a' ∷ []) (integer (negsuc 6)) end))

abbrev a_first : Json
a_first = object (field (b'a' ∷ []) (integer (negsuc 6)) (field (b'b' ∷ []) (boolean true) end))

abbrev a_first_bytes : List ℕ
a_first_bytes =
    b'{' ∷ b'"' ∷ b'a' ∷ b'"' ∷ b':' ∷ b'-' ∷ b'7' ∷ b',' ∷ b'"' ∷ b'b' ∷ b'"' ∷ b':' ∷ b't' ∷ b'r'
    ∷ b'u' ∷ b'e' ∷ b'}' ∷ []

canonicalize-b_first : canonicalize b_first ≡ ok a_first_bytes
unfolding canonicalize canonicalize_into sort insert join escape utf16_units lex_less integer_text
canonicalize-b_first = refl

float_is_refused :
    canonicalize (array (cons (boolean true) (cons float nil)))
    ≡ err (float_not_allowed (index 1 ∷ []))
unfolding canonicalize canonicalize_into
float_is_refused = refl

-- 2^64 - 1 is written as -1.
largest_unsigned : canonicalize (unsigned 18446744073709551615) ≡ ok (b'-' ∷ b'1' ∷ [])
unfolding canonicalize canonicalize_into integer_text to_int64
largest_unsigned = refl

Reordered-canonical_example : canonicalize b_first ≡ canonicalize a_first
unfolding utf16_units
Reordered-canonical_example = Reorder.Reordered-canonical b_first a_first (
    in_object (
      swapped (b'b' ∷ []) (b'a' ∷ []) (b'b' ∷ []) (b'a' ∷ []) (boolean true) (integer (negsuc 6))
        end refl refl (λ e. ground arith)))

canonical-Storable_example : Storable b_first
canonical-Storable_example = Refusals.canonical-Storable b_first a_first_bytes canonicalize-b_first

escape-newline : escape (10 ∷ []) ≡ ok (b'"' ∷ b'\\' ∷ b'n' ∷ b'"' ∷ [])
unfolding escape
escape-newline = refl

escape-IsPrintable_example : All IsPrintable (b'"' ∷ b'\\' ∷ b'n' ∷ b'"' ∷ [])
escape-IsPrintable_example =
    Printable.escape-IsPrintable (10 ∷ []) (b'"' ∷ b'\\' ∷ b'n' ∷ b'"' ∷ []) escape-newline

integer_exact_example :
    ((out : List ℕ) × (canonicalize_into (integer (negsuc 6)) [] ≡ ok out)
      × (read out ≡ negsuc 6)
      × Below53 (negsuc 6))
    ⊎ ((canonicalize_into (integer (negsuc 6)) [] ≡ err (integer_out_of_range []))
        × (Below53 (negsuc 6) → ⊥))
integer_exact_example = Integers.integer_exact (negsuc 6) []

unsigned_wraps_example :
    ((out : List ℕ) × (canonicalize_into (unsigned 18446744073709551615) [] ≡ ok out)
      × (((18446744073709551615 < 9007199254740992) × (read out ≡ pos 18446744073709551615))
          ⊎ ((18446744073709551616 < 18446744073709551615 + 9007199254740992)
              × (read out ≡ negsuc 0))))
    ⊎ ((canonicalize_into (unsigned 18446744073709551615) [] ≡ err (integer_out_of_range []))
        × ((9007199254740992 ≤ 18446744073709551615)
            × (18446744073709551615 + 9007199254740992 ≤ 18446744073709551616)))
unsigned_wraps_example = Integers.unsigned_wraps 18446744073709551615 [] (omega arith)
