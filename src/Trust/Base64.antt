-- ===== src/Trust/Base64.antt =====
-- cpp/src/config.h: `Registry::base64_encode` and `Registry::base64_decode`. A string is the list of its bytes.
pub mod RoundTrip
use pg_laswell.Base.{
  ℕ, suc, ◌+◌, ◌-◌, ◌*◌, ◌/◌, ◌%◌, Bool, true, false, not, ◌&&◌, ◌||◌, Option, none, some, List, [],
  ◌∷◌, ◌++◌, leb, ltb, nat_eq, length, keep, if◌then◌else◌,
}
use pg_laswell.Base.Result.{Result, ok, err, ◌>>=◌}

pub data Base64Error : Type 0 where
  wrong_length misplaced_padding data_after_padding : Base64Error
  invalid_character : ℕ → Base64Error

-- `kAlpha[n]`
abbrev pub letter : ℕ → ℕ
letter n =
    if ltb n 26
    then n + 65
    else if ltb n 52
    then n - 26 + 97
    else if ltb n 62
    then n - 52 + 48
    else if ltb n 63
    then b'+'
    else b'/'

-- The four characters of three bytes.
unfoldable pub letters : ℕ → ℕ → ℕ → List ℕ
letters b0 b1 b2 =
    let t = b0 * 65536 + b1 * 256 + b2 in
    letter (t / 262144 % 64) ∷ letter (t / 4096 % 64) ∷ letter (t / 64 % 64) ∷ letter (t % 64) ∷ []

unfoldable pub base64_encode : List ℕ → List ℕ
base64_encode [] = []
base64_encode (x ∷ []) =
    let t = x * 65536 in letter (t / 262144 % 64) ∷ letter (t / 4096 % 64) ∷ b'=' ∷ b'=' ∷ []
base64_encode (x ∷ y ∷ []) =
    let t = x * 65536 + y * 256 in
    letter (t / 262144 % 64) ∷ letter (t / 4096 % 64) ∷ letter (t / 64 % 64) ∷ b'=' ∷ []
base64_encode (x ∷ y ∷ z ∷ s) = letters x y z ++ base64_encode s

-- `value`, with none for -1.
unfoldable pub value : ℕ → Option ℕ
value c =
    if leb b'A' c && leb c b'Z'
    then some (c - 65)
    else if leb b'a' c && leb c b'z'
    then some (c - 97 + 26)
    else if leb b'0' c && leb c b'9'
    then some (c - 48 + 52)
    else if nat_eq c b'+'
    then some 62
    else if nat_eq c b'/'
    then some 63
    else none

abbrev pub is_space : ℕ → Bool
is_space c = nat_eq c 32 || (nat_eq c 10 || (nat_eq c 13 || nat_eq c 9))

unfoldable pub digit : ℕ → Result Base64Error ℕ
unfolding value
digit c = elim (value c) [ none ↦ err (invalid_character c) | some n ↦ ok n ]

-- One of the first two characters of four.
unfoldable pub leading : ℕ → Result Base64Error ℕ
unfolding digit
leading c = if nat_eq c b'=' then err misplaced_padding else digit c

-- The third one, where none is padding.
unfoldable pub third : ℕ → Result Base64Error (Option ℕ)
unfolding digit
third c = if nat_eq c b'=' then ok none else (digit c >>= λ n. ok (some n))

-- The fourth one, with what the third one is.
unfoldable pub fourth : Option ℕ → ℕ → Result Base64Error (Option ℕ)
unfolding digit
fourth before c =
    if nat_eq c b'='
    then ok none
    else (digit c >>= λ n. elim before [ none ↦ err data_after_padding | some _ ↦ ok (some n) ])

-- The bytes of four characters: padding leaves out the last, or the last two.
unfoldable pub bytes_of : ℕ → ℕ → Option ℕ → Option ℕ → List ℕ
bytes_of n0 n1 none _ = (n0 * 262144 + n1 * 4096) / 65536 % 256 ∷ []
bytes_of n0 n1 (some n2) none =
    let triple = n0 * 262144 + n1 * 4096 + n2 * 64 in triple / 65536 % 256 ∷ triple / 256 % 256 ∷ []
bytes_of n0 n1 (some n2) (some n3) =
    let triple = n0 * 262144 + n1 * 4096 + n2 * 64 + n3 in
    triple / 65536 % 256 ∷ triple / 256 % 256 ∷ triple % 256 ∷ []

unfoldable pub four : ℕ → ℕ → ℕ → ℕ → Result Base64Error (List ℕ)
unfolding leading third fourth bytes_of
four a b c d = do
  n0 ← leading a
  n1 ← leading b
  n2 ← third c
  n3 ← fourth n2 d
  ok (bytes_of n0 n1 n2 n3)

unfoldable pub decode_fours : List ℕ → Result Base64Error (List ℕ)
decode_fours [] = ok []
decode_fours (a ∷ b ∷ c ∷ d ∷ s) = do
  bytes ← four a b c d
  more ← decode_fours s
  ok (bytes ++ more)
decode_fours _ = err wrong_length

unfoldable pub base64_decode : List ℕ → Result Base64Error (List ℕ)
unfolding decode_fours four
base64_decode text =
    let s = keep (λ c. not (is_space c)) text in
    if nat_eq (length s % 4) 0 then decode_fours s else err wrong_length
