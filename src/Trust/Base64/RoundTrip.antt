-- ===== src/Trust/Base64/RoundTrip.antt =====
-- Proofs about cpp/src/config.h, `base64_encode` and `base64_decode`.
use pg_laswell.Base.{
  ℕ, ◌+◌, ◌*◌, ◌/◌, ◌%◌, ◌<◌, false, not, ◌≡◌, refl, some, List, [], ◌∷◌, length, keep, arith, All,
}
use pg_laswell.Base.Result.{ok}
use pg_laswell.Trust.Base64.{
  letter, letters, base64_encode, value, digit, leading, third, fourth, four, bytes_of,
  decode_fours, is_space, base64_decode,
}

-- The encoding of RFC 4648, three bytes at a time.
abbrev pub encode : List ℕ → List ℕ
encode [] = []
encode (x ∷ []) = letter (x / 4) ∷ letter (x % 4 * 16) ∷ b'=' ∷ b'=' ∷ []
encode (x ∷ y ∷ []) =
    letter (x / 4) ∷ letter (x % 4 * 16 + y / 16) ∷ letter (y % 16 * 4) ∷ b'=' ∷ []
encode (x ∷ y ∷ z ∷ s) =
    letter (x / 4)
    ∷ letter (x % 4 * 16 + y / 16)
    ∷ letter (y % 16 * 4 + z / 64)
    ∷ letter (z % 64)
    ∷ encode s

value-letter : (n : ℕ) → n < 64 → value (letter n) ≡ some n
unfolding value
value-letter n h = ground arith

leading-letter : (n : ℕ) → n < 64 → leading (letter n) ≡ ok n
unfolding leading digit
leading-letter n h = ground (arith, value-letter n h)

third-letter : (n : ℕ) → n < 64 → third (letter n) ≡ ok (some n)
unfolding third digit
third-letter n h = ground (arith, value-letter n h)

fourth-letter : (m n : ℕ) → n < 64 → fourth (some m) (letter n) ≡ ok (some n)
unfolding fourth digit
fourth-letter m n h = ground (arith, value-letter n h)

letter-is_space : (n : ℕ) → n < 64 → is_space (letter n) ≡ false
letter-is_space n h = ground arith

abbrev pub IsBytes : List ℕ → Type 0
IsBytes = All (λ (b : ℕ). b < 256)

four_one : (x : ℕ) → x < 256 → four (letter (x / 4)) (letter (x % 4 * 16)) b'=' b'=' ≡ ok (x ∷ [])
unfolding four third fourth bytes_of
four_one x h =
    let back : (x / 4 * 262144 + x % 4 * 16 * 4096) / 65536 % 256 ≡ x = omega (arith, h) in
    rw
      (
        leading-letter (x / 4) (omega (arith, h)),
        leading-letter (x % 4 * 16) (omega (arith, h)),
        back,
      )
      refl

-- Three bytes in a row.
bytes_back :
    (x y z triple : ℕ)
    → x < 256
    → y < 256
    → z < 256
    → triple ≡ x * 65536 + y * 256 + z
    → (triple / 65536 % 256 ≡ x) × ((triple / 256 % 256 ≡ y) × (triple % 256 ≡ z))
bytes_back x y z triple h k l e =
    (omega (arith, h, k, l, e), (omega (arith, h, k, l, e), omega (arith, h, k, l, e)))

four_two :
    (x y : ℕ)
    → x < 256
    → y < 256
    → four (letter (x / 4)) (letter (x % 4 * 16 + y / 16)) (letter (y % 16 * 4)) b'='
      ≡ ok (x ∷ y ∷ [])
unfolding four fourth bytes_of
four_two x y h k =
    let back =
      bytes_back x y 0 (x / 4 * 262144 + (x % 4 * 16 + y / 16) * 4096 + y % 16 * 4 * 64) h k
        (omega arith) (omega (arith, h, k)) in
    rw
      (
        leading-letter (x / 4) (omega (arith, h)),
        leading-letter (x % 4 * 16 + y / 16) (omega (arith, h, k)),
        third-letter (y % 16 * 4) (omega (arith, k)),
        back.0,
        back.1.0,
      )
      refl

four_three :
    (x y z : ℕ)
    → x < 256
    → y < 256
    → z < 256
    → four
        (letter (x / 4))
        (letter (x % 4 * 16 + y / 16))
        (letter (y % 16 * 4 + z / 64))
        (letter (z % 64))
      ≡ ok (x ∷ y ∷ z ∷ [])
unfolding four bytes_of
four_three x y z h k l =
    let back =
      bytes_back x y z
        (x / 4 * 262144 + (x % 4 * 16 + y / 16) * 4096 + (y % 16 * 4 + z / 64) * 64 + z % 64) h k l
        (omega (arith, h, k, l)) in
    rw
      (
        leading-letter (x / 4) (omega (arith, h)),
        leading-letter (x % 4 * 16 + y / 16) (omega (arith, h, k)),
        third-letter (y % 16 * 4 + z / 64) (omega (arith, k, l)),
        fourth-letter (y % 16 * 4 + z / 64) (z % 64) (omega (arith, l)),
        back.0,
        back.1.0,
        back.1.1,
      )
      refl

strip-encode : (s : List ℕ) → IsBytes s → keep (λ c. not (is_space c)) (encode s) ≡ encode s
strip-encode [] h = refl
strip-encode (x ∷ []) h =
    rw
      (
        letter-is_space (x / 4) (omega (arith, h.0)),
        letter-is_space (x % 4 * 16) (omega (arith, h.0)),
      )
      refl
strip-encode (x ∷ y ∷ []) h =
    rw
      (
        letter-is_space (x / 4) (omega (arith, h.0)),
        letter-is_space (x % 4 * 16 + y / 16) (omega (arith, h.0, h.1.0)),
        letter-is_space (y % 16 * 4) (omega (arith, h.1.0)),
      )
      refl
strip-encode (x ∷ y ∷ z ∷ s) h =
    rw
      (
        letter-is_space (x / 4) (omega (arith, h.0)),
        letter-is_space (x % 4 * 16 + y / 16) (omega (arith, h.0, h.1.0)),
        letter-is_space (y % 16 * 4 + z / 64) (omega (arith, h.1.0, h.1.1.0)),
        letter-is_space (z % 64) (omega (arith, h.1.1.0)),
        strip-encode s h.1.1.1,
      )
      refl

length-encode : (s : List ℕ) → length (encode s) % 4 ≡ 0
length-encode [] = refl
length-encode (x ∷ []) = refl
length-encode (x ∷ y ∷ []) = refl
length-encode (x ∷ y ∷ z ∷ s) = omega (arith, length-encode s)

decode_fours-encode : (s : List ℕ) → IsBytes s → decode_fours (encode s) ≡ ok s
unfolding decode_fours
decode_fours-encode [] h = refl
decode_fours-encode (x ∷ []) h = rw (four_one x h.0) refl
decode_fours-encode (x ∷ y ∷ []) h = rw (four_two x y h.0 h.1.0) refl
decode_fours-encode (x ∷ y ∷ z ∷ s) h =
    rw (four_three x y z h.0 h.1.0 h.1.1.0, decode_fours-encode s h.1.1.1) refl

base64_decode-encode : (s : List ℕ) → IsBytes s → base64_decode (encode s) ≡ ok s
unfolding base64_decode
base64_decode-encode s h = rw (strip-encode s h, length-encode s) (decode_fours-encode s h)

-- The four groups of six bits in three bytes.
sextets :
    (x y z : ℕ)
    → x < 256
    → y < 256
    → z < 256
    → let t = x * 65536 + y * 256 + z in
      (t / 262144 % 64 ≡ x / 4)
      × ((t / 4096 % 64 ≡ x % 4 * 16 + y / 16)
          × ((t / 64 % 64 ≡ y % 16 * 4 + z / 64) × (t % 64 ≡ z % 64)))
sextets x y z h k l = (
  omega (arith, h, k, l),
  (omega (arith, h, k, l), (omega (arith, h, k, l), omega (arith, h, k, l))),
)

base64_encode-encode : (s : List ℕ) → IsBytes s → base64_encode s ≡ encode s
unfolding base64_encode letters
base64_encode-encode [] h = refl
base64_encode-encode (x ∷ []) h =
    let first : x * 65536 / 262144 % 64 ≡ x / 4 = omega (arith, h.0) in
    let second : x * 65536 / 4096 % 64 ≡ x % 4 * 16 = omega (arith, h.0) in rw (first, second) refl
base64_encode-encode (x ∷ y ∷ []) h =
    let t = x * 65536 + y * 256 in
    let first : t / 262144 % 64 ≡ x / 4 = omega (arith, h.0, h.1.0) in
    let second : t / 4096 % 64 ≡ x % 4 * 16 + y / 16 = omega (arith, h.0, h.1.0) in
    let third_one : t / 64 % 64 ≡ y % 16 * 4 = omega (arith, h.0, h.1.0) in
    rw (first, second, third_one) refl
base64_encode-encode (x ∷ y ∷ z ∷ s) h =
    let (first, (second, (third_one, last))) = sextets x y z h.0 h.1.0 h.1.1.0 in
    rw (first, second, third_one, last, base64_encode-encode s h.1.1.1) refl

-- What the encoder writes for any bytes, the decoder reads back as these bytes.
pub base64_decode-base64_encode : (s : List ℕ) → IsBytes s → base64_decode (base64_encode s) ≡ ok s
base64_decode-base64_encode s h = rw (base64_encode-encode s h) (base64_decode-encode s h)
