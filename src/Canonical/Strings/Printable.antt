-- ===== src/Canonical/Strings/Printable.antt =====
-- Proofs about cpp/src/canonical.h, the bytes that `escape_into` writes.
use pg_laswell.Base.{
  ℕ, zero, suc, ◌/◌, ◌%◌, ◌≤◌, Bool, true, false, ◌&&◌, ◌≡◌, inl, inr, refl, List, [], ◌∷◌, ◌++◌,
  ltb, leb, nat_eq, length, if◌then◌else◌, arith, All, All-append, Option-cases, Bool-cases,
}
use pg_laswell.Base.Result.{ok, >>=-eq-ok}
use pg_laswell.Canonical.Utf8.{Decoded, utf8_next, multi_byte, need, take_bytes, all_continuation}
use pg_laswell.Canonical.Strings.{escape_point, escape_from, escape, hex}

-- A byte that is no control character.
abbrev pub IsPrintable : ℕ → Type 0
IsPrintable b = 32 ≤ b

continuation-IsPrintable : (s : List ℕ) → all_continuation s ≡ true → All IsPrintable s
unfolding all_continuation
continuation-IsPrintable [] h = tt
continuation-IsPrintable (b ∷ s) h = (ground arith, continuation-IsPrintable s (ground arith))

multi_byte-IsPrintable :
    (n c0 lead : ℕ) (s : List ℕ) (d : Decoded)
    → 192 ≤ c0
    → multi_byte n c0 lead s ≡ ok d
    → All IsPrintable d.taken
multi_byte-IsPrintable n c0 lead s d big h = elim (Option-cases (take_bytes n s)) [
  | inl e ↦ absurd (unfold multi_byte need in ground arith)
  | inr ((c, r), e) ↦ elim (Bool-cases (all_continuation c)) [
    | inr q ↦ absurd (unfold multi_byte need in ground arith)
    | inl q ↦
        let t : (c0 ∷ c) ≡ d.taken = unfold multi_byte need in ground arith in
        rw (← t) ((omega arith), continuation-IsPrintable c q)
  ]
]

-- How a decoded character was encoded.
data Encoding (b : ℕ) (s : List ℕ) (d : Decoded) : Type 0 where
  plain : b ∷ [] ≡ d.taken → b ≡ d.point → Encoding b s d
  multi : (n lead : ℕ) → 192 ≤ b → multi_byte n b lead s ≡ ok d → Encoding b s d

utf8_next-Encoding : (b : ℕ) (s : List ℕ) (d : Decoded) → utf8_next b s ≡ ok d → Encoding b s d
unfolding utf8_next
utf8_next-Encoding b s d h = elim (Bool-cases (ltb b 128)) [
  | inl small ↦ plain (ground arith) (ground arith)
  | inr h1 ↦ elim (Bool-cases (leb 192 b && ltb b 224)) [
    | inl two ↦ multi 1 (b % 32) (ground arith) (ground arith)
    | inr h2 ↦ elim (Bool-cases (leb 224 b && ltb b 240)) [
      | inl three ↦ multi 2 (b % 16) (ground arith) (ground arith)
      | inr h3 ↦ elim (Bool-cases (leb 240 b && ltb b 248)) [
        | inl four ↦ multi 3 (b % 8) (ground arith) (ground arith)
        | inr h4 ↦ absurd (ground arith)
      ]
    ]
  ]
]

-- The bytes of a decoded character that is no control character are none.
utf8_next-IsPrintable :
    (b : ℕ) (s : List ℕ) (d : Decoded)
    → utf8_next b s ≡ ok d
    → 32 ≤ d.point
    → All IsPrintable d.taken
utf8_next-IsPrintable b s d h p = elim (utf8_next-Encoding b s d h) [
  | plain t q ↦ rw (← t) (omega arith, tt)
  | multi n lead big m ↦ multi_byte-IsPrintable n b lead s d big m
]

-- A test whose two branches are printable.
IsPrintable-if :
    (b : Bool) (x y : List ℕ)
    → All IsPrintable x
    → (b ≡ false → All IsPrintable y)
    → All IsPrintable (if b then x else y)
IsPrintable-if true x y hx hy = hx
IsPrintable-if false x y hx hy = hy refl

hex_printable : (d : ℕ) → 32 ≤ hex d
hex_printable d = ground arith

escape_point-IsPrintable :
    (d : Decoded)
    → (32 ≤ d.point → All IsPrintable d.taken)
    → All IsPrintable (escape_point d.point d.taken)
unfolding escape_point
escape_point-IsPrintable d h = IsPrintable-if (nat_eq d.point 34) _ _ (omega arith) λ _.
    IsPrintable-if (nat_eq d.point 92) _ _ (omega arith) λ _.
      IsPrintable-if (nat_eq d.point 8) _ _ (omega arith) λ _.
        IsPrintable-if (nat_eq d.point 12) _ _ (omega arith) λ _.
          IsPrintable-if (nat_eq d.point 10) _ _ (omega arith) λ _.
            IsPrintable-if (nat_eq d.point 13) _ _ (omega arith) λ _.
              IsPrintable-if (nat_eq d.point 9) _ _ (omega arith)
                λ _. IsPrintable-if (ltb d.point 32) _ _ (unicode d.point) (λ big. h (ground arith))
  where
    unicode :
        (p : ℕ)
        → All IsPrintable (b'\\' ∷ b'u' ∷ b'0' ∷ b'0' ∷ hex (p / 16 % 16) ∷ hex (p % 16) ∷ [])
    unicode p = (
      omega arith,
      (
        omega arith,
        (omega arith, (omega arith, (hex_printable (p / 16 % 16), (hex_printable (p % 16), tt)))),
      ),
    )

escape_from-IsPrintable :
    (fuel : ℕ) (s out : List ℕ) → escape_from fuel s ≡ ok out → All IsPrintable out
unfolding escape_from
escape_from-IsPrintable zero [] out h = let e : [] ≡ out = ground arith in rw (← e) tt
escape_from-IsPrintable zero (b ∷ s) out h = absurd (ground arith)
escape_from-IsPrintable (suc fuel) [] out h = let e : [] ≡ out = ground arith in rw (← e) tt
escape_from-IsPrintable (suc fuel) (b ∷ s) out h =
    let (d, k, h') = >>=-eq-ok (utf8_next b s) _ h in
    let (more, q, h'') = >>=-eq-ok (escape_from fuel d.rest) _ h' in
    let e : escape_point d.point d.taken ++ more ≡ out = ground arith in
    rw (← e) (
      All-append IsPrintable (escape_point d.point d.taken) more
        (escape_point-IsPrintable d (utf8_next-IsPrintable b s d k))
        (escape_from-IsPrintable fuel d.rest more q))

-- The canonical form of a string holds no control character, whatever the string holds.
pub escape-IsPrintable : (s out : List ℕ) → escape s ≡ ok out → All IsPrintable out
unfolding escape
escape-IsPrintable s out h =
    let (inner, q, h') = >>=-eq-ok (escape_from (length s) s) _ h in
    let e : b'"' ∷ (inner ++ b'"' ∷ []) ≡ out = ground arith in
    rw (← e) (
      omega arith,
      All-append IsPrintable inner (b'"' ∷ []) (escape_from-IsPrintable (length s) s inner q)
          (omega arith),
    )
