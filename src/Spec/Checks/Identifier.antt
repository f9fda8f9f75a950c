-- ===== src/Spec/Checks/Identifier.antt =====
-- Proofs about cpp/src/spec.h, `require_identifier` and the names of an accepted intent.
use pg_laswell.Base.{
  ℕ, ◌≤◌, true, ◌&&◌, ◌≡◌, ◌↔◌, ◌⊎◌, inl, inr, refl, String, List, [], ◌∷◌, ltb, leb, nat_eq,
  length, All, arith, Bool-cases,
}
use pg_laswell.Base.Result.{ok}
use pg_laswell.Spec.Checks.{is_lower, is_digit, is_start, all_plain, require_identifier}

-- A lower-case letter or an underscore, or also a digit.
abbrev pub StartByte : ℕ → Type 0
StartByte c = ((b'a' ≤ c) × (c ≤ b'z')) ⊎ (c ≡ b'_')

abbrev pub PlainByte : ℕ → Type 0
PlainByte c = StartByte c ⊎ ((b'0' ≤ c) × (c ≤ b'9'))

-- PostgreSQL reads the name as it is written, quoted or not, and does not cut it.
abbrev pub IsPlain : List ℕ → Type 0
IsPlain [] = ⊥
IsPlain (c ∷ cs) = (length (c ∷ cs) ≤ 63) × (StartByte c × All PlainByte (c ∷ cs))

start_sound : (c : ℕ) → is_start c ≡ true → StartByte c
unfolding is_start is_lower
start_sound c h = elim (Bool-cases (nat_eq c b'_')) [
  | inl underscore ↦ inr (ground arith)
  | inr other ↦ inl (ground arith, ground arith)
]

start_complete : (c : ℕ) → StartByte c → is_start c ≡ true
unfolding is_start is_lower
start_complete c (inl (a, z)) = ground arith
start_complete c (inr e) = ground arith

plain_sound : (cs : List ℕ) → all_plain cs ≡ true → All PlainByte cs
unfolding all_plain is_lower is_digit
plain_sound [] h = tt
plain_sound (c ∷ cs) h = (byte, plain_sound cs (ground arith))
  where
    byte : PlainByte c
    byte = elim (Bool-cases (leb b'0' c && leb c b'9')) [
      | inl digit ↦ inr (ground arith, ground arith)
      | inr other ↦ inl (start_sound c (unfold is_start in ground arith))
    ]

plain_complete : (cs : List ℕ) → All PlainByte cs → all_plain cs ≡ true
unfolding all_plain is_lower is_digit
plain_complete [] h = refl
plain_complete (c ∷ cs) (inl (inl (a, z)), h) = ground (arith, plain_complete cs h)
plain_complete (c ∷ cs) (inl (inr e), h) = ground (arith, plain_complete cs h)
plain_complete (c ∷ cs) (inr (a, z), h) = ground (arith, plain_complete cs h)

-- A name passes exactly if it is not empty, has 63 bytes at most, starts with a lower-case letter or
-- an underscore, and has nothing but lower-case letters, digits and underscores.
pub require_identifier-IsPlain :
    (v : List ℕ) (name : String) (n : ℕ) → (require_identifier v name n ≡ ok tt) ↔ IsPlain v
unfolding require_identifier
require_identifier-IsPlain [] name n = (λ h. absurd (cc), λ h. absurd h)
require_identifier-IsPlain (c ∷ cs) name n = (sound, complete)
  where
    sound : require_identifier (c ∷ cs) name n ≡ ok tt → IsPlain (c ∷ cs)
    sound h = elim (Bool-cases (ltb 63 (length (c ∷ cs)))) [
      | inl long ↦ absurd (ground arith)
      | inr short ↦ elim (Bool-cases (is_start c)) [
        | inr bad ↦ absurd (ground arith)
        | inl good ↦ elim (Bool-cases (all_plain (c ∷ cs))) [
          | inr odd ↦ absurd (ground arith)
          | inl plain ↦ (ground arith, (start_sound c good, plain_sound (c ∷ cs) plain))
        ]
      ]
    ]

    complete : IsPlain (c ∷ cs) → require_identifier (c ∷ cs) name n ≡ ok tt
    complete (short, (start, plain)) =
        ground (arith, start_complete c start, plain_complete (c ∷ cs) plain)
