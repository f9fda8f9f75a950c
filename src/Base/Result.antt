-- ===== src/Base/Result.antt =====
-- A computation that may raise.
use mathlib.Core.Path.{◌≡◌, refl}

pub data Result {ℓ} (Raised : Type 0) (Value : Type ℓ) : Type ℓ where
  err : Raised → Result Raised Value
  ok : Value → Result Raised Value

infixl 5 ◌>>=◌
abbrev pub ◌>>=◌ {ℓ κ} :
    {R : Type 0} {V : Type ℓ} {W : Type κ} → Result R V → (V → Result R W) → Result R W
err raised >>= next = err raised
ok value >>= next = next value

pub >>=-eq-ok {ℓ κ} :
    {R : Type 0} {V : Type ℓ} {W : Type κ} (m : Result R V) (next : V → Result R W) {w : W}
    → (m >>= next) ≡ ok w
    → (v : V) × (m ≡ ok v) × (next v ≡ ok w)
>>=-eq-ok (err raised) next h = absurd (cc)
>>=-eq-ok (ok value) next h = (value, refl, h)

pub ok_inj {ℓ} : {R : Type 0} {V : Type ℓ} {v w : V} → ◌≡◌ {A = Result R V} (ok v) (ok w) → v ≡ w
ok_inj h = cc
