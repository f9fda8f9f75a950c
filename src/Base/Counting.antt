-- ===== src/Base/Counting.antt =====
-- How often a text stands in a list, and the list lemmas about it.
use pg_laswell.Base.Tests.{◌==◌, if◌then◌else◌, ==_iff}
use pg_laswell.Base.Lists.{keep, contains, length, length-keep}
use Prim.Native.Nat.{ℕ, suc, ◌+◌, ◌<◌}
use Prim.Native.String.{String}
use mathlib.Core.Path.{◌≡◌, refl}
use mathlib.Core.Bool.{Bool, true, false, ◌&&◌}
use mathlib.Core.List.{List, [], ◌∷◌, ◌++◌}
use native.Mathlib.Omega.{arith}

abbrev pub count : String → List String → ℕ
count a [] = 0
count a (x ∷ xs) = let rest = count a xs in if x == a then suc rest else rest

pub count-append : (a : String) (xs ys : List String) → count a (xs ++ ys) ≡ count a xs + count a ys
count-append a [] ys = omega arith
count-append a (x ∷ xs) ys = ground (arith, count-append a xs ys)

pub count_pos : (a : String) (xs : List String) → contains xs a ≡ true → 0 < count a xs
count_pos a [] h = absurd (ground arith)
count_pos a (x ∷ xs) h = ground (arith, count_pos a xs)

pub contains_of_pos : (a : String) (xs : List String) → 0 < count a xs → contains xs a ≡ true
contains_of_pos a [] h = absurd (omega arith)
contains_of_pos a (x ∷ xs) h = ground (arith, contains_of_pos a xs)

pub count-zero : (a : String) (xs : List String) → contains xs a ≡ false → count a xs ≡ 0
count-zero a [] h = refl
count-zero a (x ∷ xs) h = ground (arith, count-zero a xs)

-- How a filtered list counts, holds and shrinks.
module _ (p : String → Bool) where
  pub count-keep :
      (a : String) (xs : List String) → count a (keep p xs) ≡ (if p a then count a xs else 0)
  count-keep a [] = ground arith
  count-keep a (x ∷ xs) = ground (arith, count-keep a xs, ==_iff x a)

  pub contains-keep :
      (a : String) (xs : List String) → contains (keep p xs) a ≡ (contains xs a && p a)
  contains-keep a [] = refl
  contains-keep a (x ∷ xs) = ground (arith, contains-keep a xs, ==_iff x a)

  pub length-keep-lt :
      (a : String) (xs : List String)
      → contains xs a ≡ true
      → p a ≡ false
      → length (keep p xs) < length xs
  length-keep-lt a [] h k = absurd (ground arith)
  length-keep-lt a (x ∷ xs) h k = ground (arith, length-keep-lt a xs, ==_iff x a, length-keep p xs)
