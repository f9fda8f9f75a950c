-- ===== src/Base/Bytes.antt =====
-- A text's bytes against the characters of a literal, which is ASCII.
use pg_laswell.Base.Tests.{nat_eq}
use Prim.Native.Nat.{ℕ}
use Prim.Native.Char.{code}
use Prim.Native.String.{String, [] as done, ◌∷◌ as ◌then◌}
use mathlib.Core.Bool.{Bool, true, false, ◌&&◌, ◌||◌}
use mathlib.Core.List.{List, [], ◌∷◌}

unfoldable pub is_text : List ℕ → String → Bool
is_text [] done = true
is_text [] (c then s) = false
is_text (b ∷ bs) done = false
is_text (b ∷ bs) (c then s) = nat_eq b (code c) && is_text bs s

-- The bytes of a literal.
unfoldable pub text : String → List ℕ
text done = []
text (c then s) = code c ∷ text s

-- Is it one of a set of literals?
unfoldable pub one_of : List ℕ → List String → Bool
unfolding is_text
one_of b [] = false
one_of b (s ∷ ss) = is_text b s || one_of b ss
