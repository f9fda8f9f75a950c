-- ===== src/Spec/Checks/Integer.antt =====
-- cpp/src/spec.h: `get<int>()` of the JSON library, where the parsers use it.
use pg_laswell.Base.{ℕ, suc, ◌-◌, ◌%◌, ◌^◌, ltb, if◌then◌else◌}
use pg_laswell.Base.Int.{ℤ, pos, negsuc}
use pg_laswell.Base.Result.{Result, ok, err}
use pg_laswell.Canonical.Document.{Json, integer, unsigned}
use pg_laswell.Spec.Checks.{SpecError, type_error}

-- `get<int>()`: 64 bits cut to 32.
low_word : ℤ → ℕ
low_word (pos n) = n % 2 ^ 32
low_word (negsuc n) = 2 ^ 32 - suc (n % 2 ^ 32)

as_int : ℕ → ℤ
as_int r = if ltb r (2 ^ 31) then pos r else negsuc (2 ^ 32 - suc r)

unfoldable pub get_int : Json → Result SpecError ℤ
unfolding low_word as_int
get_int (integer n) = ok (as_int (low_word n))
get_int (unsigned n) = ok (as_int (low_word (pos n)))
get_int v = err type_error
