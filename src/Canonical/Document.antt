-- ===== src/Canonical/Document.antt =====
-- cpp/src/canonical.h: `canonicalize_into` and `canonicalize`. A JSON value is nlohmann's: its
-- object has each name once. The members of an object are rendered, sorted by the UTF-16 units of
-- their names and then joined, so that of several faults the first in sorted order is raised, as
-- in the code; of malformed names the first one in the document is.
pub mod Sort
pub mod Reorder
pub mod Refusals
pub mod Integers
use pg_laswell.Base.{
  ℕ, zero, suc, ◌+◌, Bool, true, false, List, [], ◌∷◌, ◌++◌, nat_eq, if◌then◌else◌,
}
use pg_laswell.Base.Int.{ℤ}
use pg_laswell.Base.Result.{Result, ok, err, ◌>>=◌}
use pg_laswell.Canonical.Utf8.{
  Failure, Segment, index, member, float_not_allowed, unrepresentable, utf16_units, lex_less,
}
use pg_laswell.Canonical.Strings.{escape}
use pg_laswell.Canonical.Numbers.{to_int64, integer_text}

mutual
  -- `json::value_t`; `binary` is any value that JSON cannot hold.
  pub data Json : Type 0 where
    null float binary : Json
    boolean : Bool → Json
    integer : ℤ → Json
    unsigned : ℕ → Json
    string : List ℕ → Json
    array : Items → Json
    object : Members → Json

  pub data Items : Type 0 where
    nil : Items
    cons : Json → Items → Items

  pub data Members : Type 0 where
    end : Members
    field : List ℕ → Json → Members → Members

-- One member, with the units that it is sorted by.
pub record Rendered : Type 0 where
  pub units : List ℕ
  pub text : Result Failure (List ℕ)

unfoldable pub insert : Rendered → List Rendered → List Rendered
insert r [] = r ∷ []
insert r (q ∷ qs) =
    let rest = insert r qs in if lex_less r.units q.units then r ∷ q ∷ qs else q ∷ rest

unfoldable pub sort : List Rendered → List Rendered
sort [] = []
sort (r ∷ rs) = insert r (sort rs)

-- The members in order, each but the first behind a comma.
unfoldable pub join : Bool → List Rendered → Result Failure (List ℕ)
join first [] = ok []
join first (r ∷ rs) = do
  t ← r.text
  more ← join false rs
  ok ((if first then t else b',' ∷ t) ++ more)

abbrev pub literal : Bool → List ℕ
literal true = b't' ∷ b'r' ∷ b'u' ∷ b'e' ∷ []
literal false = b'f' ∷ b'a' ∷ b'l' ∷ b's' ∷ b'e' ∷ []

-- A name, a colon and a value.
abbrev pub member_text : List ℕ → Result Failure (List ℕ) → Result Failure (List ℕ)
member_text key value = do k ← escape key; v ← value; ok (k ++ b':' ∷ v)

abbrev pub bracketed : ℕ → ℕ → List ℕ → List ℕ
bracketed left right inner = left ∷ (inner ++ right ∷ [])

unfoldable mutual
  pub canonicalize_into : Json → List Segment → Result Failure (List ℕ)
  canonicalize_into null pointer = ok (b'n' ∷ b'u' ∷ b'l' ∷ b'l' ∷ [])
  canonicalize_into (boolean b) pointer = ok (literal b)
  canonicalize_into float pointer = err (float_not_allowed pointer)
  canonicalize_into (integer n) pointer = integer_text n pointer
  canonicalize_into (unsigned n) pointer = integer_text (to_int64 n) pointer
  canonicalize_into (string s) pointer = escape s
  canonicalize_into (array xs) pointer =
      items_text 0 xs pointer >>= λ inner. ok (bracketed b'[' b']' inner)
  canonicalize_into (object ms) pointer = rendered ms pointer >>= λ rs.
      (join true (sort rs) >>= λ inner. ok (bracketed b'{' b'}' inner))
  canonicalize_into binary pointer = err (unrepresentable pointer)

  -- The elements from the i-th on.
  pub items_text : ℕ → Items → List Segment → Result Failure (List ℕ)
  items_text i nil pointer = ok []
  items_text i (cons x xs) pointer = canonicalize_into x (pointer ++ index i ∷ []) >>= λ t.
      (items_text (suc i) xs pointer >>= λ more. ok ((if nat_eq i 0 then t else b',' ∷ t) ++ more))

  pub rendered : Members → List Segment → Result Failure (List Rendered)
  rendered end pointer = ok []
  rendered (field key v ms) pointer = utf16_units key >>= λ us.
      (rendered ms pointer >>= λ rs. ok (
        record {
          units = us;
          text = member_text key (canonicalize_into v (pointer ++ member key ∷ []));
        }
        ∷ rs))

unfoldable pub canonicalize : Json → Result Failure (List ℕ)
canonicalize v = canonicalize_into v []
