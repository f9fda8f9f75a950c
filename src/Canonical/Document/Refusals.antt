-- ===== src/Canonical/Document/Refusals.antt =====
-- Proofs about cpp/src/canonical.h, what `canonicalize` refuses.
use pg_laswell.Base.{
  ℕ, suc, Bool, true, false, ◌≡◌, inl, inr, sym, subst, List, [], ◌∷◌, ◌++◌, arith, Bool-cases, All,
}
use pg_laswell.Base.Int.{ℤ}
use pg_laswell.Base.Result.{Result, ok, >>=-eq-ok, ok_inj}
use pg_laswell.Canonical.Utf8.{Failure, Segment, index, member, utf16_units, lex_less}
use pg_laswell.Canonical.Strings.{escape}
use pg_laswell.Canonical.Strings.Shape.{Shaped, escape-Shaped}
use pg_laswell.Canonical.Numbers.Exact.{Below53, CastBelow53, is_safe-Below53, is_safe-CastBelow53}
use pg_laswell.Canonical.Numbers.{is_safe, to_int64, integer_text}
use pg_laswell.Canonical.Document.{
  Json, null, float, binary, boolean, integer, unsigned, string, array, object, Items, nil, cons,
  Members, end, field, Rendered, insert, sort, join, canonicalize_into, items_text, rendered,
  canonicalize, member_text,
}

mutual
  -- Everything in the document can be written canonically.
  pub data Storable : Json → Type 0 where
    is_null : Storable null
    is_boolean : (b : Bool) → Storable (boolean b)
    is_integer : (n : ℤ) → Below53 n → Storable (integer n)
    is_unsigned : (n : ℕ) → CastBelow53 n → Storable (unsigned n)
    is_string : (s : List ℕ) → Shaped s → Storable (string s)
    is_array : (xs : Items) → StorableItems xs → Storable (array xs)
    is_object : (ms : Members) → StorableMembers ms → Storable (object ms)

  pub data StorableItems : Items → Type 0 where
    no_items : StorableItems nil
    more_items : (v : Json) (xs : Items) → Storable v → StorableItems xs → StorableItems (cons v xs)

  pub data StorableMembers : Members → Type 0 where
    no_members : StorableMembers end
    more_members :
        (key : List ℕ) (v : Json) (ms : Members)
        → Shaped key
        → Storable v
        → StorableMembers ms
        → StorableMembers (field key v ms)

abbrev HasText : Rendered → Type 0
HasText r = (out : List ℕ) × (r.text ≡ ok out)

join_texts :
    (first : Bool) (rs : List Rendered) (out : List ℕ) → join first rs ≡ ok out → All HasText rs
unfolding join
join_texts first [] out h = tt
join_texts first (r ∷ rs) out h =
    let (t, k, h') = >>=-eq-ok r.text _ h in
    let (more, q, _) = >>=-eq-ok (join false rs) _ h' in ((t, k), join_texts false rs more q)

insert_texts :
    (r : Rendered) (rs : List Rendered) → All HasText (insert r rs) → HasText r × All HasText rs
unfolding insert
insert_texts r [] h = h
insert_texts r (q ∷ qs) h = elim (Bool-cases (lex_less r.units q.units)) [
  | inl less ↦ rw less at h
  | inr more ↦
      let k : HasText q × All HasText (insert r qs) = rw more at h in
      let (a, b) = insert_texts r qs k.1 in (a, (k.0, b))
]

sort_texts : (rs : List Rendered) → All HasText (sort rs) → All HasText rs
unfolding sort
sort_texts [] h = tt
sort_texts (r ∷ rs) h = let (a, b) = insert_texts r (sort rs) h in (a, sort_texts rs b)

integer_storable :
    (n : ℤ) (p : List Segment) (out : List ℕ) → integer_text n p ≡ ok out → is_safe n ≡ true
unfolding integer_text
integer_storable n p out h = ground arith

-- A member's text holds those of its name and its value.
member_parts :
    (key : List ℕ) (t : Result Failure (List ℕ))
    → (out : List ℕ) × (member_text key t ≡ ok out)
    → Shaped key × ((out : List ℕ) × (t ≡ ok out))
member_parts key t (out, h) =
    let (k, e, h') = >>=-eq-ok (escape key) _ h in
    let (v, q, _) = >>=-eq-ok t _ h' in (escape-Shaped key k e, (v, q))

object_parts :
    (ms : Members) (p : List Segment) (out : List ℕ)
    → canonicalize_into (object ms) p ≡ ok out
    → (rs : List Rendered) × (rendered ms p ≡ ok rs) × All HasText rs
unfolding canonicalize_into
object_parts ms p out h =
    let (rs, e, h') = >>=-eq-ok (rendered ms p) _ h in
    let (inner, q, _) = >>=-eq-ok (join true (sort rs)) _ h' in
    (rs, e, sort_texts rs (join_texts true (sort rs) inner q))

array_parts :
    (xs : Items) (p : List Segment) (out : List ℕ)
    → canonicalize_into (array xs) p ≡ ok out
    → (inner : List ℕ) × (items_text 0 xs p ≡ ok inner)
unfolding canonicalize_into
array_parts xs p out h = let (inner, e, _) = >>=-eq-ok (items_text 0 xs p) _ h in (inner, e)

cons_parts :
    (v : Json) (xs : Items) (i : ℕ) (p : List Segment) (out : List ℕ)
    → items_text i (cons v xs) p ≡ ok out
    → ((t : List ℕ) × (canonicalize_into v (p ++ index i ∷ []) ≡ ok t))
      × ((more : List ℕ) × (items_text (suc i) xs p ≡ ok more))
unfolding items_text
cons_parts v xs i p out h =
    let (t, e, h') = >>=-eq-ok (canonicalize_into v (p ++ index i ∷ [])) _ h in
    let (more, q, _) = >>=-eq-ok (items_text (suc i) xs p) _ h' in ((t, e), (more, q))

field_parts :
    (key : List ℕ) (v : Json) (ms : Members) (p : List Segment) (rs : List Rendered)
    → rendered (field key v ms) p ≡ ok rs
    → All HasText rs
    → Shaped key
      × ((t : List ℕ) × (canonicalize_into v (p ++ member key ∷ []) ≡ ok t))
      × ((rest : List Rendered) × (rendered ms p ≡ ok rest) × All HasText rest)
unfolding rendered
field_parts key v ms p rs h a =
    let (us, e, h') = >>=-eq-ok (utf16_units key) _ h in
    let (rest, q, h'') = >>=-eq-ok (rendered ms p) _ h' in
    let texts = subst (All HasText) (sym (ok_inj h'')) a in
    let (k, t) = member_parts key (canonicalize_into v (p ++ member key ∷ [])) texts.0 in
    (k, t, (rest, q, texts.1))

-- The values that hold no others.
float_text : (p : List Segment) (out : List ℕ) → canonicalize_into float p ≡ ok out → ⊥
unfolding canonicalize_into
float_text p out h = cc

binary_text : (p : List Segment) (out : List ℕ) → canonicalize_into binary p ≡ ok out → ⊥
unfolding canonicalize_into
binary_text p out h = cc

integer_safe :
    (n : ℤ) (p : List Segment) (out : List ℕ)
    → canonicalize_into (integer n) p ≡ ok out
    → is_safe n ≡ true
unfolding canonicalize_into
integer_safe n p out h = integer_storable n p out h

unsigned_safe :
    (n : ℕ) (p : List Segment) (out : List ℕ)
    → canonicalize_into (unsigned n) p ≡ ok out
    → is_safe (to_int64 n) ≡ true
unfolding canonicalize_into
unsigned_safe n p out h = integer_storable (to_int64 n) p out h

string_text :
    (s : List ℕ) (p : List Segment) (out : List ℕ)
    → canonicalize_into (string s) p ≡ ok out
    → escape s ≡ ok out
unfolding canonicalize_into
string_text s p out h = h

mutual
  storable :
      (v : Json) (p : List Segment) (out : List ℕ) → canonicalize_into v p ≡ ok out → Storable v
  storable null p out h = is_null
  storable float p out h = absurd (float_text p out h)
  storable binary p out h = absurd (binary_text p out h)
  storable (boolean b) p out h = is_boolean b
  storable (integer n) p out h = is_integer n (is_safe-Below53 n (integer_safe n p out h))
  storable (unsigned n) p out h = is_unsigned n (is_safe-CastBelow53 n (unsigned_safe n p out h))
  storable (string s) p out h = is_string s (escape-Shaped s out (string_text s p out h))
  storable (array xs) p out h =
      let (inner, e) = array_parts xs p out h in is_array xs (storable_items xs 0 p inner e)
  storable (object ms) p out h =
      let (rs, e, a) = object_parts ms p out h in is_object ms (storable_members ms p rs e a)

  storable_items :
      (xs : Items) (i : ℕ) (p : List Segment) (out : List ℕ)
      → items_text i xs p ≡ ok out
      → StorableItems xs
  storable_items nil i p out h = no_items
  storable_items (cons v xs) i p out h =
      let (a, b) = cons_parts v xs i p out h in
      more_items v xs (storable v (p ++ index i ∷ []) a.0 a.1) (storable_items xs (suc i) p b.0 b.1)

  storable_members :
      (ms : Members) (p : List Segment) (rs : List Rendered)
      → rendered ms p ≡ ok rs
      → All HasText rs
      → StorableMembers ms
  storable_members end p rs h a = no_members
  storable_members (field key v ms) p rs h a =
      let (k, b, c) = field_parts key v ms p rs h a in
      more_members key v ms k (storable v (p ++ member key ∷ []) b.0 b.1)
        (storable_members ms p c.0 c.1 c.2)

-- A document that has canonical bytes holds no float and nothing that JSON cannot hold; of its
-- integers the signed ones are below 2^53 in absolute value, the unsigned ones are below 2^53 or less
-- than 2^53 below 2^64; and in its strings and names each lead byte of UTF-8 is followed by its
-- continuation bytes, overlong forms and surrogates included.
pub canonical-Storable : (v : Json) (out : List ℕ) → canonicalize v ≡ ok out → Storable v
unfolding canonicalize
canonical-Storable v out h = storable v [] out h
