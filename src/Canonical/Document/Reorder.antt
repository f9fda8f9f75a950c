-- ===== src/Canonical/Document/Reorder.antt =====
-- Proofs about cpp/src/canonical.h, `canonicalize` and the order of members.
use pg_laswell.Base.{ℕ, suc, true, ◌≡◌, ◌≢◌, refl, ap, ap₂, sym, ◌∙◌, List, [], ◌∷◌, ◌++◌}
use pg_laswell.Base.Result.{Result, ok, err, ◌>>=◌}
use pg_laswell.Canonical.Utf8.{Failure, Segment, index, member, utf16_units}
use pg_laswell.Canonical.Document.{
  Json, array, object, Items, nil, cons, Members, end, field, Rendered, insert, sort, join,
  canonicalize_into, items_text, rendered, canonicalize, member_text, bracketed,
}
use pg_laswell.Canonical.Document.Sort.{insert_comm}

mutual
  -- One document is the other with members of objects reordered.
  pub data Reordered : Json → Json → Type 0 where
    same : (v : Json) → Reordered v v
    in_array : {xs ys : Items} → ReorderedItems xs ys → Reordered (array xs) (array ys)
    in_object : {ms ns : Members} → ReorderedMembers ms ns → Reordered (object ms) (object ns)

  pub data ReorderedItems : Items → Items → Type 0 where
    no_items : ReorderedItems nil nil
    items :
        {v w : Json} {xs ys : Items}
        → Reordered v w
        → ReorderedItems xs ys
        → ReorderedItems (cons v xs) (cons w ys)

  pub data ReorderedMembers : Members → Members → Type 0 where
    no_members : ReorderedMembers end end
    members :
        (key : List ℕ) {v w : Json} {ms ns : Members}
        → Reordered v w
        → ReorderedMembers ms ns
        → ReorderedMembers (field key v ms) (field key w ns)
    -- two neighbours whose names decode to different units
    swapped :
        (key key' us vs : List ℕ) (v w : Json) (ms : Members)
        → utf16_units key ≡ ok us
        → utf16_units key' ≡ ok vs
        → us ≢ vs
        → ReorderedMembers (field key v (field key' w ms)) (field key' w (field key v ms))
    chained :
        {ms ns os : Members}
        → ReorderedMembers ms ns
        → ReorderedMembers ns os
        → ReorderedMembers ms os

-- The members rendered and sorted.
abbrev sorted : Members → List Segment → Result Failure (List Rendered)
sorted ms pointer = rendered ms pointer >>= λ rs. ok (sort rs)

abbrev finish : List Rendered → Result Failure (List ℕ)
finish rs = join true rs >>= λ inner. ok (bracketed b'{' b'}' inner)

bind_sort :
    (m : Result Failure (List Rendered))
    → (m >>= λ rs. finish (sort rs)) ≡ ((m >>= λ rs. ok (sort rs)) >>= finish)
bind_sort (ok rs) = refl
bind_sort (err e) = refl

object_text :
    (ms : Members) (p : List Segment) → canonicalize_into (object ms) p ≡ (sorted ms p >>= finish)
unfolding canonicalize_into
object_text ms p = bind_sort (rendered ms p)

-- A member rendered in front of the others.
abbrev render : List ℕ → Result Failure (List ℕ) → List ℕ → Rendered
render key t us = record { units = us; text = member_text key t }

abbrev put :
    List ℕ
    → Result Failure (List ℕ)
    → Result Failure (List ℕ)
    → Result Failure (List Rendered)
    → Result Failure (List Rendered)
put key u t m = u >>= λ us. (m >>= λ rs. ok (insert (render key t us) rs))

put_sorted :
    (key : List ℕ) (u t : Result Failure (List ℕ)) (m : Result Failure (List Rendered))
    → ((u >>= λ us. (m >>= λ rs. ok (render key t us ∷ rs))) >>= λ rs. ok (sort rs))
      ≡ put key u t (m >>= λ rs. ok (sort rs))
unfolding sort
put_sorted key (ok us) t (ok rs) = refl
put_sorted key (ok us) t (err e) = refl
put_sorted key (err e) t m = refl

field_sorted :
    (key : List ℕ) (v : Json) (ms : Members) (p : List Segment)
    → sorted (field key v ms) p
      ≡ put key (utf16_units key) (canonicalize_into v (p ++ member key ∷ [])) (sorted ms p)
unfolding rendered
field_sorted key v ms p =
    put_sorted key (utf16_units key) (canonicalize_into v (p ++ member key ∷ [])) (rendered ms p)

put_comm :
    (key key' us vs : List ℕ) (t t' : Result Failure (List ℕ)) (m : Result Failure (List Rendered))
    → us ≢ vs
    → put key (ok us) t (put key' (ok vs) t' m) ≡ put key' (ok vs) t' (put key (ok us) t m)
put_comm key key' us vs t t' (ok rs) d =
    ap ok (insert_comm (render key t us) (render key' t' vs) rs d)
put_comm key key' us vs t t' (err e) d = refl

swapped_sorted :
    (key key' us vs : List ℕ) (v w : Json) (ms : Members) (p : List Segment)
    → utf16_units key ≡ ok us
    → utf16_units key' ≡ ok vs
    → us ≢ vs
    → sorted (field key v (field key' w ms)) p ≡ sorted (field key' w (field key v ms)) p
swapped_sorted key key' us vs v w ms p h k d =
    rw
      (
        field_sorted key v (field key' w ms) p,
        field_sorted key' w ms p,
        field_sorted key' w (field key v ms) p,
        field_sorted key v ms p,
        h,
        k,
      )
      (put_comm key key' us vs (canonicalize_into v (p ++ member key ∷ []))
        (canonicalize_into w (p ++ member key' ∷ [])) (sorted ms p) d)

array_same :
    (xs ys : Items) (p : List Segment)
    → items_text 0 xs p ≡ items_text 0 ys p
    → canonicalize_into (array xs) p ≡ canonicalize_into (array ys) p
unfolding canonicalize_into
array_same xs ys p h = ap (λ m. m >>= λ inner. ok (bracketed b'[' b']' inner)) h

object_same :
    (ms ns : Members) (p : List Segment)
    → sorted ms p ≡ sorted ns p
    → canonicalize_into (object ms) p ≡ canonicalize_into (object ns) p
object_same ms ns p h = object_text ms p ∙ (ap (λ m. m >>= finish) h ∙ sym (object_text ns p))

cons_same :
    (v w : Json) (xs ys : Items) (i : ℕ) (p : List Segment)
    → canonicalize_into v (p ++ index i ∷ []) ≡ canonicalize_into w (p ++ index i ∷ [])
    → items_text (suc i) xs p ≡ items_text (suc i) ys p
    → items_text i (cons v xs) p ≡ items_text i (cons w ys) p
unfolding items_text
cons_same v w xs ys i p h k = rw (h, k) refl

field_same :
    (key : List ℕ) (v w : Json) (ms ns : Members) (p : List Segment)
    → canonicalize_into v (p ++ member key ∷ []) ≡ canonicalize_into w (p ++ member key ∷ [])
    → sorted ms p ≡ sorted ns p
    → sorted (field key v ms) p ≡ sorted (field key w ns) p
field_same key v w ms ns p h k =
    field_sorted key v ms p
    ∙ (ap₂ (λ t m. put key (utf16_units key) t m) h k ∙ sym (field_sorted key w ns p))

mutual
  Reordered-text :
      {v w : Json}
      → Reordered v w
      → (p : List Segment) → canonicalize_into v p ≡ canonicalize_into w p
  Reordered-text (same v) p = refl
  Reordered-text (in_array {xs} {ys} r) p = array_same xs ys p (reordered_items r 0 p)
  Reordered-text (in_object {ms} {ns} r) p = object_same ms ns p (reordered_members r p)

  reordered_items :
      {xs ys : Items}
      → ReorderedItems xs ys
      → (i : ℕ) (p : List Segment) → items_text i xs p ≡ items_text i ys p
  reordered_items no_items i p = refl
  reordered_items (items {v} {w} {xs} {ys} r rs) i p =
      cons_same v w xs ys i p (Reordered-text r (p ++ index i ∷ [])) (reordered_items rs (suc i) p)

  reordered_members :
      {ms ns : Members} → ReorderedMembers ms ns → (p : List Segment) → sorted ms p ≡ sorted ns p
  reordered_members no_members p = refl
  reordered_members (members key {v} {w} {ms} {ns} r rs) p =
      field_same key v w ms ns p (Reordered-text r (p ++ member key ∷ [])) (reordered_members rs p)
  reordered_members (swapped key key' us vs v w ms h k d) p =
      swapped_sorted key key' us vs v w ms p h k d
  reordered_members (chained r s) p = reordered_members r p ∙ reordered_members s p

-- Reordering the members of objects, at any depth, changes neither the canonical bytes nor the
-- fault that is raised: a signature does not depend on the order in which members are written.
pub Reordered-canonical : (v w : Json) → Reordered v w → canonicalize v ≡ canonicalize w
unfolding canonicalize
Reordered-canonical v w r = Reordered-text r []
