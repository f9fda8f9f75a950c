-- ===== src/Repository/Order/Levels.antt =====
-- Proofs about cpp/src/repository.h, the ordering loop of `assemble` and its levels.
use pg_laswell.Base.{
  ℕ, zero, suc, ◌+◌, ◌≤◌, true, false, not, ◌≡◌, inl, inr, refl, String, some, List, [], ◌∷◌, ◌++◌,
  contains, length, arith, Bool-cases, List-cases, if◌then◌else◌, contains-append, concat,
}
use pg_laswell.Base.Counting.{contains-keep, count-keep, count, count-append, count-zero}
use pg_laswell.Repository.Types.{RepoEntry}
use pg_laswell.Repository.Order.{
  depends_of, is_ready, ready_of, unplaced, Arranged, under, arrange, runnable_ids, order,
  all_placed, none_ready,
}
use pg_laswell.Repository.Order.Deps.{
  Met, is_met_sound, is_ready-at, mem-ready_of, round_shrinks, stopped, placed_level, arrange-Round,
}

arrange_total :
    (fuel : ℕ) (es : List RepoEntry) (placed ids : List String)
    → length ids ≤ fuel
    → (a : Arranged) × (arrange fuel es placed ids ≡ some a)
unfolding arrange
arrange_total zero es placed [] h = (all_placed placed, refl)
arrange_total zero es placed (id ∷ ids) h = absurd (omega arith)
arrange_total (suc fuel) es placed [] h = (all_placed placed, refl)
arrange_total (suc fuel) es placed (id ∷ ids) h =
    elim (List-cases (ready_of es placed (id ∷ ids))) [
      | inl e ↦ (none_ready es placed (id ∷ ids), ground arith)
      | inr (r, rs, e) ↦
          let (a, k) =
            arrange_total fuel es (placed ++ r ∷ rs) (unplaced (placed ++ r ∷ rs) (id ∷ ids))
              (omega (arith, round_shrinks es placed (id ∷ ids) r rs e)) in
          (under (r ∷ rs) a, ground arith)
    ]

-- The ordering loop always ends: as many rounds as there are runnable specifications are enough.
pub order_total : (es : List RepoEntry) → (a : Arranged) × (order es ≡ some a)
unfolding order
order_total es = arrange_total (length (runnable_ids es)) es [] (runnable_ids es) (omega arith)

-- Nothing that remains was placed.
abbrev pub Fresh : List String → List String → Type 0
Fresh placed ids = (x : String) → contains ids x ≡ true → contains placed x ≡ false

pub Fresh-unplaced : (placed ids : List String) → Fresh placed (unplaced placed ids)
Fresh-unplaced placed ids x h = ground (arith, contains-keep (λ i. not (contains placed i)) x ids)

round_count :
    (es : List RepoEntry) (placed ids : List String) (x : String)
    → Fresh placed ids
    → count x (ready_of es placed ids) + count x (unplaced (placed ++ ready_of es placed ids) ids)
      ≡ count x ids
round_count es placed ids x fresh = elim (Bool-cases (contains ids x)) [
  | inl here ↦ ground (
    arith,
    fresh x here,
    ready_count,
    rest_count,
    contains-append placed (ready_of es placed ids) x,
    mem-ready_of es placed ids x,
  )
  | inr away ↦ ground (arith, count-zero x ids away, ready_count, rest_count)
]
  where
    ready_count :
        count x (ready_of es placed ids)
        ≡ (if is_ready es placed (depends_of es x) then count x ids else 0)
    ready_count = unfold ready_of in count-keep (λ i. is_ready es placed (depends_of es i)) x ids

    rest_count :
        count x (unplaced (placed ++ ready_of es placed ids) ids)
        ≡ (if not (contains (placed ++ ready_of es placed ids) x) then count x ids else 0)
    rest_count = count-keep (λ i. not (contains (placed ++ ready_of es placed ids) i)) x ids

round_level :
    (es : List RepoEntry) (placed ids level : List String) (x : String)
    → ready_of es placed ids ≡ level
    → Fresh placed ids
    → count x level + count x (unplaced (placed ++ level) ids) ≡ count x ids
round_level es placed ids level x e fresh = rw e at (round_count es placed ids x fresh)

-- With nothing left the loop is over.
pub arrange-nil :
    (fuel : ℕ) (es : List RepoEntry) (placed : List String) (a : Arranged)
    → arrange fuel es placed [] ≡ some a
    → all_placed placed ≡ a
unfolding arrange
arrange-nil zero es placed a h = cc
arrange-nil (suc fuel) es placed a h = cc

arrange-count :
    (fuel : ℕ) (es : List RepoEntry) (placed ids : List String) (a : Arranged) (x : String)
    → Fresh placed ids
    → arrange fuel es placed ids ≡ some a
    → count x (concat a.levels) + count x a.left ≡ count x ids
arrange-count zero es placed [] a x fresh h = ground (arith, arrange-nil zero es placed a h)
arrange-count zero es placed (id ∷ ids) a x fresh h = absurd (unfold arrange in ground arith)
arrange-count (suc fuel) es placed [] a x fresh h =
    ground (arith, arrange-nil (suc fuel) es placed a h)
arrange-count (suc fuel) es placed (id ∷ ids) a x fresh h =
    elim (arrange-Round fuel es placed id ids a h) [
      | stopped e l f p q ↦ rw (l, f) (omega arith)
      | placed_level level b e k u ↦
          let ih =
            arrange-count fuel es (placed ++ level) (unplaced (placed ++ level) (id ∷ ids)) b x
              (Fresh-unplaced (placed ++ level) (id ∷ ids)) k in
          rw u (
            omega (
              arith,
              ih,
              count-append x level (concat b.levels),
              round_level es placed (id ∷ ids) level x e fresh,
            ))
    ]

-- Every runnable specification is placed in one level, once for each time that it is listed, or is
-- among those left when the loop stopped; no other is placed.
pub order-count :
    (es : List RepoEntry) (a : Arranged) (x : String)
    → order es ≡ some a
    → count x (concat a.levels) + count x a.left ≡ count x (runnable_ids es)
unfolding order
order-count es a x h =
    arrange-count (length (runnable_ids es)) es [] (runnable_ids es) a x (λ _ _. refl) h

-- Every dependency that the repository holds of every member of a level is applied, or stands in
-- an earlier level.
abbrev pub LevelsMet : List RepoEntry → List String → List (List String) → Type 0
LevelsMet es placed [] = Unit
LevelsMet es placed (level ∷ levels) =
    ((id d : String)
      → contains level id ≡ true
      → contains (depends_of es id) d ≡ true
      → Met es placed d)
    × LevelsMet es (placed ++ level) levels

round-Met :
    (es : List RepoEntry) (placed ids : List String) (id d : String)
    → contains (ready_of es placed ids) id ≡ true
    → contains (depends_of es id) d ≡ true
    → Met es placed d
round-Met es placed ids id d h k =
    is_met_sound es placed d
      (is_ready-at es placed (depends_of es id) d (ground (arith, mem-ready_of es placed ids id)) k)

arrange_met :
    (fuel : ℕ) (es : List RepoEntry) (placed ids : List String) (a : Arranged)
    → arrange fuel es placed ids ≡ some a
    → LevelsMet es placed a.levels
arrange_met zero es placed [] a h = rw (← arrange-nil zero es placed a h) tt
arrange_met zero es placed (id ∷ ids) a h = absurd (unfold arrange in ground arith)
arrange_met (suc fuel) es placed [] a h = rw (← arrange-nil (suc fuel) es placed a h) tt
arrange_met (suc fuel) es placed (id ∷ ids) a h = elim (arrange-Round fuel es placed id ids a h) [
  | stopped e l f p q ↦ rw l tt
  | placed_level level b e k u ↦ rw u (
    λ i d m. round-Met es placed (id ∷ ids) i d (rw e m),
    arrange_met fuel es (placed ++ level) (unplaced (placed ++ level) (id ∷ ids)) b k,
  )
]

-- In the order that a listing gives, every dependency that the repository holds of a member of a
-- level is applied or stands in an earlier level.
pub order_met : (es : List RepoEntry) (a : Arranged) → order es ≡ some a → LevelsMet es [] a.levels
unfolding order
order_met es a h = arrange_met (length (runnable_ids es)) es [] (runnable_ids es) a h
