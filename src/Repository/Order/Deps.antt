-- ===== src/Repository/Order/Deps.antt =====
-- Proofs about cpp/src/repository.h, one round of the ordering loop of `assemble`.
use pg_laswell.Base.{
  ℕ, suc, ◌<◌, true, not, ◌&&◌, ◌≡◌, ◌⊎◌, inl, inr, String, some, List, [], ◌∷◌, ◌++◌, contains,
  length, arith, ==_iff, Option-cases, List-cases, contains-append,
}
use pg_laswell.Base.Counting.{contains-keep, length-keep-lt}
use pg_laswell.Repository.Status.{RepoStatus, is_applied}
use pg_laswell.Repository.Types.{RepoEntry}
use pg_laswell.Repository.Order.{
  find, depends_of, is_met, is_ready, blocked_of, ready_of, unplaced, stuck_problems, Arranged,
  under, arrange,
}

-- One dependency that the repository holds is applied or was placed before.
abbrev pub Met : List RepoEntry → List String → String → Type 0
Met es placed d =
    (e : RepoEntry)
    → find es d ≡ some e
    → (e.status ≡ RepoStatus.applied) ⊎ (contains placed d ≡ true)

applied_of_is_applied : (s : RepoStatus) → is_applied s ≡ true → s ≡ RepoStatus.applied
applied_of_is_applied s h = ground arith

pub is_met_sound :
    (es : List RepoEntry) (placed : List String) (d : String)
    → is_met es placed d ≡ true
    → Met es placed d
unfolding is_met
is_met_sound es placed d h e k = ground (arith, applied_of_is_applied e.status)

pub is_ready-at :
    (es : List RepoEntry) (placed ds : List String) (d : String)
    → is_ready es placed ds ≡ true
    → contains ds d ≡ true
    → is_met es placed d ≡ true
unfolding is_ready
is_ready-at es placed [] d h k = absurd (ground arith)
is_ready-at es placed (x ∷ ds) d h k = ground (arith, is_ready-at es placed ds d, ==_iff x d)

-- What a round finds ready was remaining, and is ready.
pub mem-ready_of :
    (es : List RepoEntry) (placed ids : List String) (id : String)
    → contains (ready_of es placed ids) id
      ≡ (contains ids id && is_ready es placed (depends_of es id))
unfolding ready_of
mem-ready_of es placed ids id = contains-keep (λ i. is_ready es placed (depends_of es i)) id ids

-- A round that places something leaves less.
pub round_shrinks :
    (es : List RepoEntry) (placed ids : List String) (r : String) (rs : List String)
    → ready_of es placed ids ≡ r ∷ rs
    → length (unplaced (placed ++ r ∷ rs) ids) < length ids
round_shrinks es placed ids r rs h =
    length-keep-lt (λ id. not (contains (placed ++ r ∷ rs) id)) r ids
      (ground (arith, mem-ready_of es placed ids r, ==_iff r r))
      (ground (arith, contains-append placed (r ∷ rs) r, ==_iff r r))

-- How a round that returns went: it found nothing ready and stopped, or it placed a level.
pub data Round (fuel : ℕ) (es : List RepoEntry) (placed ids : List String) (a : Arranged)
    : Type 0 where
  stopped :
      ready_of es placed ids ≡ []
      → a.levels ≡ []
      → a.left ≡ ids
      → a.placed_at_end ≡ placed
      → a.problems ≡ stuck_problems (blocked_of es placed ids) ids
      → Round fuel es placed ids a
  placed_level :
      (level : List String) (b : Arranged)
      → ready_of es placed ids ≡ level
      → arrange fuel es (placed ++ level) (unplaced (placed ++ level) ids) ≡ some b
      → a ≡ under level b
      → Round fuel es placed ids a

pub arrange-Round :
    (fuel : ℕ) (es : List RepoEntry) (placed : List String) (id : String) (ids : List String)
    (a : Arranged)
    → arrange (suc fuel) es placed (id ∷ ids) ≡ some a
    → Round fuel es placed (id ∷ ids) a
unfolding arrange
arrange-Round fuel es placed id ids a h = elim (List-cases (ready_of es placed (id ∷ ids))) [
  | inl e ↦ stopped e (ground arith) (ground arith) (ground arith) (ground arith)
  | inr (r, rs, e) ↦
      let rest = arrange fuel es (placed ++ r ∷ rs) (unplaced (placed ++ r ∷ rs) (id ∷ ids)) in
      elim (Option-cases rest) [
        | inl k ↦ absurd (ground arith)
        | inr (b, k) ↦ placed_level (r ∷ rs) b e k (ground arith)
      ]
]
