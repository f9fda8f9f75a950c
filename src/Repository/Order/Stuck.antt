-- ===== src/Repository/Order/Stuck.antt =====
-- Proofs about cpp/src/repository.h, the ordering loop of `assemble` where it stops early.
use pg_laswell.Base.{
  ℕ, zero, suc, true, false, not, ◌||◌, ◌≡◌, ◌≢◌, ◌↔◌, inl, inr, refl, String, some, List, [], ◌∷◌,
  ◌++◌, contains, length, arith, ==_refl, Bool-cases, Option-cases, List-cases, contains-append,
}
use pg_laswell.Base.Counting.{contains-keep}
use pg_laswell.Repository.Status.{is_applied}
use pg_laswell.Repository.Types.{RepoEntry}
use pg_laswell.Repository.Order.{
  find, depends_of, is_met, is_ready, ready_of, unplaced, Arranged, arrange, runnable_ids, order,
  OrderProblem, stuck_problems, blocked_of,
}
use pg_laswell.Repository.Order.Deps.{mem-ready_of, stopped, placed_level, arrange-Round}
use pg_laswell.Repository.Order.Levels.{arrange-nil}

-- A dependency that keeps a specification from being placed: the repository holds it, it is not
-- applied, and it was not placed.
pub record Waits (es : List RepoEntry) (placed : List String) (id : String) : Type 0 where
  pub on : String
  pub entry : RepoEntry
  pub declared : contains (depends_of es id) on ≡ true
  pub held : find es on ≡ some entry
  pub unapplied : is_applied entry.status ≡ false
  pub not_placed : contains placed on ≡ false

is_met-false :
    (es : List RepoEntry) (placed : List String) (d : String)
    → is_met es placed d ≡ false
    → (e : RepoEntry) × (find es d ≡ some e)
      × (is_applied e.status ≡ false)
      × (contains placed d ≡ false)
unfolding is_met
is_met-false es placed d h = elim (Option-cases (find es d)) [
  | inl k ↦ absurd (ground arith)
  | inr (e, k) ↦ (e, k, ground arith, ground arith)
]

unmet_dependency :
    (es : List RepoEntry) (placed ds : List String)
    → is_ready es placed ds ≡ false
    → (d : String) × (contains ds d ≡ true) × (is_met es placed d ≡ false)
unfolding is_ready
unmet_dependency es placed [] h = absurd (ground arith)
unmet_dependency es placed (d ∷ ds) h = elim (Bool-cases (is_met es placed d)) [
  | inl met ↦ let (x, m, u) = unmet_dependency es placed ds (ground arith) in (x, ground arith, u)
  | inr unmet ↦ (d, ground (arith, ==_refl d), unmet)
]

waits :
    (es : List RepoEntry) (placed ids : List String) (id : String)
    → ready_of es placed ids ≡ []
    → contains ids id ≡ true
    → Waits es placed id
waits es placed ids id e m =
    let (d, declared, unmet) =
      unmet_dependency es placed (depends_of es id)
        (ground (arith, mem-ready_of es placed ids id)) in
    let (x, held, unapplied, not_placed) = is_met-false es placed d unmet in
    record {
      on = d;
      entry = x;
      declared = declared;
      held = held;
      unapplied = unapplied;
      not_placed = not_placed;
    }

-- What the end of the loop knows.
pub record Ended (es : List RepoEntry) (ids : List String) (a : Arranged) : Type 0 where
  pub waiting : (id : String) → contains a.left id ≡ true → Waits es a.placed_at_end id
  pub accounted :
      (x : String)
      → contains ids x ≡ true
      → (contains a.placed_at_end x || contains a.left x) ≡ true
  pub said :
      (a.left ≢ []) → a.problems ≡ stuck_problems (blocked_of es a.placed_at_end a.left) a.left
  pub quiet : a.left ≡ [] → a.problems ≡ []

abbrev Inv : List String → List String → List String → Type 0
Inv all placed ids =
    (x : String) → contains all x ≡ true → (contains placed x || contains ids x) ≡ true

arrange-Ended :
    (all : List String) (fuel : ℕ) (es : List RepoEntry) (placed ids : List String) (a : Arranged)
    → Inv all placed ids
    → arrange fuel es placed ids ≡ some a
    → Ended es all a
arrange-Ended all fuel es placed [] a inv h = rw (← arrange-nil fuel es placed a h) (record {
  waiting = λ id m. absurd (ground arith);
  accounted = inv;
  said = λ n. absurd (n refl);
  quiet = λ _. refl;
})
arrange-Ended all zero es placed (id ∷ ids) a inv h = absurd (unfold arrange in ground arith)
arrange-Ended all (suc fuel) es placed (id ∷ ids) a inv h =
    elim (arrange-Round fuel es placed id ids a h) [
      | stopped e l f p q ↦ record {
        waiting = λ x m. rw p (waits es placed (id ∷ ids) x e (rw f at m));
        accounted = λ x m. rw (p, f) (inv x m);
        said = λ _. rw (p, f) q;
        quiet = λ n. cc (n, f);
      }
      | placed_level level b e k u ↦
          let ih =
            arrange-Ended all fuel es (placed ++ level) (unplaced (placed ++ level) (id ∷ ids)) b
              (λ x m. ground (
                arith,
                inv x m,
                contains-append placed level x,
                contains-keep (λ i. not (contains (placed ++ level) i)) x (id ∷ ids),
              ))
              k in
          rw u (record {
            waiting = ih.waiting;
            accounted = ih.accounted;
            said = ih.said;
            quiet = ih.quiet;
          })
    ]

pub order-Ended :
    (es : List RepoEntry) (a : Arranged) → order es ≡ some a → Ended es (runnable_ids es) a
unfolding order
order-Ended es a h =
    arrange-Ended (runnable_ids es) (length (runnable_ids es)) es [] (runnable_ids es) a (λ x m. m)
      h

-- Whatever is left when the loop stops waits on a dependency that the repository holds, that is
-- not applied and that was not placed; and something is left exactly when a problem is said.
pub order_left-Waits :
    (es : List RepoEntry) (a : Arranged)
    → order es ≡ some a
    → ((id : String) → contains a.left id ≡ true → Waits es a.placed_at_end id)
      × ((a.left ≡ []) ↔ (a.problems ≡ []))
order_left-Waits es a h =
    let ended = order-Ended es a h in
    (
      ended.waiting,
      (
        ended.quiet,
        λ n. elim (List-cases a.left) [
          | inl e ↦ e
          | inr (x, xs, e) ↦
              absurd (
                never (blocked_of es a.placed_at_end a.left) a.left (ended.said (λ k. cc (k, e))) n)
        ],
      ),
    )
  where
    never :
        (b : List OrderProblem) (ids : List String)
        → a.problems ≡ stuck_problems b ids
        → a.problems ≡ []
        → ⊥
    never [] ids p q = unfold stuck_problems in cc
    never (x ∷ b) ids p q = unfold stuck_problems in cc
