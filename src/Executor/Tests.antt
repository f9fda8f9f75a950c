-- ===== src/Executor/Tests.antt =====
-- A table of two rows, walks over it, and each theorem at one of them.
use pg_laswell.Base.{
  ℕ, ◌+◌, ◌≤◌, ◌<◌, Bool, true, false, not, ◌&&◌, ◌||◌, ◌≡◌, ◌⊎◌, inl, inr, refl, none, List, [],
  ◌∷◌, ltb, nat_eq, arith, if◌then◌else◌, Bool-cases,
}
use pg_laswell.Executor.Batch.{Table, BatchOutcome, run_paced_batch, fitting, batch_keys, last_key}
use pg_laswell.Executor.Batch.Advance
use pg_laswell.Executor.Batch.Advance.{Lawful, Advances, holds, Rising}
use pg_laswell.Executor.Walk.{
  ExecutorConfig, Reading, no_fault, ours, between, inside, ended, finished, Walk, step, step_in,
  run_backfill,
}
use pg_laswell.Executor.Walk.Complete
use pg_laswell.Executor.Walk.Lost
use pg_laswell.Executor.Walk.Finish

-- Whether the rows with the keys 1 and 2 are still to do.
abbrev Rows : Type 0
Rows = Bool × Bool

abbrev selected : Bool → Bool → List ℕ
selected true _ = 1 ∷ []
selected false true = 2 ∷ []
selected false false = []

abbrev two_rows : Table Rows
two_rows = record {
  pending = λ d k. (nat_eq k 1 && d.0) || (nat_eq k 2 && d.1);
  size = λ _. 1;
  select = λ d c _. selected (d.0 && ltb c 1) (d.1 && ltb c 2);
  apply = λ d ks. (d.0 && not (holds ks 1), d.1 && not (holds ks 2));
  returned = λ _ _. 1;
  mutate = λ d c _. (d, []);
}

selected-Rising : (a b : Bool) (c : ℕ) → Rising c (selected (a && ltb c 1) (b && ltb c 2))
selected-Rising a b c = elim (Bool-cases (a && ltb c 1)) [
  | inl one ↦ rw one (ground arith, tt)
  | inr no_one ↦ rw no_one (elim (Bool-cases (b && ltb c 2)) [
    | inl two ↦ rw two (ground arith, tt)
    | inr no_two ↦ rw no_two tt
  ])
]

selected_complete :
    (a b : Bool) (c k : ℕ)
    → ((nat_eq k 1 && a) || (nat_eq k 2 && b)) ≡ true
    → c < k
    → let ks = selected (a && ltb c 1) (b && ltb c 2) in (holds ks k ≡ true) ⊎ (last_key c ks < k)
unfolding last_key
selected_complete a b c k p h = elim (Bool-cases (a && ltb c 1)) [
  | inl one ↦ rw one (elim (Bool-cases (nat_eq k 1)) [
    | inl here ↦ inl (ground arith)
    | inr there ↦ inr (ground arith)
  ])
  | inr no_one ↦ rw no_one (elim (Bool-cases (b && ltb c 2)) [
    | inl two ↦ rw two (elim (Bool-cases (nat_eq k 2)) [
      | inl here ↦ inl (ground arith)
      | inr there ↦ inr (ground arith)
    ])
    | inr no_two ↦ rw no_two (inr h)
  ])
]

selected_exhausted :
    (a b : Bool) (c k : ℕ)
    → selected (a && ltb c 1) (b && ltb c 2) ≡ []
    → ((nat_eq k 1 && a) || (nat_eq k 2 && b)) ≡ true
    → k ≤ c
selected_exhausted a b c k dry p = elim (Bool-cases (a && ltb c 1)) [
  | inl one ↦ absurd (ground arith)
  | inr no_one ↦ elim (Bool-cases (b && ltb c 2)) [
    | inl two ↦ absurd (ground arith)
    | inr no_two ↦ ground arith
  ]
]

applied_rows :
    (a b : Bool) (ks : List ℕ) (k : ℕ)
    → ((nat_eq k 1 && (a && not (holds ks 1))) || (nat_eq k 2 && (b && not (holds ks 2))))
      ≡ (((nat_eq k 1 && a) || (nat_eq k 2 && b)) && not (holds ks k))
applied_rows a b ks k = elim (Bool-cases (nat_eq k 1)) [
  | inl one ↦ let e : k ≡ 1 = ground arith in rw e (ground arith)
  | inr no_one ↦ elim (Bool-cases (nat_eq k 2)) [
    | inl two ↦ let e : k ≡ 2 = ground arith in rw e (ground arith)
    | inr no_two ↦ rw (no_one, no_two) refl
  ]
]

two_rows-Lawful : Lawful two_rows
two_rows-Lawful = record {
  ordered = λ d c n. selected-Rising d.0 d.1 c;
  complete = λ d c n k p h. selected_complete d.0 d.1 c k p h;
  exhausted = λ d c n k some_rows dry p. selected_exhausted d.0 d.1 c k dry p;
  applied = λ d ks k. applied_rows d.0 d.1 ks k;
}

abbrev one_batch : Rows → ℕ → ℕ → Bool → Rows × BatchOutcome
one_batch d c n _ = run_paced_batch two_rows true 100 d c n

run_paced_batch-Advances_example :
    Advances two_rows.pending (λ d c n _. run_paced_batch two_rows true 100 d c n)
run_paced_batch-Advances_example = Advance.run_paced_batch-Advances two_rows two_rows-Lawful 100

abbrev cfg : ExecutorConfig
cfg = record { batch_rows = 1; batch_cap_rows = 10; commit_interval_ms = 1000 }

abbrev calm : Reading
calm = record {
  stop_before_pause = false;
  pause_expired = false;
  stop_after_pause = false;
  throttled = false;
  fault = no_fault;
  direct_waiters = 0;
  elapsed_ms = 5;
}

abbrev at_start : Walk Rows
at_start = record {
  committed = (true, true);
  recorded = none;
  cursor = 0;
  rows_done = 0;
  rows_committed = 0;
  commits = 0;
  reasons = [];
  phase = between;
}

-- A transaction of two batches, and the batch that finds nothing.
abbrev calm_readings : List Reading
calm_readings = calm ∷ calm ∷ calm ∷ calm ∷ []

abbrev cancelling : Reading
cancelling = record calm { fault = ours }

-- The first batch of a transaction is cancelled, and the walk goes on.
abbrev cancelled_first : List Reading
cancelled_first = calm ∷ cancelling ∷ calm_readings

run_backfill_complete_example :
    Complete.Ending two_rows.pending (run_backfill cfg one_batch cancelled_first at_start)
unfolding step step_in
run_backfill_complete_example =
    Complete.run_backfill_complete two_rows.pending cfg one_batch
      (Advance.run_paced_batch-Advances two_rows two_rows-Lawful 100) (omega arith) cancelled_first
      at_start (tt, (refl, (tt, (tt, (tt, (tt, tt)))))) refl (λ k p. ground arith) tt

-- The second batch of a transaction is cancelled: the walk finishes, and row 1 is not done.
cancelled_second :
    let w = run_backfill cfg one_batch (calm ∷ calm ∷ cancelling ∷ calm_readings) at_start in
    (w.phase ≡ ended finished) × ((w.committed ≡ (true, false)) × (w.rows_committed ≡ 2))
unfolding run_backfill step step_in run_paced_batch fitting batch_keys last_key
cancelled_second = (refl, (refl, refl))

-- That walk, when its first batch has run.
abbrev after_one : Walk Rows
after_one = record at_start { cursor = 1; rows_done = 1; phase = inside (false, true) 1 }

rolled_back_lost_example :
    two_rows.pending (run_backfill cfg one_batch (cancelling ∷ calm_readings) after_one).committed 1
    ≡ true
rolled_back_lost_example =
    Lost.rolled_back_lost two_rows.pending 1 cfg one_batch
      (Advance.run_paced_batch-Advances two_rows two_rows-Lawful 100) cancelling calm_readings
      after_one (false, true) 1 refl refl refl (omega arith)

abbrev just_begun : Walk Rows
just_begun = record at_start { phase = inside (true, true) 0 }

abbrev rows_left : Rows → ℕ → ℕ
rows_left d c = (if d.0 && ltb c 1 then 1 else 0) + (if d.1 && ltb c 2 then 1 else 0)

one_batch_lower :
    (a b : Bool) (c n : ℕ)
    → ((one_batch (a, b) c n true).1.considered ≡ 0)
      ⊎ (rows_left (one_batch (a, b) c n true).0 (one_batch (a, b) c n true).1.cursor
          < rows_left (a, b) c)
unfolding run_paced_batch fitting batch_keys last_key
one_batch_lower a b c n = elim (Bool-cases (a && ltb c 1)) [
  | inl one ↦ inr (rw one (ground arith))
  | inr no_one ↦ elim (Bool-cases (b && ltb c 2)) [
    | inl two ↦ inr (rw (no_one, two) (ground arith))
    | inr no_two ↦ inl (rw (no_one, no_two) refl)
  ]
]

one_batch_plain :
    (d : Rows) (c n : ℕ) (h : Bool)
    → ((one_batch d c n h).1.skipped_only ≡ false) × ((one_batch d c n h).1.commit_first ≡ false)
unfolding run_paced_batch batch_keys
one_batch_plain d c n h = elim (Bool-cases (d.0 && ltb c 1)) [
  | inl one ↦ rw one (refl, refl)
  | inr no_one ↦ elim (Bool-cases (d.1 && ltb c 2)) [
    | inl two ↦ rw (no_one, two) (refl, refl)
    | inr no_two ↦ rw (no_one, no_two) (refl, refl)
  ]
]

one_batch-Progresses : Finish.Progresses rows_left one_batch
one_batch-Progresses = record {
  plain = one_batch_plain;
  lower = λ d c n h. one_batch_lower d.0 d.1 c n;
}

run_backfill_finishes_example :
    (run_backfill cfg one_batch (calm ∷ calm ∷ calm_readings) at_start).phase ≡ ended finished
run_backfill_finishes_example =
    Finish.run_backfill_finishes rows_left cfg one_batch one_batch-Progresses
      (calm ∷ calm ∷ calm_readings) at_start
      (all_calm, (all_calm, (all_calm, (all_calm, (all_calm, (all_calm, tt)))))) (omega arith)
  where
    all_calm : Finish.Calm calm
    all_calm = (refl, (refl, (refl, refl)))
