-- ===== src/Executor/Walk/Lost.antt =====
-- Proofs about cpp/src/executor.h, the rollback of a cancelled batch in `run_backfill`.
use pg_laswell.Base.{
  ℕ, ◌+◌, ◌≤◌, Bool, true, ◌≡◌, refl, List, [], ◌∷◌, leb, arith, Bool-cases, inl, inr,
}
use pg_laswell.Executor.Batch.{BatchOutcome}
use pg_laswell.Executor.Batch.Advance.{Advances}
use pg_laswell.Executor.Walk.{
  ExecutorConfig, Reading, Fault, no_fault, ours, other, Phase, between, inside, ended, Walk,
  Decision, go_on, commit_for, CommitReason, interval, lock_waiter, batch_cap, final, group_end,
  phase_after, decide, batch_size, begin, settle, batched, attempt, step_in, step, run_backfill,
}

module _ {Db : Type 0} (pending : Db → ℕ → Bool) (k : ℕ) where
  abbrev StillIn : Phase Db → Type 0
  StillIn (inside d n) = pending d k ≡ true
  StillIn _ = Unit

  -- The row is to do, and the cursor is past it.
  abbrev Passed : Walk Db → Type 0
  Passed w = (pending w.committed k ≡ true) × ((k ≤ w.cursor) × StillIn w.phase)

  committed_anyhow : (reason : CommitReason) → StillIn (phase_after reason)
  committed_anyhow interval = tt
  committed_anyhow lock_waiter = tt
  committed_anyhow batch_cap = tt
  committed_anyhow final = tt
  committed_anyhow group_end = tt

  settle-Passed :
      (dec : Decision) (d : Db) (n : ℕ) (w : Walk Db)
      → pending w.committed k ≡ true
      → k ≤ w.cursor
      → pending d k ≡ true
      → Passed (settle dec d n w)
  settle-Passed go_on d n w p h q = (p, (h, q))
  settle-Passed (commit_for reason) d n w p h q = (q, (h, committed_anyhow reason))

  module _ (cfg : ExecutorConfig) (run_batch : Db → ℕ → ℕ → Bool → Db × BatchOutcome)
      (law : Advances pending run_batch) where
    attempt-Passed :
        (f : Fault) (r : Reading) (d : Db) (n : ℕ) (w : Walk Db)
        → pending w.committed k ≡ true
        → k ≤ w.cursor
        → pending d k ≡ true
        → Passed (attempt cfg run_batch f r d n w)
    unfolding attempt batched
    attempt-Passed ours r d n w p h q = (p, (h, tt))
    attempt-Passed other r d n w p h q = (p, (h, tt))
    attempt-Passed no_fault r d n w p h q =
        let size = batch_size cfg r in
        let far = leb size n in
        let o = (run_batch d w.cursor size far).1 in
        settle-Passed (decide cfg r (n + o.considered) o) (run_batch d w.cursor size far).0
          (n + o.considered)
          (record w { cursor = o.cursor; rows_done = w.rows_done + o.considered }) p
          (omega (arith, law.forward d w.cursor size far)) (law.behind d w.cursor size far k q h)

    begin-Passed :
        (r : Reading) (w : Walk Db)
        → pending w.committed k ≡ true
        → k ≤ w.cursor
        → Passed (begin r w)
    unfolding begin
    begin-Passed r w p h = elim (Bool-cases r.stop_before_pause) [
      | inl a ↦ rw a (p, (h, tt))
      | inr a ↦ rw a (elim (Bool-cases r.pause_expired) [
        | inl b ↦ rw b (p, (h, tt))
        | inr b ↦ rw b (elim (Bool-cases r.stop_after_pause) [
          | inl c ↦ rw c (p, (h, tt))
          | inr c ↦ rw c (p, (h, p))
        ])
      ])
    ]

    step_in-Passed :
        (ph : Phase Db) (r : Reading) (w : Walk Db)
        → w.phase ≡ ph
        → pending w.committed k ≡ true
        → k ≤ w.cursor
        → StillIn ph
        → Passed (step_in cfg run_batch ph r w)
    unfolding step_in
    step_in-Passed between r w e p h q = begin-Passed r w p h
    step_in-Passed (inside d n) r w e p h q = attempt-Passed r.fault r d n w p h q
    step_in-Passed (ended how) r w e p h q = (p, (h, rw e q))

    run-Passed :
        (rs : List Reading) (w : Walk Db) → Passed w → Passed (run_backfill cfg run_batch rs w)
    unfolding run_backfill step
    run-Passed [] w h = h
    run-Passed (r ∷ rs) w h =
        run-Passed rs (step cfg run_batch r w) (step_in-Passed w.phase r w refl h.0 h.1.0 h.1.1)

    -- Where a batch is cancelled for a waiter, with batches that advance as `Advances` says, a row at
    -- or below the cursor that the committed table still has to do, as one that an earlier batch of
    -- the transaction did, is never done: whatever the walk reads afterwards, and also where it ends
    -- as finished.
    pub rolled_back_lost :
        (r : Reading) (rs : List Reading) (w : Walk Db) (d : Db) (n : ℕ)
        → w.phase ≡ inside d n
        → r.fault ≡ ours
        → pending w.committed k ≡ true
        → k ≤ w.cursor
        → pending (run_backfill cfg run_batch (r ∷ rs) w).committed k ≡ true
    unfolding run_backfill step
    rolled_back_lost r rs w d n e f p h = (run-Passed rs (step cfg run_batch r w) once).0
      where
        once : Passed (step cfg run_batch r w)
        once = unfold step step_in attempt in rw (e, f) (p, (h, tt))
