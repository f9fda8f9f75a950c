-- ===== src/Executor/Walk/Finish.antt =====
-- Proofs about cpp/src/executor.h, the end of the loop of `run_backfill`.
use pg_laswell.Base.{
  ℕ, suc, ◌+◌, ◌*◌, ◌≤◌, ◌<◌, Bool, false, ◌≡◌, ◌⊎◌, inl, inr, refl, List, [], ◌∷◌, leb, arith,
  length, All,
}
use pg_laswell.Executor.Batch.{BatchOutcome}
use pg_laswell.Executor.Walk.{
  ExecutorConfig, Reading, no_fault, Phase, between, inside, ended, finished, cancelled, aborted,
  failed, Walk, Decision, go_on, commit_for, interval, lock_waiter, batch_cap, final, group_end,
  decide, batch_size, begin, settle, batched, attempt, step_in, step, run_backfill,
}

-- Nothing asks the walk to stop, and no statement fails.
abbrev pub Calm : Reading → Type 0
Calm r =
    (r.stop_before_pause ≡ false)
    × ((r.pause_expired ≡ false) × ((r.stop_after_pause ≡ false) × (r.fault ≡ no_fault)))

-- `left` bounds the rows that a batch can still consider; one that considers some lowers it.
pub record Progresses {Db : Type 0} (left : Db → ℕ → ℕ)
    (run_batch : Db → ℕ → ℕ → Bool → Db × BatchOutcome) : Type 0 where
  pub plain :
      (d : Db) (c n : ℕ) (h : Bool)
      → ((run_batch d c n h).1.skipped_only ≡ false) × ((run_batch d c n h).1.commit_first ≡ false)
  pub lower :
      (d : Db) (c n : ℕ) (h : Bool)
      → ((run_batch d c n h).1.considered ≡ 0)
        ⊎ (left (run_batch d c n h).0 (run_batch d c n h).1.cursor < left d c)

decide_plain :
    (cfg : ExecutorConfig) (r : Reading) (n : ℕ) (o : BatchOutcome)
    → o.skipped_only ≡ false
    → o.commit_first ≡ false
    → o.considered ≡ 0
    → decide cfg r n o ≡ commit_for final
unfolding decide
decide_plain cfg r n o s f z = ground arith

module _ {Db : Type 0} (left : Db → ℕ → ℕ) where
  -- The walk runs, and so many steps are enough for it, or it has finished.
  abbrev pub Within : Phase Db → Db → ℕ → ℕ → Type 0
  Within between committed c m = 2 + 2 * left committed c ≤ m
  Within (inside d n) committed c m = 1 + 2 * left d c ≤ m
  Within (ended finished) committed c m = Unit
  Within (ended _) committed c m = ⊥

  abbrev pub InReach : Walk Db → ℕ → Type 0
  InReach w m = Within w.phase w.committed w.cursor m

  settle-InReach :
      (dec : Decision) (d : Db) (n m : ℕ) (w : Walk Db)
      → (dec ≡ commit_for final) ⊎ (2 + 2 * left d w.cursor ≤ m)
      → InReach (settle dec d n w) m
  settle-InReach go_on d n m w (inl h) = absurd (cc)
  settle-InReach go_on d n m w (inr h) = omega (arith, h)
  settle-InReach (commit_for final) d n m w h = tt
  settle-InReach (commit_for interval) d n m w (inl h) = absurd (reasons_differ h)
    where
      reasons_differ : commit_for interval ≡ commit_for final → ⊥
      reasons_differ e = ground arith
  settle-InReach (commit_for interval) d n m w (inr h) = h
  settle-InReach (commit_for lock_waiter) d n m w (inl h) = absurd (ground arith)
  settle-InReach (commit_for lock_waiter) d n m w (inr h) = h
  settle-InReach (commit_for batch_cap) d n m w (inl h) = absurd (ground arith)
  settle-InReach (commit_for batch_cap) d n m w (inr h) = h
  settle-InReach (commit_for group_end) d n m w (inl h) = absurd (ground arith)
  settle-InReach (commit_for group_end) d n m w (inr h) = h

  module _ (cfg : ExecutorConfig) (run_batch : Db → ℕ → ℕ → Bool → Db × BatchOutcome)
      (law : Progresses left run_batch) where
    batch-InReach :
        (r : Reading) (d : Db) (n m : ℕ) (w : Walk Db)
        → 1 + 2 * left d w.cursor ≤ suc m
        → InReach (attempt cfg run_batch no_fault r d n w) m
    unfolding attempt batched
    batch-InReach r d n m w h =
        let size = batch_size cfg r in
        let far = leb size n in
        let o = (run_batch d w.cursor size far).1 in
        settle-InReach (decide cfg r (n + o.considered) o) (run_batch d w.cursor size far).0
          (n + o.considered) m
          (record w { cursor = o.cursor; rows_done = w.rows_done + o.considered })
          (elim (law.lower d w.cursor size far) [
            | inl none_left ↦ inl (
                decide_plain cfg r (n + o.considered) o (law.plain d w.cursor size far).0
                  (law.plain d w.cursor size far).1 none_left)
            | inr less ↦ inr (omega (arith, less, h))
          ])

    step_in-InReach :
        (ph : Phase Db) (r : Reading) (w : Walk Db) (m : ℕ)
        → w.phase ≡ ph
        → Calm r
        → Within ph w.committed w.cursor (suc m)
        → InReach (step_in cfg run_batch ph r w) m
    unfolding step_in begin
    step_in-InReach between r w m e calm h = rw (calm.0, calm.1.0, calm.1.1.0) (omega (arith, h))
    step_in-InReach (inside d n) r w m e calm h = rw (calm.1.1.1) (batch-InReach r d n m w h)
    step_in-InReach (ended finished) r w m e calm h = rw e tt
    step_in-InReach (ended cancelled) r w m e calm h = absurd h
    step_in-InReach (ended aborted) r w m e calm h = absurd h
    step_in-InReach (ended failed) r w m e calm h = absurd h

    -- As long as nothing asks the walk to stop, no pause lasts too long and no statement fails, no
    -- batch only skips finished groups or asks to commit first, and each batch that considers rows
    -- lowers a bound on those that are left, twice as many turns as the bound, and two more, end the
    -- walk as finished, whatever the pace that it is held to.
    pub run_backfill_finishes :
        (rs : List Reading) (w : Walk Db)
        → All Calm rs
        → InReach w (length rs)
        → (run_backfill cfg run_batch rs w).phase ≡ ended finished
    unfolding run_backfill step
    run_backfill_finishes [] w calm h = at_end w.phase h
      where
        at_end : (ph : Phase Db) → Within ph w.committed w.cursor 0 → ph ≡ ended finished
        at_end between h = absurd (omega (arith, h))
        at_end (inside d n) h = absurd (omega (arith, h))
        at_end (ended finished) h = refl
        at_end (ended cancelled) h = absurd h
        at_end (ended aborted) h = absurd h
        at_end (ended failed) h = absurd h
    run_backfill_finishes (r ∷ rs) w calm h =
        run_backfill_finishes rs (step cfg run_batch r w) calm.1
          (step_in-InReach w.phase r w (length rs) refl calm.0 h)
