-- ===== src/Executor/Walk/Pace.antt =====
-- Proofs about cpp/src/executor.h, the commit triggers and the counters of `run_backfill`.
use pg_laswell.Base.{
  ℕ, ◌+◌, ◌≤◌, ◌<◌, Bool, ◌≡◌, inl, inr, refl, List, [], ◌∷◌, leb, arith, Bool-cases,
}
use pg_laswell.Executor.Batch.{BatchOutcome}
use pg_laswell.Executor.Walk.{
  ExecutorConfig, Reading, Fault, no_fault, ours, other, Phase, between, inside, ended, finished,
  Walk, Decision, go_on, commit_for, CommitReason, interval, lock_waiter, batch_cap, final,
  group_end, phase_after, trigger, decide, batch_size, begin, settle, batched, attempt, step_in,
  step, run_backfill,
}
use pg_laswell.Executor.Walk.Complete.{LosesNothing, Undisturbed}

go_on_quiet :
    (cfg : ExecutorConfig) (r : Reading) (n : ℕ) (o : BatchOutcome)
    → decide cfg r n o ≡ go_on
    → (r.direct_waiters ≡ 0) × ((r.elapsed_ms < cfg.commit_interval_ms) × (n < cfg.batch_cap_rows))
unfolding decide trigger
go_on_quiet cfg r n o h = ground arith

module _ {Db : Type 0} where
  -- The rows that the walk reports as kept, against all that it did.
  abbrev pub Tally : Phase Db → ℕ → ℕ → Type 0
  Tally between kept all = kept ≡ all
  Tally (inside d n) kept all = kept + n ≡ all
  Tally (ended finished) kept all = kept ≡ all
  Tally (ended _) kept all = kept ≤ all

  abbrev pub Honest : Walk Db → Type 0
  Honest w = Tally w.phase w.rows_committed w.rows_done

module _ {Db : Type 0} (cfg : ExecutorConfig)
    (run_batch : Db → ℕ → ℕ → Bool → Db × BatchOutcome) where
  inside_inj : {d e : Db} {m n : ℕ} → ◌≡◌ {A = Phase Db} (inside d m) (inside e n) → m ≡ n
  inside_inj h = cc

  phase_after_open : (reason : CommitReason) (d : Db) (n : ℕ) → phase_after reason ≡ inside d n → ⊥
  phase_after_open interval d n e = cc
  phase_after_open lock_waiter d n e = cc
  phase_after_open batch_cap d n e = cc
  phase_after_open final d n e = cc
  phase_after_open group_end d n e = cc

  -- What lets a transaction stay open.
  abbrev pub Quiet : Reading → ℕ → Type 0
  Quiet r n =
      (r.direct_waiters ≡ 0) × ((r.elapsed_ms < cfg.commit_interval_ms) × (n < cfg.batch_cap_rows))

  settle-Quiet :
      (r : Reading) (dec : Decision) (d e : Db) (m n : ℕ) (w : Walk Db)
      → (dec ≡ go_on → Quiet r m)
      → (settle dec d m w).phase ≡ inside e n
      → Quiet r n
  settle-Quiet r go_on d e m n w q h = rw (← inside_inj h) (q refl)
  settle-Quiet r (commit_for reason) d e m n w q h = absurd (phase_after_open reason e n h)

  step_in-Quiet :
      (ph : Phase Db) (r : Reading) (w : Walk Db) (d e : Db) (m n : ℕ)
      → ph ≡ inside d m
      → (step_in cfg run_batch ph r w).phase ≡ inside e n
      → Quiet r n
  step_in-Quiet between r w d e m n k h = absurd (cc)
  step_in-Quiet (ended how) r w d e m n k h = absurd (cc)
  step_in-Quiet (inside d' m') r w d e m n k h = from r.fault (unfold step_in in h)
    where
      from : (f : Fault) → (attempt cfg run_batch f r d' m' w).phase ≡ inside e n → Quiet r n
      from ours h = absurd (unfold attempt in cc)
      from other h = absurd (unfold attempt in cc)
      from no_fault h =
          let size = batch_size cfg r in
          let o = (run_batch d' w.cursor size (leb size m')).1 in
          settle-Quiet r (decide cfg r (m' + o.considered) o)
            (run_batch d' w.cursor size (leb size m')).0 e (m' + o.considered) n
            (record w { cursor = o.cursor; rows_done = w.rows_done + o.considered })
            (go_on_quiet cfg r (m' + o.considered) o) (unfold attempt batched in h)

  -- A batch leaves its transaction open only where it saw no session wait, the transaction is
  -- younger than the commit interval, and it holds fewer rows than the cap.
  pub step_yields :
      (r : Reading) (w : Walk Db) (d e : Db) (m n : ℕ)
      → w.phase ≡ inside d m
      → (step cfg run_batch r w).phase ≡ inside e n
      → (r.direct_waiters ≡ 0)
        × ((r.elapsed_ms < cfg.commit_interval_ms) × (n < cfg.batch_cap_rows))
  unfolding step
  step_yields r w d e m n at h = step_in-Quiet w.phase r w d e m n at h

  settle-Honest :
      (dec : Decision) (d : Db) (n : ℕ) (w : Walk Db)
      → w.rows_committed + n ≡ w.rows_done
      → Honest (settle dec d n w)
  settle-Honest go_on d n w h = h
  settle-Honest (commit_for interval) d n w h = refl
  settle-Honest (commit_for lock_waiter) d n w h = refl
  settle-Honest (commit_for batch_cap) d n w h = refl
  settle-Honest (commit_for final) d n w h = refl
  settle-Honest (commit_for group_end) d n w h = refl

  begin-Honest : (r : Reading) (w : Walk Db) → w.rows_committed ≡ w.rows_done → Honest (begin r w)
  unfolding begin
  begin-Honest r w h = elim (Bool-cases r.stop_before_pause) [
    | inl a ↦ rw a (omega (arith, h))
    | inr a ↦ rw a (elim (Bool-cases r.pause_expired) [
      | inl b ↦ rw b (omega (arith, h))
      | inr b ↦ rw b (elim (Bool-cases r.stop_after_pause) [
        | inl c ↦ rw c (omega (arith, h))
        | inr c ↦ rw c (omega (arith, h))
      ])
    ])
  ]

  attempt-Honest :
      (f : Fault) (r : Reading) (d : Db) (n : ℕ) (w : Walk Db)
      → LosesNothing f (inside d n)
      → w.rows_committed + n ≡ w.rows_done
      → Honest (attempt cfg run_batch f r d n w)
  unfolding attempt batched
  attempt-Honest ours r d n w clean h = omega (arith, h, clean)
  attempt-Honest other r d n w clean h = omega (arith, h)
  attempt-Honest no_fault r d n w clean h =
      let size = batch_size cfg r in
      let o = (run_batch d w.cursor size (leb size n)).1 in
      settle-Honest (decide cfg r (n + o.considered) o) (run_batch d w.cursor size (leb size n)).0
        (n + o.considered) (record w { cursor = o.cursor; rows_done = w.rows_done + o.considered })
        (omega (arith, h))

  step_in-Honest :
      (ph : Phase Db) (r : Reading) (w : Walk Db)
      → w.phase ≡ ph
      → LosesNothing r.fault ph
      → Tally ph w.rows_committed w.rows_done
      → Honest (step_in cfg run_batch ph r w)
  unfolding step_in
  step_in-Honest (ended how) r w e clean h = rw e h
  step_in-Honest between r w e clean h = begin-Honest r w h
  step_in-Honest (inside d n) r w e clean h = attempt-Honest r.fault r d n w clean h

  -- Of a walk whose counts agree so at the start: the rows that it reports as committed are those of
  -- its committed batches, which between transactions, and at its end as finished, is all that it did,
  -- and within one all but the rows of that transaction, as long as no batch is cancelled behind
  -- another one of its transaction.
  pub run_backfill_tally :
      (rs : List Reading) (w : Walk Db)
      → Undisturbed cfg run_batch rs w
      → Honest w
      → Honest (run_backfill cfg run_batch rs w)
  unfolding run_backfill step
  run_backfill_tally [] w clean h = h
  run_backfill_tally (r ∷ rs) w clean h =
      run_backfill_tally rs (step cfg run_batch r w) clean.1
        (step_in-Honest w.phase r w refl clean.0 h)
