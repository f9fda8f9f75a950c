-- ===== src/Executor/Walk/Complete.antt =====
-- Proofs about cpp/src/executor.h, the rows and the recorded cursor of `run_backfill`.
use pg_laswell.Base.{
  ℕ, ◌+◌, ◌≤◌, ◌<◌, Bool, true, false, ◌≡◌, ◌≢◌, refl, Option, none, some, List, [], ◌∷◌, leb,
  arith, inl, inr, Bool-cases,
}
use pg_laswell.Executor.Batch.{BatchOutcome}
use pg_laswell.Executor.Batch.Advance.{Advances}
use pg_laswell.Executor.Walk.{
  ExecutorConfig, Reading, Fault, no_fault, ours, other, finished, cancelled, aborted, failed,
  Phase, between, inside, ended, Walk, Decision, go_on, commit_for, interval, lock_waiter,
  batch_cap, final, group_end, trigger, decide, batch_size, begin, settle, batched, attempt,
  step_in, step, run_backfill,
}

go_on_considered :
    (cfg : ExecutorConfig) (r : Reading) (n : ℕ) (o : BatchOutcome)
    → decide cfg r n o ≡ go_on
    → 0 < o.considered
unfolding decide trigger
go_on_considered cfg r n o h = ground arith

trigger_final : (cfg : ExecutorConfig) (r : Reading) (n : ℕ) → trigger cfg r n ≢ commit_for final
unfolding trigger
trigger_final cfg r n h = ground arith

final_none :
    (cfg : ExecutorConfig) (r : Reading) (n : ℕ) (o : BatchOutcome)
    → decide cfg r n o ≡ commit_for final
    → (o.considered ≡ 0) × (o.skipped_only ≡ false) × (o.commit_first ≡ false)
unfolding decide
final_none cfg r n o h = ground (arith, trigger_final cfg r n)

module _ {Db : Type 0} where
  -- Whether the next step rolls back nothing that an earlier batch did.
  abbrev pub LosesNothing : Fault → Phase Db → Type 0
  LosesNothing ours (inside d n) = n ≡ 0
  LosesNothing _ _ = Unit

  -- No batch is cancelled for a waiter behind another one of its transaction.
  abbrev pub Undisturbed :
      ExecutorConfig → (Db → ℕ → ℕ → Bool → Db × BatchOutcome) → List Reading → Walk Db → Type 0
  Undisturbed cfg run_batch [] w = Unit
  Undisturbed cfg run_batch (r ∷ rs) w =
      LosesNothing r.fault w.phase × Undisturbed cfg run_batch rs (step cfg run_batch r w)

module _ {Db : Type 0} (pending : Db → ℕ → Bool) where
  -- Everything at or below a cursor is done.
  abbrev pub Covers : Db → ℕ → Type 0
  Covers d c = (k : ℕ) → pending d k ≡ true → c < k

  abbrev pub Nothing : Db → Type 0
  Nothing d = (k : ℕ) → pending d k ≡ false

  -- The key in laswell.backfill_cursor is one to resume from.
  abbrev pub Resumable : Option ℕ → Db → Type 0
  Resumable none d = Unit
  Resumable (some c) d = Covers d c

  abbrev InPhase : Phase Db → Db → ℕ → Type 0
  InPhase between committed c = Covers committed c
  InPhase (inside d n) committed c = Covers d c × (n ≡ 0 → Covers committed c)
  InPhase (ended finished) committed c = Nothing committed
  InPhase (ended _) committed c = Unit

  abbrev Safe : Walk Db → Type 0
  Safe w = Resumable w.recorded w.committed × InPhase w.phase w.committed w.cursor

  abbrev pub Ending : Walk Db → Type 0
  Ending w = Resumable w.recorded w.committed × (w.phase ≡ ended finished → Nothing w.committed)

  settle-Safe :
      (dec : Decision) (d : Db) (n : ℕ) (w : Walk Db)
      → (dec ≡ go_on → 0 < n)
      → (dec ≡ commit_for final → (k : ℕ) → pending d k ≡ true → k ≤ w.cursor)
      → Covers d w.cursor
      → Resumable w.recorded w.committed
      → Safe (settle dec d n w)
  settle-Safe go_on d n w some_rows none_left cov kept =
      (kept, (cov, λ e. absurd (omega (arith, some_rows refl))))
  settle-Safe (commit_for interval) d n w some_rows none_left cov kept = (cov, cov)
  settle-Safe (commit_for lock_waiter) d n w some_rows none_left cov kept = (cov, cov)
  settle-Safe (commit_for batch_cap) d n w some_rows none_left cov kept = (cov, cov)
  settle-Safe (commit_for group_end) d n w some_rows none_left cov kept = (cov, cov)
  settle-Safe (commit_for final) d n w some_rows none_left cov kept = (
    cov,
    λ k. elim (Bool-cases (pending d k)) [
      | inl p ↦ absurd (omega (arith, cov k p, none_left refl k p))
      | inr p ↦ p
    ],
  )

  begin-Safe :
      (r : Reading) (w : Walk Db)
      → Resumable w.recorded w.committed
      → Covers w.committed w.cursor
      → Safe (begin r w)
  unfolding begin
  begin-Safe r w kept cov = elim (Bool-cases r.stop_before_pause) [
    | inl a ↦ rw a (kept, tt)
    | inr a ↦ rw a (elim (Bool-cases r.pause_expired) [
      | inl b ↦ rw b (kept, tt)
      | inr b ↦ rw b (elim (Bool-cases r.stop_after_pause) [
        | inl c ↦ rw c (kept, tt)
        | inr c ↦ rw c (kept, (cov, λ _. cov))
      ])
    ])
  ]

  module _ (cfg : ExecutorConfig) (run_batch : Db → ℕ → ℕ → Bool → Db × BatchOutcome)
      (law : Advances pending run_batch) (positive : 0 < cfg.batch_rows) where
    batch_size_pos : (r : Reading) → 0 < batch_size cfg r
    batch_size_pos r = elim (Bool-cases r.throttled) [
      | inl e ↦ rw e (omega arith)
      | inr e ↦ rw e positive
    ]

    attempt-Safe :
        (f : Fault) (r : Reading) (d : Db) (n : ℕ) (w : Walk Db)
        → LosesNothing f (inside d n)
        → Resumable w.recorded w.committed
        → Covers d w.cursor
        → (n ≡ 0 → Covers w.committed w.cursor)
        → Safe (attempt cfg run_batch f r d n w)
    unfolding attempt batched
    attempt-Safe ours r d n w clean kept cov fresh = (kept, fresh clean)
    attempt-Safe other r d n w clean kept cov fresh = (kept, tt)
    attempt-Safe no_fault r d n w clean kept cov fresh =
        let size = batch_size cfg r in
        let h = leb size n in
        let o = (run_batch d w.cursor size h).1 in
        settle-Safe (decide cfg r (n + o.considered) o) (run_batch d w.cursor size h).0
          (n + o.considered)
          (record w { cursor = o.cursor; rows_done = w.rows_done + o.considered })
          (λ e. omega (arith, go_on_considered cfg r (n + o.considered) o e))
          (λ e k p.
            let (none_left, skipped, first) = final_none cfg r (n + o.considered) o e in
            law.final d w.cursor size h k (batch_size_pos r) none_left skipped first p)
          (λ k p.
            let (was, place) = law.covered d w.cursor size h k p in
            elim place [ inl below ↦ absurd (omega (arith, cov k was)) | inr above ↦ above ])
          kept

    step_in-Safe :
        (ph : Phase Db) (r : Reading) (w : Walk Db)
        → w.phase ≡ ph
        → LosesNothing r.fault ph
        → Resumable w.recorded w.committed
        → InPhase ph w.committed w.cursor
        → Safe (step_in cfg run_batch ph r w)
    unfolding step_in
    step_in-Safe between r w e clean kept at = begin-Safe r w kept at
    step_in-Safe (inside d n) r w e clean kept at =
        attempt-Safe r.fault r d n w clean kept at.0 at.1
    step_in-Safe (ended how) r w e clean kept at = (kept, rw e at)

    run-Safe :
        (rs : List Reading) (w : Walk Db)
        → Undisturbed cfg run_batch rs w
        → Safe w
        → Safe (run_backfill cfg run_batch rs w)
    unfolding run_backfill step
    run-Safe [] w clean safe = safe
    run-Safe (r ∷ rs) w clean safe =
        run-Safe rs (step cfg run_batch r w) clean.1
          (step_in-Safe w.phase r w refl clean.0 safe.0 safe.1)

    Safe-Ending : (w : Walk Db) → Safe w → Ending w
    Safe-Ending w safe = (safe.0, λ e. at_end w.phase e safe.1)
      where
        at_end :
            (ph : Phase Db)
            → ph ≡ ended finished
            → InPhase ph w.committed w.cursor
            → Nothing w.committed
        at_end between e at = absurd (cc)
        at_end (inside d n) e at = absurd (cc)
        at_end (ended finished) e at = at
        at_end (ended cancelled) e at = absurd (cc)
        at_end (ended aborted) e at = absurd (cc)
        at_end (ended failed) e at = absurd (cc)

    -- Of a walk with a positive batch size, between transactions, that begins where everything up
    -- to its cursor is done and a recorded key, if there is one, can be resumed from, with any
    -- batches that advance as `Advances` says and whatever flags, clocks and failures it reads: as
    -- long as no batch is cancelled behind another one of its transaction, the key recorded with the
    -- committed rows is one to resume from, and where the walk ends as finished no row is left to do.
    pub run_backfill_complete :
        (rs : List Reading) (w : Walk Db)
        → Undisturbed cfg run_batch rs w
        → w.phase ≡ between
        → Covers w.committed w.cursor
        → Resumable w.recorded w.committed
        → Ending (run_backfill cfg run_batch rs w)
    run_backfill_complete rs w clean e cov kept =
        Safe-Ending (run_backfill cfg run_batch rs w) (run-Safe rs w clean (kept, rw e cov))
