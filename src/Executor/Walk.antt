-- ===== src/Executor/Walk.antt =====
-- cpp/src/executor.h: the loop of `run_backfill`, as steps over readings of the world. The loop
-- reads the flags of the observer, the clock and the failures of PostgreSQL; one `Reading` holds
-- what one turn of the outer loop's head, or one batch, reads. Other sessions leave the table's
-- pending rows alone.
pub mod Complete
pub mod Lost
pub mod Pace
pub mod Finish
use pg_laswell.Base.{
  ℕ, zero, suc, ◌+◌, ◌/◌, ◌≤◌, ◌<◌, Bool, true, false, not, ◌&&◌, ◌||◌, ◌≡◌, Option, none, some,
  List, [], ◌∷◌, leb, ltb, nat_eq, length, if◌then◌else◌, max,
}
use pg_laswell.Executor.Batch.{BatchOutcome}

pub data CommitReason : Type 0 where
  interval lock_waiter batch_cap final group_end : CommitReason

-- The settings that the loop reads.
pub record ExecutorConfig : Type 0 where
  pub batch_rows : ℕ
  pub batch_cap_rows : ℕ
  pub commit_interval_ms : ℕ

-- How a batch's statement failed: `ours` is SQLSTATE 57014 with `cancel_requested` set.
pub data Fault : Type 0 where
  no_fault ours other : Fault

-- The flags in the order in which the head of the loop reads them, then those of a batch.
pub record Reading : Type 0 where
  pub stop_before_pause : Bool
  pub pause_expired : Bool
  pub stop_after_pause : Bool
  pub throttled : Bool
  pub fault : Fault
  pub direct_waiters : ℕ
  pub elapsed_ms : ℕ

-- How the step ends.
pub data End : Type 0 where
  finished cancelled aborted failed : End

-- Between transactions; or in one, with its view of the table and its rows; or ended.
pub data Phase (Db : Type 0) : Type 0 where
  between : Phase Db
  inside : Db → ℕ → Phase Db
  ended : End → Phase Db

-- `recorded` is the key in laswell.backfill_cursor, which commits with the rows; `reasons` are the
-- increments of the histogram, the last one first.
pub record Walk (Db : Type 0) : Type 0 where
  pub committed : Db
  pub recorded : Option ℕ
  pub cursor : ℕ
  pub rows_done : ℕ
  pub rows_committed : ℕ
  pub commits : ℕ
  pub reasons : List CommitReason
  pub phase : Phase Db

-- What is decided after a batch: go on in the transaction, or commit it.
pub data Decision : Type 0 where
  go_on : Decision
  commit_for : CommitReason → Decision

-- A waiter first, then the interval, then the row cap.
unfoldable pub trigger : ExecutorConfig → Reading → ℕ → Decision
trigger cfg r rows =
    if ltb 0 r.direct_waiters
    then commit_for lock_waiter
    else if leb cfg.commit_interval_ms r.elapsed_ms
    then commit_for interval
    else if leb cfg.batch_cap_rows rows
    then commit_for batch_cap
    else go_on

unfoldable pub decide : ExecutorConfig → Reading → ℕ → BatchOutcome → Decision
unfolding trigger
decide cfg r rows o =
    if o.commit_first
    then commit_for group_end
    else if nat_eq o.considered 0
    then (if o.skipped_only then commit_for interval else commit_for final)
    else trigger cfg r rows

-- Half a batch while throttled, and never less than a row.
abbrev pub batch_size : ExecutorConfig → Reading → ℕ
batch_size cfg r = if r.throttled then max 1 (cfg.batch_rows / 2) else cfg.batch_rows

module _ {Db : Type 0} where
  -- `done` is set with the reason `final`.
  abbrev pub phase_after : CommitReason → Phase Db
  phase_after final = ended finished
  phase_after _ = between

  -- The head of the outer loop, as far as `begin`.
  unfoldable pub begin : Reading → Walk Db → Walk Db
  begin r w =
      if r.stop_before_pause
      then record w { phase = ended cancelled }
      else if r.pause_expired
      then record w { phase = ended aborted }
      else if r.stop_after_pause
      then record w { phase = ended cancelled }
      else record w { phase = inside w.committed 0 }

  -- The end of a transaction: the rows and the cursor are kept together.
  abbrev pub commit : CommitReason → Db → Walk Db → Walk Db
  commit reason d w = record w {
    committed = d;
    recorded = some w.cursor;
    rows_committed = w.rows_done;
    commits = suc w.commits;
    reasons = reason ∷ w.reasons;
    phase = phase_after reason;
  }

  abbrev pub settle : Decision → Db → ℕ → Walk Db → Walk Db
  settle go_on d rows w = record w { phase = inside d rows }
  settle (commit_for reason) d rows w = commit reason d w

  -- A batch that ran.
  unfoldable pub batched : ExecutorConfig → Reading → ℕ → Db × BatchOutcome → Walk Db → Walk Db
  unfolding decide
  batched cfg r rows (d, o) w =
      settle (decide cfg r (rows + o.considered) o) d (rows + o.considered)
        (record w { cursor = o.cursor; rows_done = w.rows_done + o.considered })

  -- The transaction is rolled back; nothing else is.
  abbrev pub roll_back : Walk Db → Walk Db
  roll_back w = record w { reasons = lock_waiter ∷ w.reasons; phase = between }

  -- The batch of the walk: the table, the cursor, the size, and whether the transaction holds a
  -- batch's worth of rows.
  module _ (cfg : ExecutorConfig) (run_batch : Db → ℕ → ℕ → Bool → Db × BatchOutcome) where
    unfoldable pub attempt : Fault → Reading → Db → ℕ → Walk Db → Walk Db
    unfolding batched
    attempt no_fault r d rows w =
        batched cfg r rows (run_batch d w.cursor (batch_size cfg r) (leb (batch_size cfg r) rows)) w
    attempt ours r d rows w = roll_back w
    attempt other r d rows w = record w { phase = ended failed }

    unfoldable pub step_in : Phase Db → Reading → Walk Db → Walk Db
    unfolding attempt begin
    step_in between r w = begin r w
    step_in (inside d rows) r w = attempt r.fault r d rows w
    step_in (ended how) r w = w

    unfoldable pub step : Reading → Walk Db → Walk Db
    step r w = step_in w.phase r w

    unfoldable pub run_backfill : List Reading → Walk Db → Walk Db
    run_backfill [] w = w
    run_backfill (r ∷ rs) w = run_backfill rs (step r w)
