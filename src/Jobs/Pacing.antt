-- ===== src/Jobs/Pacing.antt =====
-- cpp/src/jobs.h: `Observer::tick` and what it does to the pacing of a job. What the queries of a
-- tick answer is an `Observation`. The counters of a job's CREATE INDEX CONCURRENTLY and the sizes
-- that are only reported are left out.
pub mod Dwell
pub mod Breaker
use pg_laswell.Base.{
  ℕ, zero, suc, ◌+◌, ◌≤◌, ◌<◌, Bool, true, false, not, ◌&&◌, ◌||◌, ◌≡◌, Option, none, some, List,
  [], ◌∷◌, leb, ltb, nat_eq, if◌then◌else◌, max,
}

pub data JobState : Type 0 where
  planned running throttled_state paused_contention succeeded failed cancelled aborted_contention :
      JobState

abbrev pub is_terminal : JobState → Bool
is_terminal succeeded = true
is_terminal failed = true
is_terminal cancelled = true
is_terminal aborted_contention = true
is_terminal _ = false

-- The settings of `cfg_.executor` that the observer reads.
pub record PacingConfig : Type 0 where
  pub throttle_waiters : ℕ
  pub pause_waiters : ℕ
  pub resume_waiters : ℕ
  pub contention_dwell_ticks : ℕ
  pub max_waiter_wait_ms : ℕ

-- `cancels` counts the calls of `cancel_query`.
pub record PacingState : Type 0 where
  pub direct_waiters : ℕ
  pub transitive_waiters : ℕ
  pub blocking_waiter_pid : ℕ
  pub oldest_wait_ms : ℕ
  pub inflicted_blocked_ms : ℕ
  pub contention_ticks : ℕ
  pub quiet_ticks : ℕ
  pub cancel_requested : Bool
  pub throttled : Bool
  pub paused : Bool
  pub paused_since_ms : ℕ
  pub cancels : ℕ

-- The rest of a job that a tick reads; `connected` says that it has a connection to cancel on.
pub record Job : Type 0 where
  pub state : JobState
  pub worker_pid : ℕ
  pub cancel_stop : Bool
  pub long_statement : Bool
  pub stop_now : Bool
  pub in_walk : Bool
  pub connected : Bool
  pub pacing : PacingState

-- One worker's entry in the answer of the observer's query. The pid is null where no session waits
-- for this worker directly on the database that was asked.
pub record Contention : Type 0 where
  pub direct : ℕ
  pub transitive : ℕ
  pub blocking_pid : Option ℕ
  pub oldest_ms : ℕ
  pub inflicted_ms : ℕ

-- One worker's entry in the cluster's answer.
pub record ClusterContention : Type 0 where
  pub direct : ℕ
  pub transitive : ℕ
  pub oldest_upper_bound_ms : Option ℕ

-- An entry with no member, as `value` reads it: a default for each.
abbrev pub no_reading : Contention
no_reading = record {
  direct = 0;
  transitive = 0;
  blocking_pid = some 0;
  oldest_ms = 0;
  inflicted_ms = 0;
}

-- The age, where the cluster gives one.
abbrev pub older : ℕ → Option ℕ → ℕ
older ms none = ms
older ms (some bound) = max ms bound

-- The larger of the two wins.
unfoldable pub merged : Option Contention → Option ClusterContention → Option Contention
merged local none = local
merged local (some c) =
    let r : Contention = elim local [ none ↦ no_reading | some r ↦ r ] in
    some (record r {
      direct = max r.direct c.direct;
      transitive = max r.transitive c.transitive;
      oldest_ms = older r.oldest_ms c.oldest_upper_bound_ms;
    })

unfoldable pub bump_quiet : PacingConfig → PacingState → PacingState
bump_quiet cfg p =
    if leb p.transitive_waiters cfg.resume_waiters
    then (let q = suc p.quiet_ticks in
        if leb cfg.contention_dwell_ticks q
        then record p { quiet_ticks = q; paused = false; throttled = false }
        else record p { quiet_ticks = q })
    else record p { quiet_ticks = 0 }

unfoldable pub clear_contention : PacingConfig → PacingState → PacingState
unfolding bump_quiet
clear_contention cfg p = bump_quiet cfg (record p {
  direct_waiters = 0;
  transitive_waiters = 0;
  blocking_waiter_pid = 0;
  oldest_wait_ms = 0;
  inflicted_blocked_ms = 0;
  contention_ticks = 0;
})

unfoldable pub request_cancel : Bool → PacingState → PacingState
request_cancel connected p =
    if p.cancel_requested
    then p
    else if connected
    then record p { cancel_requested = true; cancels = suc p.cancels }
    else record p { cancel_requested = true }

-- The counts, which are taken over first.
abbrev pub counted : Contention → PacingState → PacingState
counted r p = record p { direct_waiters = r.direct; transitive_waiters = r.transitive }

-- The readings as they are taken over, and the throttle.
abbrev pub measured : PacingConfig → Contention → ℕ → PacingState → PacingState
measured cfg r pid p = record p {
  direct_waiters = r.direct;
  transitive_waiters = r.transitive;
  blocking_waiter_pid = pid;
  oldest_wait_ms = r.oldest_ms;
  inflicted_blocked_ms = r.inflicted_ms;
  throttled = leb cfg.throttle_waiters r.transitive;
}

-- At or above `pause_waiters`, at a moment.
unfoldable pub contended : PacingConfig → ℕ → PacingState → PacingState
contended cfg now p =
    let n = suc p.contention_ticks in
    if leb cfg.contention_dwell_ticks n && not p.paused
    then record p { contention_ticks = n; quiet_ticks = 0; paused = true; paused_since_ms = now }
    else record p { contention_ticks = n; quiet_ticks = 0 }

-- The ladder on the transitive count.
unfoldable pub climb : PacingConfig → ℕ → PacingState → PacingState
unfolding contended bump_quiet
climb cfg now p =
    if leb cfg.pause_waiters p.transitive_waiters
    then contended cfg now p
    else bump_quiet cfg (record p { contention_ticks = 0 })

-- From the pid on. `value("blockingWaiterPid", 0)` of a null raises, and nothing more is done.
unfoldable pub apply_from :
    PacingConfig → ℕ → Bool → Contention → Option ℕ → PacingState → PacingState
unfolding climb request_cancel
apply_from cfg now connected r none p = counted r p
apply_from cfg now connected r (some pid) p =
    let p' = climb cfg now (measured cfg r pid p) in
    if ltb cfg.max_waiter_wait_ms p'.oldest_wait_ms then request_cancel connected p' else p'

unfoldable pub apply : PacingConfig → ℕ → Bool → Contention → PacingState → PacingState
unfolding apply_from
apply cfg now connected r p = apply_from cfg now connected r r.blocking_pid p

abbrev pub is_null : Option ℕ → Bool
is_null none = true
is_null (some pid) = false

abbrev pub nobody : Contention → Bool
nobody r = nat_eq r.direct 0 && nat_eq r.transitive 0

-- Does `apply` raise on this entry?
unfoldable pub raises : Option Contention → Bool
raises none = false
raises (some r) = not (nobody r) && is_null r.blocking_pid

-- What the queries of a tick found: they failed; nobody waits; or each worker's entries.
pub data Observation : Type 0 where
  unobserved nobody_waits : Observation
  waiters : (ℕ → Option Contention) → (ℕ → Option ClusterContention) → Observation

-- The end of a tick for one live job.
unfoldable pub take : PacingConfig → ℕ → Bool → Option Contention → PacingState → PacingState
unfolding apply clear_contention
take cfg now connected none p = clear_contention cfg p
take cfg now connected (some r) p =
    if nobody r then clear_contention cfg p else apply cfg now connected r p

unfoldable pub observed : PacingConfig → ℕ → Observation → Job → PacingState → PacingState
unfolding take merged
observed cfg now unobserved j p = p
observed cfg now nobody_waits j p = clear_contention cfg p
observed cfg now (waiters local cluster) j p =
    take cfg now j.connected (merged (local j.worker_pid) (cluster j.worker_pid)) p

-- A statement with no batch boundary to stop at.
abbrev pub must_cancel : Job → Bool
must_cancel j = j.cancel_stop && (j.long_statement || (j.stop_now && not j.in_walk))

abbrev pub is_live : Job → Bool
is_live j = not (is_terminal j.state || nat_eq j.worker_pid 0)

-- What a tick does with one job, given what it found when it came to the job.
unfoldable pub tick_job : PacingConfig → ℕ → Observation → Job → Job
unfolding observed request_cancel
tick_job cfg now o j =
    if is_live j
    then record j {
      pacing =
          observed cfg now o j
            (if must_cancel j then request_cancel j.connected j.pacing else j.pacing);
    }
    else j

-- The `catch` behind the loop: after a raise the jobs that follow are not looked at.
unfoldable pub left_to : Observation → Job → Observation
unfolding raises merged
left_to (waiters local cluster) j =
    if is_live j && raises (merged (local j.worker_pid) (cluster j.worker_pid))
    then unobserved
    else waiters local cluster
left_to o j = o

-- The flags of all jobs are read before the queries are made; then each job is paced by its own
-- entries, until one of them raises.
unfoldable pub tick : PacingConfig → ℕ → Observation → List Job → List Job
unfolding tick_job left_to
tick cfg now o [] = []
tick cfg now o (j ∷ js) = tick_job cfg now o j ∷ tick cfg now (left_to o j) js
