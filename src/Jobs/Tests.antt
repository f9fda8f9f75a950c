-- ===== src/Jobs/Tests.antt =====
-- Runs of the gate and of the observer, and each theorem at one of them.
use pg_laswell.Base.{
  ℕ, ◌+◌, ◌≤◌, ◌<◌, true, false, ◌≡◌, ◌↔◌, ◌⊎◌, refl, Option, none, some, List, [], ◌∷◌, arith,
}
use pg_laswell.Jobs.Gate.{
  OperationGate, fresh, configure, step, Worker, idle, uncounted, holding, Event, acted, arrive,
  attempt, leave, act, act_at, happens, interleave,
}
use pg_laswell.Jobs.Gate.Ceiling
use pg_laswell.Jobs.Gate.Ceiling.{Counts, slots, operations, stopped_steps}
use pg_laswell.Jobs.Pacing.{
  PacingConfig, PacingState, Contention, ClusterContention, Job, running, Observation, waiters,
  unobserved, tick, tick_job, take,
}
use pg_laswell.Jobs.Pacing.Dwell
use pg_laswell.Jobs.Pacing.Dwell.{Tick, paced, streak, is_high, is_low}
use pg_laswell.Jobs.Pacing.Breaker
use pg_laswell.Jobs.Pacing.Breaker.{ticks, allowance, SameButCounts}

-- Two threads at a gate for one operation: the second gets its slot when the first leaves.
abbrev one_at_a_time : OperationGate
one_at_a_time = configure 1 fresh

abbrev two_threads : List Event
two_threads =
    acted 0 (arrive step)
    ∷ acted 1 (arrive step)
    ∷ acted 0 (attempt step false)
    ∷ acted 1 (attempt step false)
    ∷ acted 0 leave
    ∷ acted 1 (attempt step false)
    ∷ []

abbrev two_idle : List Worker
two_idle = idle ∷ idle ∷ []

interleave-two_threads :
    interleave two_threads one_at_a_time two_idle
    ≡ (record { limit = 1; in_flight = 1; peak = 1 }, idle ∷ holding ∷ [])
unfolding interleave happens act_at configure act
interleave-two_threads = refl

operations_bounded_example :
    operations (interleave two_threads one_at_a_time two_idle).1 ≤ 1 + stopped_steps two_threads
unfolding configure
operations_bounded_example =
    Ceiling.operations_bounded 1 two_threads one_at_a_time two_idle
      (tt, (tt, (tt, (tt, (tt, (tt, tt)))))) (tt, (tt, (tt, (tt, (tt, (tt, tt))))))
      (refl, (omega arith, (omega arith, omega arith))) (omega arith, refl)

-- A step that is cancelled while the gate is full runs above the ceiling.
cancelled_step_runs :
    interleave
      (acted 0 (arrive step)
        ∷ acted 0 (attempt step false)
        ∷ acted 1 (arrive step)
        ∷ acted 1 (attempt step true)
        ∷ [])
      one_at_a_time
      two_idle
    ≡ (record { limit = 1; in_flight = 1; peak = 1 }, holding ∷ uncounted ∷ [])
unfolding interleave happens act_at configure act
cancelled_step_runs = refl

-- The defaults of cpp/src/config.h, with a wait of a second.
abbrev cfg : PacingConfig
cfg = record {
  throttle_waiters = 4;
  pause_waiters = 8;
  resume_waiters = 1;
  contention_dwell_ticks = 3;
  max_waiter_wait_ms = 1000;
}

abbrev unwatched : PacingState
unwatched = record {
  direct_waiters = 0;
  transitive_waiters = 0;
  blocking_waiter_pid = 0;
  oldest_wait_ms = 0;
  inflicted_blocked_ms = 0;
  contention_ticks = 0;
  quiet_ticks = 0;
  cancel_requested = false;
  throttled = false;
  paused = false;
  paused_since_ms = 0;
  cancels = 0;
}

abbrev pile_up : Contention
pile_up = record {
  direct = 1;
  transitive = 9;
  blocking_pid = some 7;
  oldest_ms = 100;
  inflicted_ms = 100;
}

abbrev busy : Tick
busy = record { now = 5; connected = true; reading = some pile_up }

paused-third_tick : (paced cfg unwatched (busy ∷ busy ∷ busy ∷ [])).paused ≡ true
unfolding take
paused-third_tick = refl

paused_exactly_example : ((paced cfg unwatched (busy ∷ busy ∷ busy ∷ [])).paused ≡ true) ↔ (
    (3 ≤ streak (is_high cfg) (busy ∷ busy ∷ busy ∷ []))
    ⊎ (((paced cfg unwatched (busy ∷ busy ∷ [])).paused ≡ true)
        × (streak (is_low cfg) (busy ∷ busy ∷ busy ∷ []) < 3)))
paused_exactly_example =
    Dwell.paused_exactly cfg unwatched busy (busy ∷ busy ∷ []) (omega arith, omega arith)
      (refl, refl)

abbrev job : Job
job = record {
  state = running;
  worker_pid = 42;
  cancel_stop = false;
  long_statement = false;
  stop_now = false;
  in_walk = true;
  connected = true;
  pacing = unwatched;
}

-- The local answer has one young waiter, the cluster's an old one.
abbrev young : ℕ → Option Contention
young _ = some (record {
  direct = 1;
  transitive = 1;
  blocking_pid = some 7;
  oldest_ms = 10;
  inflicted_ms = 10;
})

abbrev old : ℕ → Option ClusterContention
old _ = some (record { direct = 0; transitive = 1; oldest_upper_bound_ms = some 2000 })

starving_cancelled_example : (tick_job cfg 5 (waiters young old) job).pacing.cancel_requested ≡ true
starving_cancelled_example =
    Breaker.starving_cancelled cfg 5 young old job refl (omega arith) (omega arith) refl

abbrev three_ticks : List (ℕ × Observation)
three_ticks = (5, waiters young old) ∷ (6, unobserved) ∷ (7, waiters young old) ∷ []

cancelled_once_example :
    ((ticks cfg three_ticks job).pacing.cancels ≤ job.pacing.cancels + allowance job.pacing)
    × (job.pacing.cancel_requested ≡ true
        → (ticks cfg three_ticks job).pacing.cancel_requested ≡ true)
cancelled_once_example = Breaker.cancelled_once cfg three_ticks job

-- Nobody waits on the coordinator, and twenty sessions do for two seconds on another node.
abbrev nobody_near : ℕ → Option Contention
nobody_near _ =
    some
      (record { direct = 0; transitive = 0; blocking_pid = none; oldest_ms = 0; inflicted_ms = 0 })

abbrev many_far : ℕ → Option ClusterContention
many_far _ = some (record { direct = 20; transitive = 20; oldest_upper_bound_ms = some 2000 })

far_waiters_lost_example :
    (seen : Job) × (tick cfg 5 (waiters nobody_near many_far) (job ∷ job ∷ [])
      ≡ seen ∷ tick cfg 5 unobserved (job ∷ []))
    × SameButCounts job.pacing seen.pacing
far_waiters_lost_example =
    Breaker.far_waiters_lost cfg 5 nobody_near many_far job (job ∷ []) refl refl (omega arith) refl
