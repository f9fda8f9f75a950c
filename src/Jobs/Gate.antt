-- ===== src/Jobs/Gate.antt =====
-- cpp/src/jobs.h: `OperationGate`, and the loop of cpp/src/executor.h that waits at it. The mutex
-- makes each of its functions one step; `try_acquire_for` is two, before and after its wait on the
-- condition variable. A limit is not negative (cpp/src/config.h), and 0 is no ceiling.
pub mod Ceiling
use pg_laswell.Base.{
  ℕ, zero, suc, ◌+◌, ◌-◌, ◌≤◌, ◌<◌, Bool, true, false, ◌&&◌, ◌||◌, ◌≡◌, List, [], ◌∷◌, leb, ltb,
  nat_eq, if◌then◌else◌, max,
}

pub record OperationGate : Type 0 where
  pub limit : ℕ
  pub in_flight : ℕ
  pub peak : ℕ

abbrev pub fresh : OperationGate
fresh = record { limit = 0; in_flight = 0; peak = 0 }

unfoldable pub configure : ℕ → OperationGate → OperationGate
configure limit g = record g { limit = limit }

-- The predicate of the wait.
unfoldable pub has_room : OperationGate → Bool
has_room g = nat_eq g.limit 0 || ltb g.in_flight g.limit

unfoldable pub would_block : OperationGate → Bool
would_block g = ltb 0 g.limit && leb g.limit g.in_flight

-- What `try_acquire_for` does when its wait ends, and whether the slot is held. `wait_for` answers
-- with the predicate, also at a timeout.
unfoldable pub wake : OperationGate → OperationGate × Bool
unfolding has_room
wake g =
    if has_room g
    then (if nat_eq g.limit 0
        then (g, false)
        else (record g { in_flight = suc g.in_flight; peak = max g.peak (suc g.in_flight) }, true))
    else (g, false)

-- The decrement of `Slot::release`.
unfoldable pub release : OperationGate → OperationGate
release g = record g { in_flight = g.in_flight - 1 }

-- Who calls `operation_slot`: the walk, which tests `cancel_stop` behind it and returns; or a step,
-- which goes on with whatever slot it was given.
pub data Caller : Type 0 where
  walk step : Caller

-- What a thread of a job is doing at the gate: `operation_slot` has not been called, or what it
-- gave is gone; it waits; it runs its operation with a slot, or without one; it was told to stop.
pub data Worker : Type 0 where
  idle holding uncounted stopped : Worker
  waiting : Caller → Worker

-- Where `operation_slot` begins.
unfoldable pub enter : Caller → OperationGate → Worker
enter c g = if nat_eq g.limit 0 then uncounted else waiting c

-- What a caller does with the empty slot that it gets under `cancel_stop`.
abbrev pub told_to_stop : Caller → Worker
told_to_stop walk = stopped
told_to_stop step = uncounted

-- One turn of its loop: the attempt has ended, then the limit and `cancel_stop` are read.
unfoldable pub turn : OperationGate → Caller → Bool → OperationGate × Worker
unfolding wake
turn g c stop =
    let (g', held) = wake g in
    (
      g',
      if held
          then holding
          else if nat_eq g'.limit 0
          then uncounted
          else if stop
          then told_to_stop c
          else waiting c,
    )

-- What a thread does next: it comes, its attempt ends, or it is through with its operation.
pub data Action : Type 0 where
  leave : Action
  arrive : Caller → Action
  attempt : Caller → Bool → Action

unfoldable pub act : Action → OperationGate → Worker → OperationGate × Worker
unfolding enter turn release
act (arrive c) g idle = (g, enter c g)
act (attempt walk stop) g (waiting walk) = turn g walk stop
act (attempt step stop) g (waiting step) = turn g step stop
act leave g holding = (release g, idle)
act leave g uncounted = (g, idle)
act leave g stopped = (g, idle)
act _ g w = (g, w)

-- The action of the i-th thread.
unfoldable pub act_at : ℕ → Action → OperationGate → List Worker → OperationGate × List Worker
act_at i a g [] = (g, [])
act_at zero a g (w ∷ ws) = let (g', w') = act a g w in (g', w' ∷ ws)
act_at (suc i) a g (w ∷ ws) = let (g', ws') = act_at i a g ws in (g', w ∷ ws')

pub data Event : Type 0 where
  configured : ℕ → Event
  acted : ℕ → Action → Event

unfoldable pub happens : Event → OperationGate → List Worker → OperationGate × List Worker
unfolding configure
happens (configured limit) g ws = (configure limit g, ws)
happens (acted i a) g ws = act_at i a g ws

-- An interleaving of the threads of all jobs.
unfoldable pub interleave : List Event → OperationGate → List Worker → OperationGate × List Worker
interleave [] g ws = (g, ws)
interleave (e ∷ es) g ws = let (g', ws') = happens e g ws in interleave es g' ws'
