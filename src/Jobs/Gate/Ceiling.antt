-- ===== src/Jobs/Gate/Ceiling.antt =====
-- Proofs about cpp/src/jobs.h, `OperationGate`: its counters, and the operations that run.
use pg_laswell.Base.{
  ℕ, zero, suc, ◌+◌, ◌≤◌, ◌<◌, Bool, true, false, ◌≡◌, List, [], ◌∷◌, nat_eq, arith, All,
  Bool-cases, inl, inr,
}
use pg_laswell.Jobs.Gate.{
  OperationGate, configure, has_room, wake, release, Caller, walk, step, Worker, idle, waiting,
  holding, uncounted, stopped, enter, turn, Action, arrive, attempt, leave, act, act_at, Event,
  configured, acted, happens, interleave,
}

abbrev pub has_slot : Worker → ℕ
has_slot holding = 1
has_slot _ = 0

abbrev pub runs : Worker → ℕ
runs holding = 1
runs uncounted = 1
runs _ = 0

-- The slots that are held, and the operations that run.
abbrev pub slots : List Worker → ℕ
slots [] = 0
slots (w ∷ ws) = has_slot w + slots ws

abbrev pub operations : List Worker → ℕ
operations [] = 0
operations (w ∷ ws) = runs w + operations ws

-- The counters of the gate, beside the slots that are held, under a bound on its limit.
abbrev pub Counts : ℕ → OperationGate → ℕ → Type 0
Counts bound g held =
    (g.in_flight ≡ held) × ((g.in_flight ≤ g.peak) × ((g.peak ≤ bound) × (g.limit ≤ bound)))

turn-Counts :
    (bound : ℕ) (c : Caller) (stop : Bool) (g : OperationGate) (others : ℕ)
    → Counts bound g others
    → Counts bound (turn g c stop).0 (has_slot (turn g c stop).1 + others)
unfolding turn wake has_room
turn-Counts bound walk stop g others h = ground arith
turn-Counts bound step stop g others h = ground arith

act-Counts :
    (bound : ℕ) (a : Action) (g : OperationGate) (w : Worker) (others : ℕ)
    → Counts bound g (has_slot w + others)
    → Counts bound (act a g w).0 (has_slot (act a g w).1 + others)
unfolding act release enter
act-Counts bound (arrive c) g idle others h = elim (Bool-cases (nat_eq g.limit 0)) [
  | inl e ↦ rw e h
  | inr e ↦ rw e h
]
act-Counts bound (attempt walk stop) g (waiting walk) others h =
    turn-Counts bound walk stop g others (omega (arith, h.0), h.1)
act-Counts bound (attempt step stop) g (waiting step) others h =
    turn-Counts bound step stop g others (omega (arith, h.0), h.1)
act-Counts bound leave g holding others h =
    (omega (arith, h.0), (omega (arith, h.1.0), (h.1.1.0, h.1.1.1)))
act-Counts bound a g w others h = h

act_at-Counts :
    (bound i : ℕ) (a : Action) (g : OperationGate) (ws : List Worker) (others : ℕ)
    → Counts bound g (slots ws + others)
    → Counts bound (act_at i a g ws).0 (slots (act_at i a g ws).1 + others)
unfolding act_at
act_at-Counts bound i a g [] others h = h
act_at-Counts bound zero a g (w ∷ ws) others h =
    let (n, rest) = act-Counts bound a g w (slots ws + others) (omega (arith, h.0), h.1) in
    (omega (arith, n), rest)
act_at-Counts bound (suc i) a g (w ∷ ws) others h =
    let (n, rest) = act_at-Counts bound i a g ws (has_slot w + others) (omega (arith, h.0), h.1) in
    (omega (arith, n), rest)

-- A configured limit is at most so much.
abbrev pub AtMost : ℕ → Event → Type 0
AtMost bound (configured limit) = limit ≤ bound
AtMost bound (acted i a) = Unit

happens-Counts :
    (bound : ℕ) (e : Event) (g : OperationGate) (ws : List Worker)
    → AtMost bound e
    → Counts bound g (slots ws)
    → Counts bound (happens e g ws).0 (slots (happens e g ws).1)
unfolding happens configure
happens-Counts bound (configured limit) g ws le h = (h.0, (h.1.0, (h.1.1.0, le)))
happens-Counts bound (acted i a) g ws le h =
    let (n, rest) = act_at-Counts bound i a g ws 0 (omega (arith, h.0), h.1) in
    (omega (arith, n), rest)

-- However the threads of the jobs interleave, from a gate that counts its slots: it goes on counting
-- exactly those that are held, so that no release takes the count below zero; and as long as no limit
-- above a bound is configured, its peak, and with it the slots that are held, stay within the bound.
pub interleave-Counts :
    (bound : ℕ) (es : List Event) (g : OperationGate) (ws : List Worker)
    → All (AtMost bound) es
    → Counts bound g (slots ws)
    → Counts bound (interleave es g ws).0 (slots (interleave es g ws).1)
unfolding interleave
interleave-Counts bound [] g ws le h = h
interleave-Counts bound (e ∷ es) g ws le h =
    interleave-Counts bound es (happens e g ws).0 (happens e g ws).1 le.1
      (happens-Counts bound e g ws le.0 h)

-- A ceiling stays configured.
abbrev pub StaysSet : Event → Type 0
StaysSet (configured limit) = 0 < limit
StaysSet (acted i a) = Unit

-- Is an action the attempt of a step at which `cancel_stop` is set?
abbrev pub steps_stopped : Action → ℕ
steps_stopped (attempt step true) = 1
steps_stopped _ = 0

abbrev pub stopped_steps : List Event → ℕ
stopped_steps [] = 0
stopped_steps (configured limit ∷ es) = stopped_steps es
stopped_steps (acted i a ∷ es) = steps_stopped a + stopped_steps es

-- A ceiling, and at most so many operations without a slot.
abbrev pub Within : ℕ → OperationGate → List Worker → Type 0
Within extra g ws = (0 < g.limit) × (operations ws ≤ slots ws + extra)

act-Within :
    (a : Action) (g : OperationGate) (w : Worker)
    → 0 < g.limit
    → (0 < (act a g w).0.limit)
      × (runs (act a g w).1 + has_slot w ≤ has_slot (act a g w).1 + runs w + steps_stopped a)
unfolding act enter turn wake has_room release
act-Within (arrive c) g idle l = ground arith
act-Within (attempt walk stop) g (waiting walk) l = ground arith
act-Within (attempt step true) g (waiting step) l = ground arith
act-Within (attempt step false) g (waiting step) l = ground arith
act-Within leave g holding l = (l, omega arith)
act-Within leave g uncounted l = (l, omega arith)
act-Within leave g stopped l = (l, omega arith)
act-Within a g w l = (l, omega arith)

act_at-Within :
    (i : ℕ) (a : Action) (g : OperationGate) (ws : List Worker)
    → 0 < g.limit
    → (0 < (act_at i a g ws).0.limit)
      × (operations (act_at i a g ws).1 + slots ws
          ≤ slots (act_at i a g ws).1 + operations ws + steps_stopped a)
unfolding act_at
act_at-Within i a g [] l = (l, omega arith)
act_at-Within zero a g (w ∷ ws) l = let (m, n) = act-Within a g w l in (m, omega (arith, n))
act_at-Within (suc i) a g (w ∷ ws) l =
    let (m, n) = act_at-Within i a g ws l in (m, omega (arith, n))

interleave-Within :
    (extra : ℕ) (es : List Event) (g : OperationGate) (ws : List Worker)
    → All StaysSet es
    → Within extra g ws
    → Within (extra + stopped_steps es) (interleave es g ws).0 (interleave es g ws).1
unfolding interleave happens configure
interleave-Within extra [] g ws l h = (h.0, omega (arith, h.1))
interleave-Within extra (configured limit ∷ es) g ws l h =
    interleave-Within extra es (configure limit g) ws l.1 (l.0, h.1)
interleave-Within extra (acted i a ∷ es) g ws l h =
    let (m, n) = act_at-Within i a g ws h.0 in
    let rest =
      interleave-Within (extra + steps_stopped a) es (act_at i a g ws).0 (act_at i a g ws).1 l.1
        (m, omega (arith, n, h.1)) in
    (rest.0, omega (arith, rest.1))

-- From a gate that counts its slots, with a ceiling and every operation counted: while a ceiling
-- stays configured, and never one above a bound, at most so many operations as the bound run at once,
-- with a slot or without, however the threads interleave, wait or give up, and beside them one at
-- most for each attempt of a step at which `cancel_stop` is set.
pub operations_bounded :
    (bound : ℕ) (es : List Event) (g : OperationGate) (ws : List Worker)
    → All (AtMost bound) es
    → All StaysSet es
    → Counts bound g (slots ws)
    → (0 < g.limit) × (operations ws ≡ slots ws)
    → operations (interleave es g ws).1 ≤ bound + stopped_steps es
operations_bounded bound es g ws le l counts all = omega (
  arith,
  (interleave-Within 0 es g ws l (all.0, omega (arith, all.1))).1,
  (interleave-Counts bound es g ws le counts).0,
  (interleave-Counts bound es g ws le counts).1.0,
  (interleave-Counts bound es g ws le counts).1.1.0,
)
