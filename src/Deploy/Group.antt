-- ===== src/Deploy/Group.antt =====
-- cpp/src/deploy.h: `run_group` and `drain`, as turns of their loops. A job is known by the id of
-- its specification, its state is the text that `job_status` gives, and the log has an entry for
-- each line that starts or ends something, the last one first. What the other tools answer for a
-- specification is a `World`.
pub mod Attempts
pub mod Invariant
pub mod Outcome
use pg_laswell.Base.{
  ℕ, zero, suc, ◌-◌, Bool, true, false, not, ◌&&◌, ◌||◌, String, Option, none, some, List, [], ◌∷◌,
  ◌++◌, ◌==◌, is_nil, ltb, nat_eq, length, if◌then◌else◌,
}

pub data DeployResult : Type 0 where
  is_ok refused repo_problem config_problem interrupted : DeployResult

pub data Entry : Type 0 where
  -- a job started, a plan was made, a job ended in a state
  started planned : String → Entry
  reported : String → String → Entry

abbrev pub is_terminal : String → Bool
is_terminal s =
    s == "succeeded"
    || (s == "failed" || (s == "cancelled" || (s == "interrupted" || s == "aborted_contention")))

-- What `plan_migration_tool` answers: an error, conflicts, or a plan.
pub data PlanAnswer : Type 0 where
  not_accepted conflicting sound : PlanAnswer

unfoldable pub report_plan_outcome : PlanAnswer → DeployResult
report_plan_outcome not_accepted = refused
report_plan_outcome conflicting = refused
report_plan_outcome sound = is_ok

-- Whether the file can be read, what its plan is, and whether `start_migration` accepts it.
pub record World : Type 0 where
  pub readable : String → Bool
  pub plan : String → PlanAnswer
  pub accepts : String → Bool

-- One round of the inner loop: it ends the deployment, or it planned or started something.
pub data Attempt : Type 0 where
  gives_up : DeployResult → Attempt
  plans starts : Attempt

unfoldable pub planning : DeployResult → Attempt
planning is_ok = plans
planning r = gives_up r

unfoldable pub attempt : World → Bool → String → Attempt
unfolding report_plan_outcome planning
attempt w dry_run id =
    if not (w.readable id)
    then gives_up repo_problem
    else if dry_run
    then planning (report_plan_outcome (w.plan id))
    else if w.accepts id
    then starts
    else gives_up refused

-- The inner loop's end.
pub record Filled : Type 0 where
  pub waiting : List String
  pub running : List String
  pub log : List Entry
  pub stop : Option DeployResult

-- A signal is received after so many rounds of this turn, or not in it.
abbrev pub received : Option ℕ → Bool
received none = false
received (some n) = nat_eq n 0

abbrev pub one_less : Option ℕ → Option ℕ
one_less none = none
one_less (some n) = some (n - 1)

abbrev pub goes_on : List String → List String → List Entry → Filled
goes_on waiting running log = record {
  waiting = waiting;
  running = running;
  log = log;
  stop = none;
}

-- What follows an attempt, given how the loop goes on after a plan and after a start.
abbrev pub attempted : Attempt → List String → List String → List Entry → Filled → Filled → Filled
attempted (gives_up r) waiting running log after_plan after_start = record {
  waiting = waiting;
  running = running;
  log = log;
  stop = some r;
}
attempted plans waiting running log after_plan after_start = after_plan
attempted starts waiting running log after_plan after_start = after_start

module _ (w : World) (dry_run : Bool) (cap : ℕ) where
  unfoldable pub fill : Option ℕ → List String → List String → List Entry → Filled
  unfolding attempt
  fill signal [] running log = goes_on [] running log
  fill signal (id ∷ ids) running log =
      let after_plan = fill (one_less signal) ids running (planned id ∷ log) in
      let after_start = fill (one_less signal) ids (running ++ id ∷ []) (started id ∷ log) in
      if ltb (length running) cap && not (received signal)
      then attempted (attempt w dry_run id) ids running log after_plan after_start
      else goes_on (id ∷ ids) running log

-- The pass over the running jobs: those that run on, and whether one ended badly.
pub record Polled : Type 0 where
  pub running : List String
  pub log : List Entry
  pub bad : Bool

unfoldable pub poll : (String → String) → List String → List String → List Entry → Polled
poll state kept [] log = record { running = kept; log = log; bad = false }
poll state kept (id ∷ ids) log =
    let on = poll state (kept ++ id ∷ []) ids log in
    let done = poll state kept ids (reported id (state id) ∷ log) in
    if not (is_terminal (state id))
    then on
    else if state id == "succeeded"
    then done
    else record { running = kept ++ ids; log = reported id (state id) ∷ log; bad = true }

-- One pass of `drain`, which reports every end.
unfoldable pub sweep : (String → String) → List String → List Entry → List String × List Entry
sweep state [] log = ([], log)
sweep state (id ∷ ids) log =
    if is_terminal (state id)
    then sweep state ids (reported id (state id) ∷ log)
    else (let (kept, log') = sweep state ids log in (id ∷ kept, log'))

pub data Phase : Type 0 where
  open_loop : Phase
  draining ended : DeployResult → Phase

pub record Group : Type 0 where
  pub waiting : List String
  pub running : List String
  pub log : List Entry
  pub phase : Phase

-- What one turn of a loop reads.
pub record Turn : Type 0 where
  pub signal : Option ℕ
  pub state : String → String

-- `drain` returns at once where nothing runs.
abbrev pub halt : DeployResult → List String → List String → List Entry → Group
halt r waiting running log = record {
  waiting = waiting;
  running = running;
  log = log;
  phase = if is_nil running then ended r else draining r;
}

abbrev pub open_with : List String → List String → List Entry → Group
open_with waiting running log = record {
  waiting = waiting;
  running = running;
  log = log;
  phase = open_loop;
}

abbrev pub polled : List String → Polled → Group
polled waiting p =
    if p.bad then halt refused waiting p.running p.log else open_with waiting p.running p.log

abbrev pub is_some_signal : Option ℕ → Bool
is_some_signal none = false
is_some_signal (some n) = true

-- From the end of the inner loop on.
unfoldable pub after_fill : Turn → Option DeployResult → Filled → Group
unfolding poll
after_fill t (some r) f = halt r f.waiting f.running f.log
after_fill t none f =
    if is_some_signal t.signal
    then halt interrupted f.waiting f.running f.log
    else if is_nil f.running
    then open_with f.waiting f.running f.log
    else polled f.waiting (poll t.state [] f.running f.log)

module _ (w : World) (dry_run : Bool) (cap : ℕ) where
  unfoldable pub turn_in : Phase → Turn → Group → Group
  unfolding fill after_fill sweep
  turn_in open_loop t g =
      if is_nil g.waiting && is_nil g.running
      then record g { phase = ended is_ok }
      else (let f = fill w dry_run cap t.signal g.waiting g.running g.log in after_fill t f.stop f)
  turn_in (draining r) t g =
      let (kept, log') = sweep t.state g.running g.log in halt r g.waiting kept log'
  turn_in (ended r) t g = g

  unfoldable pub turn : Turn → Group → Group
  unfolding turn_in
  turn t g = turn_in g.phase t g

  unfoldable pub run_group : List Turn → Group → Group
  unfolding turn
  run_group [] g = g
  run_group (t ∷ ts) g = run_group ts (turn t g)
