-- ===== src/Jobs/Pacing/Breaker.antt =====
-- Proofs about cpp/src/jobs.h, `request_cancel` and its callers in a tick.
use pg_laswell.Base.{
  ℕ, ◌+◌, ◌≤◌, ◌<◌, Bool, true, false, ◌≡◌, inl, inr, refl, ◌∙◌, Option, none, some, List, [], ◌∷◌,
  ltb, if◌then◌else◌, arith, Bool-cases, max,
}
use pg_laswell.Jobs.Pacing.{
  PacingConfig, PacingState, Contention, ClusterContention, older, Job, take, apply, apply_from,
  counted, raises, is_null, nobody, is_live, left_to, tick, climb, contended, bump_quiet,
  clear_contention, request_cancel, measured, merged, Observation, unobserved, nobody_waits,
  waiters, observed, must_cancel, tick_job,
}

-- The queries that may still be cancelled until the worker takes the request back.
abbrev pub allowance : PacingState → ℕ
allowance p = if p.cancel_requested then 0 else 1

-- No query beyond the allowance, and a request that stands is kept.
abbrev Spends : PacingState → PacingState → Type 0
Spends p q =
    (q.cancels + allowance q ≤ p.cancels + allowance p)
    × (p.cancel_requested ≡ true → q.cancel_requested ≡ true)

Spends-trans : (p q r : PacingState) → Spends p q → Spends q r → Spends p r
Spends-trans p q r h k = (omega (arith, h.0, k.0), λ e. k.1 (h.1 e))

bump_quiet-Spends : (cfg : PacingConfig) (p : PacingState) → Spends p (bump_quiet cfg p)
unfolding bump_quiet
bump_quiet-Spends cfg p = (ground arith, λ e. ground arith)

climb-Spends : (cfg : PacingConfig) (now : ℕ) (p : PacingState) → Spends p (climb cfg now p)
unfolding climb contended bump_quiet
climb-Spends cfg now p = (ground arith, λ e. ground arith)

clear_contention-Spends : (cfg : PacingConfig) (p : PacingState) → Spends p (clear_contention cfg p)
unfolding clear_contention bump_quiet
clear_contention-Spends cfg p = (ground arith, λ e. ground arith)

request_cancel-Spends : (connected : Bool) (p : PacingState) → Spends p (request_cancel connected p)
unfolding request_cancel
request_cancel-Spends connected p = (ground arith, λ e. ground arith)

counted-Spends : (r : Contention) (p : PacingState) → Spends p (counted r p)
counted-Spends r p = (omega arith, λ e. e)

apply_from-Spends :
    (cfg : PacingConfig) (now : ℕ) (connected : Bool) (r : Contention) (o : Option ℕ)
    (p : PacingState)
    → Spends p (apply_from cfg now connected r o p)
unfolding apply_from
apply_from-Spends cfg now connected r none p = counted-Spends r p
apply_from-Spends cfg now connected r (some pid) p =
    let q = climb cfg now (measured cfg r pid p) in
    let climbed = climb-Spends cfg now (measured cfg r pid p) in
    elim (Bool-cases (ltb cfg.max_waiter_wait_ms q.oldest_wait_ms)) [
      | inl late ↦ rw late (
          Spends-trans p q (request_cancel connected q) climbed (request_cancel-Spends connected q))
      | inr soon ↦ rw soon climbed
    ]

apply-Spends :
    (cfg : PacingConfig) (now : ℕ) (connected : Bool) (r : Contention) (p : PacingState)
    → Spends p (apply cfg now connected r p)
unfolding apply
apply-Spends cfg now connected r p = apply_from-Spends cfg now connected r r.blocking_pid p

take-Spends :
    (cfg : PacingConfig) (now : ℕ) (connected : Bool) (r : Option Contention) (p : PacingState)
    → Spends p (take cfg now connected r p)
unfolding take
take-Spends cfg now connected none p = clear_contention-Spends cfg p
take-Spends cfg now connected (some r) p = elim (Bool-cases (nobody r)) [
  | inl none_wait ↦ rw none_wait (clear_contention-Spends cfg p)
  | inr some_wait ↦ rw some_wait (apply-Spends cfg now connected r p)
]

observed-Spends :
    (cfg : PacingConfig) (now : ℕ) (o : Observation) (j : Job) (p : PacingState)
    → Spends p (observed cfg now o j p)
unfolding observed
observed-Spends cfg now unobserved j p = (omega arith, λ e. e)
observed-Spends cfg now nobody_waits j p = clear_contention-Spends cfg p
observed-Spends cfg now (waiters local cluster) j p =
    take-Spends cfg now j.connected (merged (local j.worker_pid) (cluster j.worker_pid)) p

tick_job-Spends :
    (cfg : PacingConfig) (now : ℕ) (o : Observation) (j : Job)
    → Spends j.pacing (tick_job cfg now o j).pacing
unfolding tick_job
tick_job-Spends cfg now o j = elim (Bool-cases (is_live j)) [
  | inr over ↦ rw over (omega arith, λ e. e)
  | inl live ↦ rw live (elim (Bool-cases (must_cancel j)) [
    | inl must ↦ rw must (
        Spends-trans j.pacing (request_cancel j.connected j.pacing)
          (observed cfg now o j (request_cancel j.connected j.pacing))
          (request_cancel-Spends j.connected j.pacing)
          (observed-Spends cfg now o j (request_cancel j.connected j.pacing)))
    | inr need_not ↦ rw need_not (observed-Spends cfg now o j j.pacing)
  ])
]

-- Ticks one after another, with nothing of the worker between them.
abbrev pub ticks : PacingConfig → List (ℕ × Observation) → Job → Job
ticks cfg [] j = j
ticks cfg ((now, o) ∷ ts) j = ticks cfg ts (tick_job cfg now o j)

ticks-Spends :
    (cfg : PacingConfig) (ts : List (ℕ × Observation)) (j : Job)
    → Spends j.pacing (ticks cfg ts j).pacing
ticks-Spends cfg [] j = (omega arith, λ e. e)
ticks-Spends cfg ((now, o) ∷ ts) j =
    Spends-trans j.pacing (tick_job cfg now o j).pacing (ticks cfg ts (tick_job cfg now o j)).pacing
      (tick_job-Spends cfg now o j) (ticks-Spends cfg ts (tick_job cfg now o j))

-- However many ticks pass before the worker takes a request back, whatever they observe, at most one
-- query of a job is cancelled, and none where a request stood before them; a request is not forgotten.
pub cancelled_once :
    (cfg : PacingConfig) (ts : List (ℕ × Observation)) (j : Job)
    → ((ticks cfg ts j).pacing.cancels ≤ j.pacing.cancels + allowance j.pacing)
      × (j.pacing.cancel_requested ≡ true → (ticks cfg ts j).pacing.cancel_requested ≡ true)
cancelled_once cfg ts j = let (n, kept) = ticks-Spends cfg ts j in (omega (arith, n), kept)

abbrev or_zero : Option ℕ → ℕ
or_zero none = 0
or_zero (some n) = n

-- The longest wait that either answer reports.
abbrev pub longest : Option Contention → Option ClusterContention → ℕ
longest none none = 0
longest (some r) none = r.oldest_ms
longest none (some c) = or_zero c.oldest_upper_bound_ms
longest (some r) (some c) = max r.oldest_ms (or_zero c.oldest_upper_bound_ms)

-- The sessions that either answer counts.
abbrev pub waiting : Option Contention → Option ClusterContention → ℕ
waiting none none = 0
waiting (some r) none = r.direct + r.transitive
waiting none (some c) = c.direct + c.transitive
waiting (some r) (some c) = (r.direct + r.transitive) + (c.direct + c.transitive)

older-max : (ms : ℕ) (o : Option ℕ) → older ms o ≡ max ms (or_zero o)
older-max ms none = ground arith
older-max ms (some n) = refl

request_cancel_stands :
    (connected : Bool) (p : PacingState) → (request_cancel connected p).cancel_requested ≡ true
unfolding request_cancel
request_cancel_stands connected p = ground arith

climb-oldest :
    (cfg : PacingConfig) (now : ℕ) (p : PacingState)
    → (climb cfg now p).oldest_wait_ms ≡ p.oldest_wait_ms
unfolding climb contended bump_quiet
climb-oldest cfg now p = ground arith

apply_from_starving :
    (cfg : PacingConfig) (now : ℕ) (connected : Bool) (r : Contention) (o : Option ℕ)
    (p : PacingState)
    → is_null o ≡ false
    → cfg.max_waiter_wait_ms < r.oldest_ms
    → (apply_from cfg now connected r o p).cancel_requested ≡ true
unfolding apply_from
apply_from_starving cfg now connected r none p n h = absurd (cc)
apply_from_starving cfg now connected r (some pid) p n h =
    let late : ltb cfg.max_waiter_wait_ms (climb cfg now (measured cfg r pid p)).oldest_wait_ms
        ≡ true =
      ground (arith, climb-oldest cfg now (measured cfg r pid p)) in
    rw late (request_cancel_stands connected (climb cfg now (measured cfg r pid p)))

-- Does the local answer hold a null for the session that waits?
abbrev pub names_nobody : Option Contention → Bool
names_nobody none = false
names_nobody (some r) = is_null r.blocking_pid

-- Merging loses neither a waiter nor the longest wait, and keeps the local pid.
merged_keeps :
    (local : Option Contention) (cluster : Option ClusterContention)
    → 0 < waiting local cluster
    → (r : Contention) × (merged local cluster ≡ some r)
      × ((r.oldest_ms ≡ longest local cluster)
          × ((nobody r ≡ false) × (is_null r.blocking_pid ≡ names_nobody local)))
unfolding merged
merged_keeps none none h = absurd (omega (arith, h))
merged_keeps (some r) none h = (r, refl, (refl, (ground arith, refl)))
merged_keeps none (some c) h =
    (_, refl, (ground (arith, older-max 0 c.oldest_upper_bound_ms), (ground arith, refl)))
merged_keeps (some r) (some c) h =
    (_, refl, (older-max r.oldest_ms c.oldest_upper_bound_ms, (ground arith, refl)))

-- Where sessions wait behind a live job, by the local answer or by the cluster's, and one of them
-- has waited longer than `max_waiter_wait_ms` by either, and the local answer, if there is one,
-- names a session, a tick that comes to the job leaves a cancel request standing.
pub starving_cancelled :
    (cfg : PacingConfig) (now : ℕ) (local : ℕ → Option Contention)
    (cluster : ℕ → Option ClusterContention) (j : Job)
    → is_live j ≡ true
    → 0 < waiting (local j.worker_pid) (cluster j.worker_pid)
    → cfg.max_waiter_wait_ms < longest (local j.worker_pid) (cluster j.worker_pid)
    → names_nobody (local j.worker_pid) ≡ false
    → (tick_job cfg now (waiters local cluster) j).pacing.cancel_requested ≡ true
unfolding tick_job observed take apply
starving_cancelled cfg now local cluster j live some_wait late named =
    let (r, e, (age, (busy, pid))) =
      merged_keeps (local j.worker_pid) (cluster j.worker_pid) some_wait in
    let p = if must_cancel j then request_cancel j.connected j.pacing else j.pacing in
    rw (live, e, busy)
      (apply_from_starving cfg now j.connected r r.blocking_pid p (pid ∙ named) (rw age late))

-- Nothing of a job but the request to cancel it and the two counts.
abbrev pub SameButCounts : PacingState → PacingState → Type 0
SameButCounts p q =
    (q.throttled ≡ p.throttled)
    × ((q.paused ≡ p.paused)
        × ((q.contention_ticks ≡ p.contention_ticks)
            × (q.cancels ≡ p.cancels)
            × (q.cancel_requested ≡ p.cancel_requested)))

apply_from_null :
    (cfg : PacingConfig) (now : ℕ) (connected : Bool) (r : Contention) (o : Option ℕ)
    (p : PacingState)
    → is_null o ≡ true
    → SameButCounts p (apply_from cfg now connected r o p)
unfolding apply_from
apply_from_null cfg now connected r none p n = (refl, (refl, (refl, refl, refl)))
apply_from_null cfg now connected r (some pid) p n = absurd (cc)

-- Where sessions wait behind a live job whose flags ask for no cancel, but none of them directly on
-- the database that was asked, so that the local answer has a null in place of a session, the tick
-- neither slows nor pauses nor cancels the job, however many the cluster counts and however long they
-- have waited; and the jobs that come after it in the tick are left as if nothing had been observed.
pub far_waiters_lost :
    (cfg : PacingConfig) (now : ℕ) (local : ℕ → Option Contention)
    (cluster : ℕ → Option ClusterContention) (j : Job) (js : List Job)
    → is_live j ≡ true
    → must_cancel j ≡ false
    → 0 < waiting (local j.worker_pid) (cluster j.worker_pid)
    → names_nobody (local j.worker_pid) ≡ true
    → (seen : Job) × (tick cfg now (waiters local cluster) (j ∷ js)
        ≡ seen ∷ tick cfg now unobserved js)
      × SameButCounts j.pacing seen.pacing
unfolding tick left_to tick_job observed take apply raises
far_waiters_lost cfg now local cluster j js live flags some_wait nameless =
    let (r, e, (age, (busy, pid))) =
      merged_keeps (local j.worker_pid) (cluster j.worker_pid) some_wait in
    let raised : raises (merged (local j.worker_pid) (cluster j.worker_pid)) ≡ true =
      rw (e, busy, pid, nameless) refl in
    (
      tick_job cfg now (waiters local cluster) j,
      rw (live, raised) refl,
      rw (live, flags, e, busy)
          (apply_from_null cfg now j.connected r r.blocking_pid j.pacing (pid ∙ nameless)),
    )
