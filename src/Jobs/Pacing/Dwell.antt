-- ===== src/Jobs/Pacing/Dwell.antt =====
-- Proofs about cpp/src/jobs.h, `Observer::apply` and `bump_quiet`: when a job is paused.
use pg_laswell.Base.{
  ℕ, suc, ◌≤◌, ◌<◌, Bool, true, false, not, ◌&&◌, ◌||◌, ◌≡◌, ◌↔◌, ◌⊎◌, inl, inr, refl, Option, none,
  some, List, [], ◌∷◌, leb, ltb, if◌then◌else◌, arith, Bool-cases,
}
use pg_laswell.Jobs.Pacing.{
  PacingConfig, PacingState, Contention, take, apply, apply_from, raises, is_null, nobody, climb,
  contended, bump_quiet, clear_contention, request_cancel, measured,
}

-- The transitive count of a tick.
abbrev pub count_of : Option Contention → ℕ
count_of none = 0
count_of (some r) = r.transitive

abbrev pub is_high : PacingConfig → Option Contention → Bool
is_high cfg r = leb cfg.pause_waiters (count_of r)

abbrev pub is_low : PacingConfig → Option Contention → Bool
is_low cfg r = leb (count_of r) cfg.resume_waiters

-- What cpp/src/config.h makes sure of.
abbrev pub IsSound : PacingConfig → Type 0
IsSound cfg = (cfg.resume_waiters < cfg.pause_waiters) × (0 < cfg.contention_dwell_ticks)

-- The three fields that remember, and whether the job is paused.
abbrev Memory : PacingConfig → Option Contention → PacingState → PacingState → Type 0
Memory cfg r p q =
    (q.contention_ticks ≡ (if is_high cfg r then suc p.contention_ticks else 0))
    × ((q.quiet_ticks ≡ (if is_low cfg r then suc p.quiet_ticks else 0))
        × (q.paused ≡ (
            if is_high cfg r
            then p.paused || leb cfg.contention_dwell_ticks (suc p.contention_ticks)
            else p.paused
              && not (is_low cfg r && leb cfg.contention_dwell_ticks (suc p.quiet_ticks)))))

clear-Memory :
    (cfg : PacingConfig) (r : Option Contention) (p : PacingState)
    → IsSound cfg
    → count_of r ≡ 0
    → Memory cfg r p (clear_contention cfg p)
unfolding clear_contention bump_quiet
clear-Memory cfg r p s z =
    (ground (arith, s.0, s.1), (ground (arith, s.0, s.1), ground (arith, s.0, s.1)))

request_cancel-Memory :
    (cfg : PacingConfig) (r : Option Contention) (connected : Bool) (p q : PacingState)
    → Memory cfg r p q
    → Memory cfg r p (request_cancel connected q)
unfolding request_cancel
request_cancel-Memory cfg r connected p q h = elim (Bool-cases q.cancel_requested) [
  | inl a ↦ rw a h
  | inr a ↦ rw a (elim (Bool-cases connected) [ inl b ↦ rw b h | inr b ↦ rw b h ])
]

climb-Memory :
    (cfg : PacingConfig) (now : ℕ) (r : Contention) (p q : PacingState)
    → IsSound cfg
    → q.transitive_waiters ≡ r.transitive
    → q.contention_ticks ≡ p.contention_ticks
    → q.quiet_ticks ≡ p.quiet_ticks
    → q.paused ≡ p.paused
    → Memory cfg (some r) p (climb cfg now q)
unfolding climb contended bump_quiet
climb-Memory cfg now r p q s t c d e =
    (ground (arith, s.0, s.1), (ground (arith, s.0, s.1), ground (arith, s.0, s.1)))

apply_from-Memory :
    (cfg : PacingConfig) (now : ℕ) (connected : Bool) (r : Contention) (o : Option ℕ)
    (p : PacingState)
    → IsSound cfg
    → is_null o ≡ false
    → Memory cfg (some r) p (apply_from cfg now connected r o p)
unfolding apply_from
apply_from-Memory cfg now connected r none p s n = absurd (cc)
apply_from-Memory cfg now connected r (some pid) p s n =
    let q = climb cfg now (measured cfg r pid p) in
    let h = climb-Memory cfg now r p (measured cfg r pid p) s refl refl refl refl in
    elim (Bool-cases (ltb cfg.max_waiter_wait_ms q.oldest_wait_ms)) [
      | inl late ↦ rw late (request_cancel-Memory cfg (some r) connected p q h)
      | inr soon ↦ rw soon h
    ]

take-Memory :
    (cfg : PacingConfig) (now : ℕ) (connected : Bool) (r : Option Contention) (p : PacingState)
    → IsSound cfg
    → raises r ≡ false
    → Memory cfg r p (take cfg now connected r p)
unfolding take apply raises
take-Memory cfg now connected none p s n = clear-Memory cfg none p s refl
take-Memory cfg now connected (some r) p s n = elim (Bool-cases (nobody r)) [
  | inl zero_all ↦ rw zero_all (clear-Memory cfg (some r) p s (ground arith))
  | inr some_wait ↦
      rw some_wait (apply_from-Memory cfg now connected r r.blocking_pid p s (ground arith))
]

-- A tick that raises leaves what is remembered.
abbrev Remembers : PacingState → PacingState → Type 0
Remembers p q =
    (q.contention_ticks ≡ p.contention_ticks)
    × ((q.quiet_ticks ≡ p.quiet_ticks) × (q.paused ≡ p.paused))

apply_from-Remembers :
    (cfg : PacingConfig) (now : ℕ) (connected : Bool) (r : Contention) (o : Option ℕ)
    (p : PacingState)
    → is_null o ≡ true
    → Remembers p (apply_from cfg now connected r o p)
unfolding apply_from
apply_from-Remembers cfg now connected r none p n = (refl, (refl, refl))
apply_from-Remembers cfg now connected r (some pid) p n = absurd (cc)

take-Remembers :
    (cfg : PacingConfig) (now : ℕ) (connected : Bool) (r : Option Contention) (p : PacingState)
    → raises r ≡ true
    → Remembers p (take cfg now connected r p)
unfolding take apply raises
take-Remembers cfg now connected none p h = absurd (cc)
take-Remembers cfg now connected (some r) p h =
    let busy : nobody r ≡ false = ground arith in
    rw busy (apply_from-Remembers cfg now connected r r.blocking_pid p (ground arith))

-- A tick that was observed: its time, whether there is a connection to cancel on, what it read.
pub record Tick : Type 0 where
  pub now : ℕ
  pub connected : Bool
  pub reading : Option Contention

-- The ticks so far, the last one first.
abbrev pub paced : PacingConfig → PacingState → List Tick → PacingState
paced cfg p [] = p
paced cfg p (t ∷ ts) = take cfg t.now t.connected t.reading (paced cfg p ts)

-- For how many ticks up to now a test has held without a break, those that raise left aside.
abbrev pub streak : (Option Contention → Bool) → List Tick → ℕ
streak test [] = 0
streak test (t ∷ ts) =
    let rest = streak test ts in
    if raises t.reading then rest else if test t.reading then suc rest else 0

-- A job that was not watched yet.
abbrev pub Unwatched : PacingState → Type 0
Unwatched p = (p.contention_ticks ≡ 0) × (p.quiet_ticks ≡ 0)

paced_streaks :
    (cfg : PacingConfig) (p : PacingState) (ts : List Tick)
    → IsSound cfg
    → Unwatched p
    → ((paced cfg p ts).contention_ticks ≡ streak (is_high cfg) ts)
      × ((paced cfg p ts).quiet_ticks ≡ streak (is_low cfg) ts)
paced_streaks cfg p [] s u = u
paced_streaks cfg p (t ∷ ts) s u =
    let (c, q) = paced_streaks cfg p ts s u in
    elim (Bool-cases (raises t.reading)) [
      | inl lost ↦
          let m = take-Remembers cfg t.now t.connected t.reading (paced cfg p ts) lost in
          (rw (lost, m.0) c, rw (lost, m.1.0) q)
      | inr read ↦
          let m = take-Memory cfg t.now t.connected t.reading (paced cfg p ts) s read in
          (rw (read, m.0, c) refl, rw (read, m.1.0, q) refl)
    ]

-- The case distinction of a tick, on its tests and its counters.
paused_next :
    (high low was now : Bool) (n q dwell : ℕ)
    → (high && low) ≡ false
    → 0 < dwell
    → now ≡ (if high then was || leb dwell (suc n) else was && not (low && leb dwell (suc q)))
    → (now ≡ true) ↔ (
        (dwell ≤ (if high then suc n else 0))
        ⊎ ((was ≡ true) × ((if low then suc q else 0) < dwell)))
paused_next true true was now n q dwell apart d e = absurd (cc)
paused_next true false true now n q dwell apart d e =
    (λ h. inr (refl, ground arith), λ h. ground arith)
paused_next true false false now n q dwell apart d e = (
  λ h. inl (ground arith),
  λ h. elim h [ inl long ↦ ground arith | inr other ↦ absurd (ground (arith, other.0)) ],
)
paused_next false low true now n q dwell apart d e = (
  λ h. inr (refl, ground arith),
  λ h. elim h [ inl long ↦ absurd (ground arith) | inr other ↦ ground (arith, other.1) ],
)
paused_next false low false now n q dwell apart d e = (
  λ h. absurd (ground arith),
  λ h. elim h [ inl long ↦ absurd (ground arith) | inr other ↦ absurd (ground (arith, other.0)) ],
)

-- A tick that is not lost.
paused_read :
    (cfg : PacingConfig) (p : PacingState) (t : Tick) (ts : List Tick)
    → IsSound cfg
    → Unwatched p
    → raises t.reading ≡ false
    → ((paced cfg p (t ∷ ts)).paused ≡ true) ↔ (
        (cfg.contention_dwell_ticks ≤ streak (is_high cfg) (t ∷ ts))
        ⊎ (((paced cfg p ts).paused ≡ true)
            × (streak (is_low cfg) (t ∷ ts) < cfg.contention_dwell_ticks)))
paused_read cfg p t ts s u read =
    let (c, q) = paced_streaks cfg p ts s u in
    let m = (take-Memory cfg t.now t.connected t.reading (paced cfg p ts) s read).1.1 in
    rw (read, ← c, ← q)
      (paused_next (is_high cfg t.reading) (is_low cfg t.reading) (paced cfg p ts).paused
        (paced cfg p (t ∷ ts)).paused (paced cfg p ts).contention_ticks (paced cfg p ts).quiet_ticks
        cfg.contention_dwell_ticks (ground (arith, s.0)) s.1 m)

-- What holds between the streaks and the pause after any ticks.
abbrev Settled : PacingConfig → PacingState → List Tick → Type 0
Settled cfg p ts =
    ((paced cfg p ts).paused ≡ true
      → (cfg.contention_dwell_ticks ≤ streak (is_high cfg) ts)
        ⊎ (streak (is_low cfg) ts < cfg.contention_dwell_ticks))
    × (cfg.contention_dwell_ticks ≤ streak (is_high cfg) ts → (paced cfg p ts).paused ≡ true)

settled :
    (cfg : PacingConfig) (p : PacingState) (ts : List Tick)
    → IsSound cfg
    → Unwatched p
    → Settled cfg p ts
settled cfg p [] s u = (λ h. inr s.1, λ h. absurd (omega (arith, h, s.1)))
settled cfg p (t ∷ ts) s u = elim (Bool-cases (raises t.reading)) [
  | inl lost ↦
      let m = take-Remembers cfg t.now t.connected t.reading (paced cfg p ts) lost in
      rw (lost, m.1.1) (settled cfg p ts s u)
  | inr read ↦
      let (forth, back) = paused_read cfg p t ts s u read in
      (λ h. elim (forth h) [ inl long ↦ inl long | inr other ↦ inr other.1 ], λ h. back (inl h))
]

-- After any ticks of a job that was not watched before, with `resume_waiters` below
-- `pause_waiters` and a dwell of at least one tick, the job is paused exactly if the transitive count
-- has been at or above `pause_waiters` for `contention_dwell_ticks` ticks on end, or it was paused
-- before and the count has not been at or below `resume_waiters` for that many ticks on end. A tick
-- that raises, since sessions wait and the answer names none, counts for neither.
pub paused_exactly :
    (cfg : PacingConfig) (p : PacingState) (t : Tick) (ts : List Tick)
    → IsSound cfg
    → Unwatched p
    → ((paced cfg p (t ∷ ts)).paused ≡ true) ↔ (
        (cfg.contention_dwell_ticks ≤ streak (is_high cfg) (t ∷ ts))
        ⊎ (((paced cfg p ts).paused ≡ true)
            × (streak (is_low cfg) (t ∷ ts) < cfg.contention_dwell_ticks)))
paused_exactly cfg p t ts s u = elim (Bool-cases (raises t.reading)) [
  | inr read ↦ paused_read cfg p t ts s u read
  | inl lost ↦
      let m = take-Remembers cfg t.now t.connected t.reading (paced cfg p ts) lost in
      let (forth, back) = settled cfg p ts s u in
      rw (lost, m.1.1)
        (
          λ h. elim (forth h) [ inl long ↦ inl long | inr low ↦ inr (h, low) ],
          λ h. elim h [ inl long ↦ back long | inr other ↦ other.0 ],
        )
]
