-- ===== src/Deploy/Group/Outcome.antt =====
-- Proofs about cpp/src/deploy.h, `run_group` and `drain`: what the log says when a group has ended.
use pg_laswell.Base.{
  ℕ, suc, ◌+◌, ◌≤◌, Bool, true, false, ◌≡◌, String, List, [], ◌∷◌, ◌==◌, length, All, length-append,
  if◌then◌else◌, arith,
}
use pg_laswell.Base.Counting.{count, count-append}
use pg_laswell.Deploy.Group.{
  Entry, started, planned, reported, World, Group, Turn, Phase, open_loop, draining, ended, is_ok,
  refused, repo_problem, config_problem, interrupted, open_with, run_group,
}
use pg_laswell.Deploy.Group.Invariant.{Steps, In, run_group_keeps}

-- How often an id starts, is planned and ends in a log.
abbrev pub start_count : String → List Entry → ℕ
start_count x [] = 0
start_count x (started a ∷ l) = let n = start_count x l in if a == x then suc n else n
start_count x (planned a ∷ l) = start_count x l
start_count x (reported a s ∷ l) = start_count x l

abbrev pub plan_count : String → List Entry → ℕ
plan_count x [] = 0
plan_count x (started a ∷ l) = plan_count x l
plan_count x (planned a ∷ l) = let n = plan_count x l in if a == x then suc n else n
plan_count x (reported a s ∷ l) = plan_count x l

abbrev pub end_count : String → List Entry → ℕ
end_count x [] = 0
end_count x (started a ∷ l) = end_count x l
end_count x (planned a ∷ l) = end_count x l
end_count x (reported a s ∷ l) = let n = end_count x l in if a == x then suc n else n

-- Every end in the log is a success.
abbrev pub AllSucceeded : List Entry → Type 0
AllSucceeded [] = Unit
AllSucceeded (started a ∷ l) = AllSucceeded l
AllSucceeded (planned a ∷ l) = AllSucceeded l
AllSucceeded (reported a s ∷ l) = ((s == "succeeded") ≡ true) × AllSucceeded l

module _ (w : World) (dry_run : Bool) (Ok : String → List Entry → Type 0) where
  -- What may start does so outside a dry run, accepted, when the log before it makes it `Ok`.
  abbrev pub Sound : List Entry → Type 0
  Sound [] = Unit
  Sound (started a ∷ l) = ((dry_run ≡ false) × ((w.accepts a ≡ true) × Ok a l)) × Sound l
  Sound (planned a ∷ l) = (dry_run ≡ true) × Sound l
  Sound (reported a s ∷ l) = Sound l

-- Each turn of the group's loops keeps what `Open` says while it is open, `Closing` when it gives up.
module _ (w : World) (dry_run : Bool) (cap : ℕ) (Ok : String → List Entry → Type 0)
    (T : String → ℕ) where
  pub record Closing (ws rs : List String) (l : List Entry) : Type 0 where
    pub balance : (x : String) → count x rs + end_count x l ≡ start_count x l
    pub ceiling : length rs ≤ cap
    pub sound : Sound w dry_run Ok l

  pub record Open (ws rs : List String) (l : List Entry) : Type 0 where
    pub closing : Closing ws rs l
    pub accounts : (x : String) → count x ws + (plan_count x l + start_count x l) ≡ T x
    pub clean : AllSucceeded l
    pub ready : All (λ id. Ok id l) ws

module _ (w : World) (dry_run : Bool) (cap : ℕ) (Ok : String → List Entry → Type 0) (T : String → ℕ)
    (later : (id : String) (e : Entry) (l : List Entry) → Ok id l → Ok id (e ∷ l)) where
  ready_later :
      (e : Entry) (l : List Entry) (ws : List String)
      → All (λ id. Ok id l) ws
      → All (λ id. Ok id (e ∷ l)) ws
  ready_later e l [] h = tt
  ready_later e l (id ∷ ws) h = (later id e l h.0, ready_later e l ws h.1)

  pub group_steps : Steps w dry_run cap (Open w dry_run cap Ok T) (Closing w dry_run cap Ok T)
  group_steps = record {
    weaker = λ ws rs l h. h.closing;
    to_plan = λ id ws rs l dry h. record {
      closing = record {
        balance = h.closing.balance;
        ceiling = h.closing.ceiling;
        sound = (dry, h.closing.sound);
      };
      accounts = λ x. ground (arith, h.accounts x);
      clean = h.clean;
      ready = ready_later (planned id) l ws h.ready.1;
    };
    to_start = λ id ws rs l wet good room h. record {
      closing = record {
        balance = λ x. ground (arith, h.closing.balance x, count-append x rs (id ∷ []));
        ceiling = omega (arith, room, length-append rs (id ∷ []));
        sound = ((wet, (good, h.ready.0)), h.closing.sound);
      };
      accounts = λ x. ground (arith, h.accounts x);
      clean = h.clean;
      ready = ready_later (started id) l ws h.ready.1;
    };
    to_give_up = λ id ws rs l h. record {
      balance = h.closing.balance;
      ceiling = h.closing.ceiling;
      sound = h.closing.sound;
    };
    to_succeed = λ id s ws pre post l good h. record {
      closing = record {
        balance = λ x.
            ground
              (arith, h.closing.balance x, count-append x pre post, count-append x pre (id ∷ post));
        ceiling =
            omega (arith, h.closing.ceiling, length-append pre (id ∷ post), length-append pre post);
        sound = h.closing.sound;
      };
      accounts = h.accounts;
      clean = (good, h.clean);
      ready = ready_later (reported id s) l ws h.ready;
    };
    to_report = λ id s ws pre post l h. record {
      balance =
          λ x. ground (arith, h.balance x, count-append x pre post, count-append x pre (id ∷ post));
      ceiling = omega (arith, h.ceiling, length-append pre (id ∷ post), length-append pre post);
      sound = h.sound;
    };
  }

phase_ceiling :
    (w : World) (dry_run : Bool) (cap : ℕ) (T : String → ℕ) (p : Phase) (g : Group)
    → In w dry_run cap
        (Open w dry_run cap (λ i l. Unit) T)
        (Closing w dry_run cap (λ i l. Unit) T)
        (group_steps w dry_run cap (λ i l. Unit) T (λ i e l h. tt))
        p
        g
    → length g.running ≤ cap
phase_ceiling w dry_run cap T open_loop g h = h.closing.ceiling
phase_ceiling w dry_run cap T (draining r) g h = h.1.ceiling
phase_ceiling w dry_run cap T (ended is_ok) g h = h.0.closing.ceiling
phase_ceiling w dry_run cap T (ended refused) g h = h.0.ceiling
phase_ceiling w dry_run cap T (ended repo_problem) g h = h.0.ceiling
phase_ceiling w dry_run cap T (ended config_problem) g h = h.0.ceiling
phase_ceiling w dry_run cap T (ended interrupted) g h = h.0.ceiling

everyone_ready : (ids : List String) → All {0, 0} (λ (id : String). Unit) ids
everyone_ready [] = tt
everyone_ready (id ∷ ids) = (tt, everyone_ready ids)

-- After any number of turns of a group that starts with nothing running, no more jobs run at once
-- than `max_concurrent_jobs`, whether its loop is open, drains or has ended.
pub run_group_ceiling :
    (w : World) (dry_run : Bool) (cap : ℕ) (ts : List Turn) (ids : List String)
    → length (run_group w dry_run cap ts (open_with ids [] [])).running ≤ cap
run_group_ceiling w dry_run cap ts ids =
    phase_ceiling w dry_run cap (λ x. count x ids) g.phase g
      (run_group_keeps w dry_run cap (Open w dry_run cap (λ i l. Unit) (λ x. count x ids))
        (Closing w dry_run cap (λ i l. Unit) (λ x. count x ids))
        (group_steps w dry_run cap (λ i l. Unit) (λ x. count x ids) (λ i e l h. tt)) ts
        (open_with ids [] []) start)
  where
    g : Group
    g = run_group w dry_run cap ts (open_with ids [] [])

    start : Open w dry_run cap (λ i l. Unit) (λ x. count x ids) ids [] []
    start = record {
      closing = record { balance = λ x. omega arith; ceiling = omega arith; sound = tt };
      accounts = λ x. omega arith;
      clean = tt;
      ready = everyone_ready ids;
    }
