-- ===== src/Deploy/Group/Invariant.antt =====
-- Proofs about cpp/src/deploy.h, `run_group` and `drain`: how a statement passes through their loops.
use pg_laswell.Base.{
  ℕ, ◌<◌, Bool, true, false, not, ◌&&◌, ◌≡◌, refl, String, Option, none, some, List, [], ◌∷◌, ◌++◌,
  ◌==◌, is_nil, ltb, length, arith, Bool-cases, inl, inr, subst,
}
use mathlib.Core.List.{append_assoc, append-nil}
use pg_laswell.Deploy.Group.Attempts.{nil_of-is_nil, IsFailing, Fits, attempt-Fits}
use pg_laswell.Deploy.Group.{
  DeployResult, refused, interrupted, repo_problem, config_problem, is_ok, Entry, started, planned,
  reported, is_terminal, World, Attempt, gives_up, plans, starts, attempt, Filled, received,
  one_less, attempted, fill, Polled, poll, sweep, Phase, open_loop, draining, ended, Group, Turn,
  halt, polled, after_fill, is_some_signal, turn_in, turn, run_group,
}

-- A statement of the waiting ids, the running jobs and the log.
abbrev pub Claim : Type 1
Claim = List String → List String → List Entry → Type 0

-- What a loop keeps while it is open, and what is left of that when the deployment gives up.
pub record Steps (w : World) (dry_run : Bool) (cap : ℕ) (Holds Left : Claim) : Type 0 where
  pub weaker : (ws rs : List String) (l : List Entry) → Holds ws rs l → Left ws rs l
  pub to_plan :
      (id : String) (ws rs : List String) (l : List Entry)
      → dry_run ≡ true
      → Holds (id ∷ ws) rs l
      → Holds ws rs (planned id ∷ l)
  pub to_start :
      (id : String) (ws rs : List String) (l : List Entry)
      → dry_run ≡ false
      → w.accepts id ≡ true
      → length rs < cap
      → Holds (id ∷ ws) rs l
      → Holds ws (rs ++ id ∷ []) (started id ∷ l)
  pub to_give_up :
      (id : String) (ws rs : List String) (l : List Entry) → Holds (id ∷ ws) rs l → Left ws rs l
  pub to_succeed :
      (id s : String) (ws pre post : List String) (l : List Entry)
      → (s == "succeeded") ≡ true
      → Holds ws (pre ++ id ∷ post) l
      → Holds ws (pre ++ post) (reported id s ∷ l)
  pub to_report :
      (id s : String) (ws pre post : List String) (l : List Entry)
      → Left ws (pre ++ id ∷ post) l
      → Left ws (pre ++ post) (reported id s ∷ l)

module _ (w : World) (dry_run : Bool) (cap : ℕ) (Holds Left : Claim)
    (steps : Steps w dry_run cap Holds Left) where
  -- Of the end of the inner loop.
  FilledAs : Option DeployResult → Filled → Type 0
  FilledAs none f = Holds f.waiting f.running f.log
  FilledAs (some r) f = IsFailing r × Left f.waiting f.running f.log

  attempted_keeps :
      (a : Attempt) (id : String) (ids rs : List String) (l : List Entry) (p s : Filled)
      → Fits w dry_run id a
      → Holds (id ∷ ids) rs l
      → (dry_run ≡ true → FilledAs p.stop p)
      → (dry_run ≡ false → w.accepts id ≡ true → FilledAs s.stop s)
      → FilledAs (attempted a ids rs l p s).stop (attempted a ids rs l p s)
  unfolding FilledAs
  attempted_keeps (gives_up r) id ids rs l p s honest h hp hs =
      (honest, steps.to_give_up id ids rs l h)
  attempted_keeps plans id ids rs l p s honest h hp hs = hp honest
  attempted_keeps starts id ids rs l p s honest h hp hs = hs honest.0 honest.1

  fill_keeps :
      (signal : Option ℕ) (ws rs : List String) (l : List Entry)
      → Holds ws rs l
      → let f = fill w dry_run cap signal ws rs l in FilledAs f.stop f
  unfolding fill FilledAs
  fill_keeps signal [] rs l h = h
  fill_keeps signal (id ∷ ids) rs l h =
      elim (Bool-cases (ltb (length rs) cap && not (received signal))) [
        | inr full ↦ rw full h
        | inl room ↦ rw room (
            attempted_keeps (attempt w dry_run id) id ids rs l
              (fill w dry_run cap (one_less signal) ids rs (planned id ∷ l))
              (fill w dry_run cap (one_less signal) ids (rs ++ id ∷ []) (started id ∷ l))
              (attempt-Fits w dry_run id) h
              (λ dry.
                fill_keeps (one_less signal) ids rs (planned id ∷ l)
                  (steps.to_plan id ids rs l dry h))
              (λ wet good.
                fill_keeps (one_less signal) ids (rs ++ id ∷ []) (started id ∷ l)
                  (steps.to_start id ids rs l wet good (ground arith) h)))
      ]

  -- Of a pass over the running jobs.
  PolledAs : List String → Bool → Polled → Type 0
  PolledAs ws false p = Holds ws p.running p.log
  PolledAs ws true p = Left ws p.running p.log

  poll_keeps :
      (state : String → String) (ws kept rs : List String) (l : List Entry)
      → Holds ws (kept ++ rs) l
      → let p = poll state kept rs l in PolledAs ws p.bad p
  unfolding poll PolledAs
  poll_keeps state ws kept [] l h = rw (← append-nil kept) h
  poll_keeps state ws kept (id ∷ ids) l h = elim (Bool-cases (is_terminal (state id))) [
    | inr on ↦
        rw on (poll_keeps state ws (kept ++ id ∷ []) ids l (rw (append_assoc kept (id ∷ []) ids) h))
    | inl over ↦ rw over (elim (Bool-cases (state id == "succeeded")) [
      | inl good ↦ rw good (
          poll_keeps state ws kept ids (reported id (state id) ∷ l)
            (steps.to_succeed id (state id) ws kept ids l good h))
      | inr bad ↦
          rw bad
            (steps.to_report id (state id) ws kept ids l (steps.weaker ws (kept ++ id ∷ ids) l h))
    ])
  ]

  sweep_keeps :
      (state : String → String) (ws pre rs : List String) (l : List Entry)
      → Left ws (pre ++ rs) l
      → let s = sweep state rs l in Left ws (pre ++ s.0) s.1
  unfolding sweep
  sweep_keeps state ws pre [] l h = h
  sweep_keeps state ws pre (id ∷ ids) l h = elim (Bool-cases (is_terminal (state id))) [
    | inl over ↦ rw over (
        sweep_keeps state ws pre ids (reported id (state id) ∷ l)
          (steps.to_report id (state id) ws pre ids l h))
    | inr on ↦ rw on (
        let ih =
          sweep_keeps state ws (pre ++ id ∷ []) ids l (rw (append_assoc pre (id ∷ []) ids) h) in
        rw (← append_assoc pre (id ∷ []) (sweep state ids l).0) ih)
  ]

  -- Of a group between two turns: nothing runs once it has ended.
  abbrev EndedAs : DeployResult → Group → Type 0
  EndedAs is_ok g = Holds g.waiting g.running g.log × ((g.running ≡ []) × (g.waiting ≡ []))
  EndedAs refused g = Left g.waiting g.running g.log × (g.running ≡ [])
  EndedAs repo_problem g = Left g.waiting g.running g.log × (g.running ≡ [])
  EndedAs config_problem g = Left g.waiting g.running g.log × (g.running ≡ [])
  EndedAs interrupted g = Left g.waiting g.running g.log × (g.running ≡ [])

  abbrev pub In : Phase → Group → Type 0
  In open_loop g = Holds g.waiting g.running g.log
  In (draining r) g = IsFailing r × Left g.waiting g.running g.log
  In (ended r) g = EndedAs r g

  ended_failing :
      (r : DeployResult) (g : Group)
      → IsFailing r
      → Left g.waiting g.running g.log
      → g.running ≡ []
      → EndedAs r g
  ended_failing is_ok g bad h e = absurd bad
  ended_failing refused g bad h e = (h, e)
  ended_failing repo_problem g bad h e = (h, e)
  ended_failing config_problem g bad h e = (h, e)
  ended_failing interrupted g bad h e = (h, e)

  halt_keeps :
      (r : DeployResult) (ws rs : List String) (l : List Entry)
      → IsFailing r
      → Left ws rs l
      → In (halt r ws rs l).phase (halt r ws rs l)
  halt_keeps r ws [] l bad h = ended_failing r (halt r ws [] l) bad h refl
  halt_keeps r ws (id ∷ ids) l bad h = (bad, h)

  polled_keeps :
      (ws : List String) (p : Polled) → PolledAs ws p.bad p → In (polled ws p).phase (polled ws p)
  unfolding PolledAs
  polled_keeps ws p h = elim (Bool-cases p.bad) [
    | inl bad ↦
        rw bad (halt_keeps refused ws p.running p.log tt (subst (λ b. PolledAs ws b p) bad h))
    | inr good ↦ rw good (subst (λ b. PolledAs ws b p) good h)
  ]

  after_fill_keeps :
      (t : Turn) (o : Option DeployResult) (f : Filled)
      → FilledAs o f
      → In (after_fill t o f).phase (after_fill t o f)
  unfolding after_fill FilledAs
  after_fill_keeps t (some r) f h = halt_keeps r f.waiting f.running f.log h.0 h.1
  after_fill_keeps t none f h = elim (Bool-cases (is_some_signal t.signal)) [
    | inl told ↦ rw told (
        halt_keeps interrupted f.waiting f.running f.log tt
          (steps.weaker f.waiting f.running f.log h))
    | inr silent ↦ rw silent (elim (Bool-cases (is_nil f.running)) [
      | inl none_run ↦ rw none_run h
      | inr some_run ↦ rw some_run (
          polled_keeps f.waiting (poll t.state [] f.running f.log)
            (poll_keeps t.state f.waiting [] f.running f.log h))
    ])
  ]

  turn_in_keeps :
      (p : Phase) (t : Turn) (g : Group)
      → In p g
      → let g' = turn_in w dry_run cap p t g in p ≡ g.phase → In g'.phase g'
  unfolding turn_in
  turn_in_keeps open_loop t g h e = elim (Bool-cases (is_nil g.waiting && is_nil g.running)) [
    | inl over ↦
        rw over
          (h, (nil_of-is_nil g.running (ground arith), nil_of-is_nil g.waiting (ground arith)))
    | inr more ↦ rw more (
        after_fill_keeps t (fill w dry_run cap t.signal g.waiting g.running g.log).stop
          (fill w dry_run cap t.signal g.waiting g.running g.log)
          (fill_keeps t.signal g.waiting g.running g.log h))
  ]
  turn_in_keeps (draining r) t g h e =
      halt_keeps r g.waiting (sweep t.state g.running g.log).0 (sweep t.state g.running g.log).1 h.0
        (sweep_keeps t.state g.waiting [] g.running g.log h.1)
  turn_in_keeps (ended r) t g h e = subst (λ q. In q g) e h

  turn_keeps :
      (t : Turn) (g : Group) → In g.phase g → let g' = turn w dry_run cap t g in In g'.phase g'
  unfolding turn
  turn_keeps t g h = turn_in_keeps g.phase t g h refl

  pub run_group_keeps :
      (ts : List Turn) (g : Group)
      → In g.phase g
      → let g' = run_group w dry_run cap ts g in In g'.phase g'
  unfolding run_group
  run_group_keeps [] g h = h
  run_group_keeps (t ∷ ts) g h = run_group_keeps ts (turn w dry_run cap t g) (turn_keeps t g h)
