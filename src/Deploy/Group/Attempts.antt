-- ===== src/Deploy/Group/Attempts.antt =====
-- Proofs about cpp/src/deploy.h, `run_group`: what one round of the inner loop may come to.
use pg_laswell.Base.{
  Bool, true, false, ◌≡◌, refl, String, List, [], ◌∷◌, is_nil, if◌then◌else◌, arith, Bool-cases,
  inl, inr,
}
use pg_laswell.Deploy.Group.{
  DeployResult, refused, interrupted, repo_problem, config_problem, is_ok, report_plan_outcome,
  planning, World, Attempt, gives_up, plans, starts, attempt,
}

pub nil_of-is_nil : (xs : List String) → is_nil xs ≡ true → xs ≡ []
nil_of-is_nil [] h = refl
nil_of-is_nil (x ∷ xs) h = absurd (ground arith)

-- A result that gives up.
abbrev pub IsFailing : DeployResult → Type 0
IsFailing is_ok = ⊥
IsFailing refused = Unit
IsFailing repo_problem = Unit
IsFailing config_problem = Unit
IsFailing interrupted = Unit

module _ (w : World) (dry_run : Bool) (id : String) where
  -- It plans only in a dry run, and starts only outside one what the server accepts.
  abbrev pub Fits : Attempt → Type 0
  Fits (gives_up r) = IsFailing r
  Fits plans = dry_run ≡ true
  Fits starts = (dry_run ≡ false) × (w.accepts id ≡ true)

  planning-Fits : (r : DeployResult) → dry_run ≡ true → Fits (planning r)
  unfolding planning
  planning-Fits is_ok dry = dry
  planning-Fits refused dry = tt
  planning-Fits repo_problem dry = tt
  planning-Fits config_problem dry = tt
  planning-Fits interrupted dry = tt

  started-Fits : dry_run ≡ false → Fits (if w.accepts id then starts else gives_up refused)
  started-Fits wet = elim (Bool-cases (w.accepts id)) [
    | inl good ↦ rw good (wet, good)
    | inr bad ↦ rw bad tt
  ]

  chosen-Fits :
      (b : Bool)
      → dry_run ≡ b
      → Fits (
          if b
          then planning (report_plan_outcome (w.plan id))
          else if w.accepts id
          then starts
          else gives_up refused)
  chosen-Fits true dry = planning-Fits (report_plan_outcome (w.plan id)) dry
  chosen-Fits false wet = started-Fits wet

  pub attempt-Fits : Fits (attempt w dry_run id)
  unfolding attempt
  attempt-Fits = elim (Bool-cases (w.readable id)) [
    | inr lost ↦ rw lost tt
    | inl found ↦ rw found (chosen-Fits dry_run refl)
  ]
