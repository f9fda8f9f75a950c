-- ===== src/Deploy/Run/Promise.antt =====
-- Proofs about cpp/src/deploy.h, `run`: what a deployment of an assembled listing promises.
use pg_laswell.Base.{
  ℕ, ◌+◌, Bool, true, false, ◌≡◌, ◌≢◌, inl, inr, refl, ap, String, some, List, [], ◌∷◌, is_nil,
  contains, concat, keep, length, nat_eq, arith, Bool-cases, List-cases, ◌⊎◌,
}
use pg_laswell.Base.Counting.{count, count-keep, count_pos, contains_of_pos, count-zero}
use pg_laswell.Repository.Types.{RepoEntry, View}
use pg_laswell.Repository.Order.{runnable_ids}
use pg_laswell.Repository.Assemble.{Assembled, assemble}
use pg_laswell.Repository.Assemble.Covers.{IsNamed}
use pg_laswell.Deploy.Group.{
  DeployResult, is_ok, refused, repo_problem, config_problem, interrupted, Entry, started, planned,
  reported, World, Turn,
}
use pg_laswell.Deploy.Group.Attempts.{IsFailing}
use pg_laswell.Deploy.Group.Outcome.{start_count, end_count, AllSucceeded, Sound}
use pg_laswell.Deploy.Chain.{would_run, Outcome, Line}
use pg_laswell.Deploy.Run.{
  DeployOptions, listed, pending_count, retry_count, Progress, going, stops, waits, deploy_levels,
  Deployed, at_once, deployed, run,
}
use pg_laswell.Deploy.Run.Log.{DepsMet, plan_count-wet}
use pg_laswell.Deploy.Run.InOrder.{IsReady, After, deploy_levels-After}
use pg_laswell.Deploy.Run.Offers.{IsSingle, Offers, assemble-Offers, would_run_of}
use pg_laswell.Deploy.Run.Whole.{order_ids}

runnable-length :
    (es : List RepoEntry) → length (runnable_ids es) ≡ pending_count es + retry_count es
unfolding runnable_ids pending_count retry_count
runnable-length [] = refl
runnable-length (e ∷ es) = ground (arith, runnable-length es)

nil_of_length : (xs : List String) → length xs ≡ 0 → xs ≡ []
nil_of_length [] h = refl
nil_of_length (x ∷ xs) h = absurd (omega arith)

never_ok : (a : DeployResult) → IsFailing a → some a ≢ some is_ok
never_ok is_ok bad e = bad
never_ok refused bad e = ground arith
never_ok repo_problem bad e = ground arith
never_ok config_problem bad e = ground arith
never_ok interrupted bad e = ground arith

bad_result : some repo_problem ≢ some is_ok
bad_result e = ground arith

Sound-ready :
    (w : World) (dry_run : Bool) (es : List RepoEntry) (l : List Entry)
    → Sound w dry_run (IsReady w dry_run es) l
    → Sound w dry_run (DepsMet es) l
Sound-ready w dry_run es [] h = tt
Sound-ready w dry_run es (started a ∷ l) ((wet, (good, met)), h) =
    ((wet, (good, met wet)), Sound-ready w dry_run es l h)
Sound-ready w dry_run es (planned a ∷ l) (dry, h) = (dry, Sound-ready w dry_run es l h)
Sound-ready w dry_run es (reported a s ∷ l) h = Sound-ready w dry_run es l h

module _ (w : World) (rehearse : List Line → String → Outcome) (cap : ℕ) (opts : DeployOptions)
    (es : List RepoEntry) (r : Assembled) (tss : List (List Turn)) where
  -- The deployment of a listing that was assembled.
  abbrev pub deployment : Deployed
  deployment = run w rehearse cap opts (listed r.problems es (order_ids r.levels)) tss

  abbrev levels_progress : Progress
  levels_progress = deploy_levels w opts.dry_run cap es (order_ids r.levels) tss []

  -- A statement of every way that `run` may end holds of it.
  run-cases :
      (Q : Deployed → Type 0)
      → ((a : DeployResult) → Q (at_once a))
      → Q (deployed levels_progress)
      → Q deployment
  unfolding run
  run-cases Q early walk = elim (Bool-cases (is_nil r.problems)) [
    | inr some_problem ↦ rw some_problem (early _)
    | inl no_problem ↦ rw no_problem (elim (Bool-cases opts.status_only) [
      | inl status ↦ rw status (early _)
      | inr act ↦ rw act (elim (Bool-cases (nat_eq (pending_count es + retry_count es) 0)) [
        | inl nothing ↦ rw nothing (early _)
        | inr more ↦ rw more (elim (Bool-cases opts.chain) [
          | inl chain ↦ rw chain (early _)
          | inr no_chain ↦ rw no_chain walk
        ])
      ])
    ])
  ]

  -- How a deployment that is no rehearsal may end well.
  ok-cases :
      opts.status_only ≡ false
      → opts.chain ≡ false
      → deployment.result ≡ some is_ok
      → (r.problems ≡ [])
        × (((deployment ≡ at_once is_ok) × (runnable_ids es ≡ []))
            ⊎ (deployment ≡ deployed levels_progress))
  unfolding run
  ok-cases act no_chain ok = elim (List-cases r.problems) [
    | inr (p, ps, some_problem) ↦ absurd (ground (arith, bad_result))
    | inl no_problem ↦ (
      no_problem,
      elim (Bool-cases (nat_eq (pending_count es + retry_count es) 0)) [
        | inl nothing ↦ inl (
          rw (no_problem, act, nothing) refl,
          nil_of_length (runnable_ids es) (ground (arith, runnable-length es)),
        )
        | inr more ↦ inr (rw (no_problem, act, more, no_chain) refl)
      ],
    )
  ]

module _ (w : World) (rehearse : List Line → String → Outcome) (cap : ℕ) (opts : DeployOptions)
    (es : List RepoEntry) (views : List (String × View)) (r : Assembled) (tss : List (List Turn))
    (named : IsNamed es) (single : IsSingle es) (e : assemble es views ≡ some r) where
  offers : Offers es r
  offers = assemble-Offers es views r named e

  runs_listed :
      (x : String)
      → contains (concat (concat (order_ids r.levels))) x ≡ true
      → would_run es x ≡ true
  runs_listed x m = would_run_of es x (single x there) there
    where
      there : contains (runnable_ids es) x ≡ true
      there =
          contains_of_pos x (runnable_ids es)
            (omega (arith, count_pos x (concat (concat (order_ids r.levels))) m, offers.all x))

  kept_all :
      (x : String)
      → r.problems ≡ []
      → count x (keep (would_run es) (concat (concat (order_ids r.levels))))
        ≡ count x (runnable_ids es)
  kept_all x p = ground (
    arith,
    count-keep (would_run es) x (concat (concat (order_ids r.levels))),
    offers.all x,
    ap (count x) (offers.none_left p),
    runs_listed x,
    count-zero x (concat (concat (order_ids r.levels))),
  )

  levels-After :
      After w opts.dry_run es
        (keep (would_run es) (concat (concat (order_ids r.levels))))
        (levels_progress w rehearse cap opts es r tss)
  levels-After =
      deploy_levels-After w opts.dry_run cap es [] [] (order_ids r.levels) tss [] (λ d m. m)
        runs_listed offers.met
        (record { even = λ x. refl; accounts = λ x. refl; clean = tt; sound = tt })

  After-Sound :
      (done : List String) (p : Progress)
      → After w opts.dry_run es done p
      → Sound w opts.dry_run (DepsMet es) (deployed p).log
  After-Sound done (going ts l) h = Sound-ready w opts.dry_run es l h.sound
  After-Sound done (stops a l) h = Sound-ready w opts.dry_run es l h.1.1
  After-Sound done (waits l) h = Sound-ready w opts.dry_run es l h

  -- At every moment of a deployment, in whatever way its jobs end and whenever a signal comes, what
  -- has started was accepted, outside a dry run, and not before each dependency that the repository
  -- holds of it was applied or was reported as succeeded.
  pub deploy_in_order :
      Sound w opts.dry_run (DepsMet es) (deployment w rehearse cap opts es r tss).log
  deploy_in_order =
      run-cases w rehearse cap opts es r tss (λ d. Sound w opts.dry_run (DepsMet es) d.log)
        (λ a. tt)
        (After-Sound (keep (would_run es) (concat (concat (order_ids r.levels))))
          (levels_progress w rehearse cap opts es r tss) levels-After)

  After-even :
      (done : List String) (p : Progress) (a : DeployResult) (x : String)
      → After w opts.dry_run es done p
      → (deployed p).result ≡ some a
      → end_count x (deployed p).log ≡ start_count x (deployed p).log
  After-even done (going ts l) a x h k = h.even x
  After-even done (stops b l) a x h k = h.1.0 x
  After-even done (waits l) a x h k = absurd (cc)

  -- A deployment that has a result, whichever it is, has reported the end of every job that it
  -- started.
  pub deploy_reports_all :
      (a : DeployResult) (x : String)
      → (deployment w rehearse cap opts es r tss).result ≡ some a
      → end_count x (deployment w rehearse cap opts es r tss).log
        ≡ start_count x (deployment w rehearse cap opts es r tss).log
  deploy_reports_all a x =
      run-cases w rehearse cap opts es r tss
        (λ d. d.result ≡ some a → end_count x d.log ≡ start_count x d.log) (λ b k. refl)
        (After-even (keep (would_run es) (concat (concat (order_ids r.levels))))
          (levels_progress w rehearse cap opts es r tss) a x levels-After)

  -- A walk that went through all its groups.
  walk_ok :
      (done : List String) (p : Progress) (x : String)
      → opts.dry_run ≡ false
      → count x done ≡ count x (runnable_ids es)
      → After w opts.dry_run es done p
      → (deployed p).result ≡ some is_ok
      → ((start_count x (deployed p).log ≡ count x (runnable_ids es))
          × (end_count x (deployed p).log ≡ count x (runnable_ids es)))
        × AllSucceeded (deployed p).log
  walk_ok done (going ts l) x wet c h k =
      let no_plan = plan_count-wet w opts.dry_run (IsReady w opts.dry_run es) x l h.sound wet in
      (
        (
          omega (arith, h.accounts x, no_plan, c),
          omega (arith, h.even x, h.accounts x, no_plan, c),
        ),
        h.clean,
      )
  walk_ok done (stops a l) x wet c h k = absurd (never_ok a h.0 k)
  walk_ok done (waits l) x wet c h k = absurd (cc)

  -- A deployment that is no dry run, no status report and no rehearsal, and that succeeds, has started
  -- every specification that would run once for each entry of it, each of these jobs was reported, and
  -- every report is a success.
  pub deploy_ok :
      (x : String)
      → opts.dry_run ≡ false
      → opts.status_only ≡ false
      → opts.chain ≡ false
      → (deployment w rehearse cap opts es r tss).result ≡ some is_ok
      → ((start_count x (deployment w rehearse cap opts es r tss).log ≡ count x (runnable_ids es))
          × (end_count x (deployment w rehearse cap opts es r tss).log ≡ count x (runnable_ids es)))
        × AllSucceeded (deployment w rehearse cap opts es r tss).log
  deploy_ok x wet act no_chain ok =
      let (no_problem, ways) = ok-cases w rehearse cap opts es r tss act no_chain ok in
      elim ways [
        | inl (same, nothing) ↦ rw (same, nothing) ((refl, refl), tt)
        | inr same ↦ rw same (
            walk_ok (keep (would_run es) (concat (concat (order_ids r.levels))))
              (levels_progress w rehearse cap opts es r tss) x wet (kept_all x no_problem)
              levels-After (rw same at ok))
      ]
