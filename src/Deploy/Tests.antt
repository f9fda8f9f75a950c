-- ===== src/Deploy/Tests.antt =====
-- Runs of cpp/src/deploy.h, `run`, `run_group` and `run_chain`, on small listings, and the theorems at them.
use pg_laswell.Base.{
  ◌≤◌, true, false, ◌≡◌, refl, String, none, some, List, [], ◌∷◌, ◌==◌, length, arith, ==_iff,
  if◌then◌else◌,
}
use pg_laswell.Base.Counting.{count}
use pg_laswell.Repository.Order.{runnable_ids}
use pg_laswell.Repository.Parallel.{no_groups, led_by, gather}
use pg_laswell.Repository.Assemble.{Assembled, assemble}
use pg_laswell.Repository.Assemble.Covers.{IsNamed}
use pg_laswell.Repository.Tests.Data.{create, fill, two_levels}
use pg_laswell.Deploy.Group.{
  is_ok, interrupted, started, reported, sound, World, Turn, ended, open_with, run_group,
}
use pg_laswell.Deploy.Group.Outcome
use pg_laswell.Deploy.Group.Outcome.{start_count, end_count, AllSucceeded, Sound}
use pg_laswell.Deploy.Chain.{Outcome, rehearsed, failed, Line, run_chain}
use pg_laswell.Deploy.Chain.Trace
use pg_laswell.Deploy.Chain.Trace.{line_ids, broken_ids}
use pg_laswell.Deploy.Run.{DeployOptions, run}
use pg_laswell.Deploy.Run.Log.{DepsMet}
use pg_laswell.Deploy.Run.Promise
use pg_laswell.Deploy.Run.Promise.{deployment}
use pg_laswell.Deploy.Run.Offers.{IsSingle}

abbrev kind_world : World
kind_world = record { readable = λ id. true; plan = λ id. sound; accepts = λ id. true }

abbrev all_succeed : Turn
all_succeed = record { signal = none; state = λ id. "succeeded" }

abbrev all_run : Turn
all_run = record { signal = none; state = λ id. "running" }

abbrev one_fails : Turn
one_fails = record { signal = none; state = λ id. if id == "b" then "failed" else "running" }

abbrev told : Turn
told = record { signal = some 1; state = λ id. "running" }

-- Two slots for three: the third starts when one has ended.
group_waits :
    (run_group kind_world false 2 (all_run ∷ []) (open_with ("a" ∷ "b" ∷ "c" ∷ []) [] [])).waiting
    ≡ "c" ∷ []
unfolding run_group
group_waits = refl

group_succeeds :
    (run_group kind_world false 2
      (all_succeed ∷ all_succeed ∷ all_succeed ∷ [])
      (open_with ("a" ∷ "b" ∷ "c" ∷ []) [] [])).phase
    ≡ ended is_ok
unfolding run_group
group_succeeds = refl

-- A failure is followed by the ends of what was running with it.
group_drains :
    (run_group kind_world false 2
      (one_fails ∷ all_run ∷ all_succeed ∷ [])
      (open_with ("a" ∷ "b" ∷ "c" ∷ []) [] [])).log
    ≡ reported "a" "succeeded" ∷ reported "b" "failed" ∷ started "b" ∷ started "a" ∷ []
unfolding run_group
group_drains = refl

-- A signal after the first start.
group_interrupted :
    (run_group kind_world false 2
      (told ∷ all_succeed ∷ [])
      (open_with ("a" ∷ "b" ∷ []) [] [])).phase
    ≡ ended interrupted
unfolding run_group
group_interrupted = refl

run_group_ceiling_example :
    length
      (run_group kind_world false 2 (all_run ∷ []) (open_with ("a" ∷ "b" ∷ "c" ∷ []) [] [])).running
    ≤ 2
run_group_ceiling_example =
    Outcome.run_group_ceiling kind_world false 2 (all_run ∷ []) ("a" ∷ "b" ∷ "c" ∷ [])

abbrev plain : DeployOptions
plain = record { dry_run = false; chain = false; status_only = false }

abbrev create_fails : List Line → String → Outcome
create_fails lines id = if id == "0001-create" then failed else rehearsed

all_clean :
    run_chain (λ id. true) (λ lines id. rehearsed) two_levels ("0001-create" ∷ "0002-fill" ∷ [])
    ≡ is_ok
unfolding run_chain
all_clean = refl

-- What `assemble` gives for the two.
abbrev two_assembled : Assembled
two_assembled = record {
  levels =
      led_by create (gather create create.relations.relations []) no_groups
      ∷ led_by fill (gather fill fill.relations.relations []) no_groups
      ∷ [];
  left = [];
  problems = [];
}

assemble-two_levels : assemble two_levels [] ≡ some two_assembled
unfolding assemble
assemble-two_levels = refl

two_levels-IsNamed : IsNamed two_levels
two_levels-IsNamed = (λ _. refl, (λ _. refl, tt))

two_levels-IsSingle : IsSingle two_levels
unfolding runnable_ids
two_levels-IsSingle x m =
    ground (
      arith,
      ==_iff "0001-create" x,
      ==_iff "0002-fill" x,
      ==_iff "0001-create" "0002-fill",
      differ,
    )
  where
    differ : ("0001-create" == "0002-fill") ≡ false
    differ = refl

abbrev two_turns : List (List Turn)
two_turns = (all_run ∷ all_succeed ∷ all_succeed ∷ []) ∷ (all_succeed ∷ all_succeed ∷ []) ∷ []

-- The second starts when the first has succeeded.
run-two_levels :
    deployment kind_world create_fails 3 plain two_levels two_assembled two_turns ≡ record {
      result = some is_ok;
      log =
          reported "0002-fill" "succeeded"
          ∷ started "0002-fill"
          ∷ reported "0001-create" "succeeded"
          ∷ started "0001-create"
          ∷ [];
    }
unfolding run gather
run-two_levels = refl

deploy_in_order_example :
    Sound kind_world false
      (DepsMet two_levels)
      (deployment kind_world create_fails 3 plain two_levels two_assembled two_turns).log
deploy_in_order_example =
    Promise.deploy_in_order kind_world create_fails 3 plain two_levels [] two_assembled two_turns
      two_levels-IsNamed two_levels-IsSingle assemble-two_levels

deploy_reports_all_example :
    end_count "0001-create"
      (deployment kind_world create_fails 3 plain two_levels two_assembled two_turns).log
    ≡ start_count "0001-create"
        (deployment kind_world create_fails 3 plain two_levels two_assembled two_turns).log
deploy_reports_all_example =
    Promise.deploy_reports_all kind_world create_fails 3 plain two_levels [] two_assembled two_turns
      two_levels-IsNamed two_levels-IsSingle assemble-two_levels is_ok "0001-create"
      (rw run-two_levels refl)

deploy_ok_example :
    ((start_count "0002-fill"
          (deployment kind_world create_fails 3 plain two_levels two_assembled two_turns).log
        ≡ count "0002-fill" (runnable_ids two_levels))
      × (end_count "0002-fill"
            (deployment kind_world create_fails 3 plain two_levels two_assembled two_turns).log
          ≡ count "0002-fill" (runnable_ids two_levels)))
    × AllSucceeded
        (deployment kind_world create_fails 3 plain two_levels two_assembled two_turns).log
deploy_ok_example =
    Promise.deploy_ok kind_world create_fails 3 plain two_levels [] two_assembled two_turns
      two_levels-IsNamed two_levels-IsSingle assemble-two_levels "0002-fill" refl refl refl
      (rw run-two_levels refl)
