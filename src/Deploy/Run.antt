-- ===== src/Deploy/Run.antt =====
-- cpp/src/deploy.h: `run`, from what `list_migrations` answers to the result. Each group that has
-- something to run takes the next list of turns; a deployment whose turns are used up has no result
-- yet. What the rehearsal of a specification comes to is a parameter, as it is for `run_chain`.
pub mod Log
pub mod InOrder
pub mod Whole
pub mod Offers
pub mod Promise
use pg_laswell.Base.{
  ℕ, zero, suc, ◌+◌, Bool, true, false, not, ◌&&◌, String, Option, none, some, List, [], ◌∷◌, ◌++◌,
  ◌==◌, is_nil, concat, keep, ltb, nat_eq, if◌then◌else◌,
}
use pg_laswell.Repository.Status.{RepoStatus, pending, failed}
use pg_laswell.Repository.Types.{RepoEntry}
use pg_laswell.Deploy.Group.{
  DeployResult, is_ok, refused, repo_problem, config_problem, Entry, World, Phase, open_loop,
  draining, ended, interrupted, Group, Turn, open_with, run_group,
}
use pg_laswell.Deploy.Chain.{would_run, Outcome, Line, run_chain}

pub record DeployOptions : Type 0 where
  pub dry_run : Bool
  pub chain : Bool
  pub status_only : Bool

-- An error, or the problems, the migrations, and the groups of the levels in order.
pub data Listing (P : Type 0) : Type 0 where
  not_listed : Listing P
  listed : List P → List RepoEntry → List (List (List String)) → Listing P

is_pending : RepoStatus → Bool
is_pending pending = true
is_pending _ = false

is_failed : RepoStatus → Bool
is_failed failed = true
is_failed _ = false

-- `pending` and `retry`, of all the entries that the listing has.
unfoldable pub pending_count : List RepoEntry → ℕ
unfolding is_pending
pending_count [] = 0
pending_count (e ∷ es) = let n = pending_count es in if is_pending e.status then suc n else n

unfoldable pub retry_count : List RepoEntry → ℕ
unfolding is_failed
retry_count [] = 0
retry_count (e ∷ es) = let n = retry_count es in if is_failed e.status then suc n else n

-- The loops over the levels and groups: what is left of the turns, or that it ended.
pub data Progress : Type 0 where
  going : List (List Turn) → List Entry → Progress
  stops : DeployResult → List Entry → Progress
  waits : List Entry → Progress

abbrev pub followed : Progress → (List (List Turn) → List Entry → Progress) → Progress
followed (going tss l) go = go tss l
followed (stops r l) go = stops r l
followed (waits l) go = waits l

-- What the end of a group is to the loop over the groups.
abbrev pub closed : Phase → List (List Turn) → List Entry → Progress
closed open_loop tss l = waits l
closed (draining r) tss l = waits l
closed (ended is_ok) tss l = going tss l
closed (ended refused) tss l = stops refused l
closed (ended repo_problem) tss l = stops repo_problem l
closed (ended config_problem) tss l = stops config_problem l
closed (ended interrupted) tss l = stops interrupted l

abbrev pub first_turns : List (List Turn) → List Turn
first_turns [] = []
first_turns (ts ∷ tss) = ts

abbrev pub later_turns : List (List Turn) → List (List Turn)
later_turns [] = []
later_turns (ts ∷ tss) = tss

module _ (w : World) (dry_run : Bool) (cap : ℕ) (es : List RepoEntry) where
  unfoldable pub deploy_group : List String → List (List Turn) → List Entry → Progress
  unfolding run_group
  deploy_group [] tss l = going tss l
  deploy_group (id ∷ ids) tss l =
      let g = run_group w dry_run cap (first_turns tss) (open_with (id ∷ ids) [] l) in
      closed g.phase (later_turns tss) g.log

  unfoldable pub deploy_groups : List (List String) → List (List Turn) → List Entry → Progress
  unfolding deploy_group would_run
  deploy_groups [] tss l = going tss l
  deploy_groups (ids ∷ groups) tss l =
      followed (deploy_group (keep (would_run es) ids) tss l) (deploy_groups groups)

  unfoldable pub deploy_levels :
      List (List (List String)) → List (List Turn) → List Entry → Progress
  unfolding deploy_groups
  deploy_levels [] tss l = going tss l
  deploy_levels (groups ∷ levels) tss l =
      followed (deploy_groups groups tss l) (deploy_levels levels)

pub record Deployed : Type 0 where
  pub result : Option DeployResult
  pub log : List Entry

abbrev pub at_once : DeployResult → Deployed
at_once r = record { result = some r; log = [] }

abbrev pub deployed : Progress → Deployed
deployed (going tss l) = record { result = some is_ok; log = l }
deployed (stops r l) = record { result = some r; log = l }
deployed (waits l) = record { result = none; log = l }

module _ {P : Type 0} (w : World) (rehearse : List Line → String → Outcome) (cap : ℕ)
    (opts : DeployOptions) where
  unfoldable pub run : Listing P → List (List Turn) → Deployed
  unfolding deploy_levels pending_count retry_count run_chain
  run not_listed tss = at_once config_problem
  run (listed problems es levels) tss =
      if not (is_nil problems)
      then at_once repo_problem
      else if opts.status_only
      then at_once (if ltb 0 (retry_count es) then refused else is_ok)
      else if nat_eq (pending_count es + retry_count es) 0
      then at_once is_ok
      else if opts.chain
      then at_once (run_chain w.readable rehearse es (concat (concat levels)))
      else deployed (deploy_levels w opts.dry_run cap es levels tss [])
