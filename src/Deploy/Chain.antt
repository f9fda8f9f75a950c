-- ===== src/Deploy/Chain.antt =====
-- cpp/src/deploy.h: `run_chain`, the rehearsal of a whole listing. What the rehearsal of a
-- specification comes to, on top of those rehearsed before it, is a parameter; the log has an entry
-- for each specification, the last one first.
pub mod Trace
use pg_laswell.Base.{
  ℕ, suc, ◌+◌, Bool, true, false, not, ◌&&◌, String, Option, none, some, List, [], ◌∷◌, ◌==◌,
  contains, nat_eq, if◌then◌else◌,
}
use pg_laswell.Repository.Status.{is_runnable}
use pg_laswell.Repository.Types.{RepoEntry}
use pg_laswell.Deploy.Group.{DeployResult, is_ok, refused, repo_problem}

-- `by_id[m.specId] = m` of each: the last entry of an id replaces the earlier ones.
unfoldable pub entry_of : List RepoEntry → String → Option RepoEntry
entry_of [] id = none
entry_of (e ∷ es) id = elim (entry_of es id) [
  | some later ↦ some later
  | none ↦ if e.spec_id == id then some e else none
]

-- `by_id.count(id)`, and the status is "pending" or "failed".
unfoldable pub would_run : List RepoEntry → String → Bool
unfolding entry_of
would_run es id = elim (entry_of es id) [ none ↦ false | some e ↦ is_runnable e.status ]

unfoldable pub depends_on : List RepoEntry → String → List String
unfolding entry_of
depends_on es id = elim (entry_of es id) [ none ↦ [] | some e ↦ e.depends_on ]

-- `outcome` of a rehearsal; any other text than the first three is a refusal before anything ran.
pub data Outcome : Type 0 where
  rehearsed incomplete failed not_planned : Outcome

pub data Line : Type 0 where
  clean : String → Line
  incomplete_line not_accepted not_plannable : String → Line
  -- the specification and the dependency that did not rehearse cleanly
  not_rehearsed : String → String → Line

pub record Chain : Type 0 where
  -- failed, incomplete, or blocked by either
  pub broken : List String
  pub rehearsed : ℕ
  pub failed : ℕ
  pub incomplete : ℕ
  pub blocked : ℕ
  pub lines : List Line

abbrev pub new_chain : Chain
new_chain = record {
  broken = [];
  rehearsed = 0;
  failed = 0;
  incomplete = 0;
  blocked = 0;
  lines = [];
}

-- The first dependency that is broken.
unfoldable pub cause_of : List String → List String → Option String
cause_of broken [] = none
cause_of broken (d ∷ ds) =
    let rest = cause_of broken ds in if contains broken d then some d else rest

unfoldable pub block : String → String → Chain → Chain
block id cause c = record c {
  broken = id ∷ c.broken;
  blocked = suc c.blocked;
  lines = not_rehearsed id cause ∷ c.lines;
}

unfoldable pub settle : String → Outcome → Chain → Chain
settle id rehearsed c = record c { rehearsed = suc c.rehearsed; lines = clean id ∷ c.lines }
settle id incomplete c = record c {
  broken = id ∷ c.broken;
  incomplete = suc c.incomplete;
  lines = incomplete_line id ∷ c.lines;
}
settle id failed c = record c {
  broken = id ∷ c.broken;
  failed = suc c.failed;
  lines = not_accepted id ∷ c.lines;
}
settle id not_planned c = record c {
  broken = id ∷ c.broken;
  failed = suc c.failed;
  lines = not_plannable id ∷ c.lines;
}

-- The result, given the log, or that a file could not be read.
unfoldable pub chain_result : Option Chain → DeployResult
chain_result none = repo_problem
chain_result (some c) = if nat_eq (c.failed + c.incomplete + c.blocked) 0 then is_ok else refused

module _ (readable : String → Bool) (rehearse : List Line → String → Outcome)
    (es : List RepoEntry) where
  -- One specification that would run; `none` where its file cannot be read.
  unfoldable pub rehearse_one : String → Chain → Option Chain
  unfolding cause_of block settle depends_on
  rehearse_one id c = elim (cause_of c.broken (depends_on es id)) [
    | some cause ↦ some (block id cause c)
    | none ↦ if readable id then some (settle id (rehearse c.lines id) c) else none
  ]

  unfoldable pub rehearse_all : List String → Chain → Option Chain
  unfolding rehearse_one would_run
  rehearse_all [] c = some c
  rehearse_all (id ∷ ids) c =
      if not (would_run es id)
      then rehearse_all ids c
      else elim (rehearse_one id c) [ none ↦ none | some c' ↦ rehearse_all ids c' ]

  -- The specifications of every group of every level, in order.
  unfoldable pub run_chain : List String → DeployResult
  unfolding rehearse_all chain_result
  run_chain ids = chain_result (rehearse_all ids new_chain)
