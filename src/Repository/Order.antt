-- ===== src/Repository/Order.antt =====
-- cpp/src/repository.h: `applied_somewhere` and the ordering part of `assemble`, topological
-- levels from `depends_on`. The rounds of its `while` loop take fuel, one unit for each
-- specification that would run.
pub mod Deps
pub mod Levels
pub mod Stuck
pub mod Honest
use pg_laswell.Base.{
  ℕ, zero, suc, Bool, true, false, not, ◌&&◌, ◌||◌, String, Option, none, some, List, [], ◌∷◌, ◌++◌,
  ◌==◌, is_nil, contains, keep, length, if◌then◌else◌,
}
use pg_laswell.Repository.Status.{RepoStatus, is_runnable, is_applied, is_modified}
use pg_laswell.Repository.Types.{RepoEntry, Recorded, Index, View, Message, Hint}

-- What `assemble` puts into `problems`.
pub data OrderProblem : Type 0 where
  -- the specification, and what it depends on
  dependency_unknown : String → String → OrderProblem
  dependency_stuck : String → String → RepoStatus → OrderProblem
  cycle_among : List String → OrderProblem
  -- what `classify` said of a file that was edited after it was applied
  edited_after_apply : Message → Hint → OrderProblem

-- `by_id`: a later entry of the same id replaces an earlier one, and an entry with no id is in none.
unfoldable pub find : List RepoEntry → String → Option RepoEntry
find [] id = none
find (e ∷ es) id = elim (find es id) [
  | some later ↦ some later
  | none ↦ if not (e.spec_id == "") && e.spec_id == id then some e else none
]

-- `by_id[id]->depends_on`
unfoldable pub depends_of : List RepoEntry → String → List String
unfolding find
depends_of es id = elim (find es id) [ none ↦ [] | some e ↦ e.depends_on ]

unfoldable pub runnable_ids : List RepoEntry → List String
runnable_ids [] = []
runnable_ids (e ∷ es) =
    let rest = runnable_ids es in if is_runnable e.status then e.spec_id ∷ rest else rest

unfoldable pub edited_problems : List RepoEntry → List OrderProblem
edited_problems [] = []
edited_problems (e ∷ es) =
    let rest = edited_problems es in
    if is_modified e.status then edited_after_apply e.error e.hint ∷ rest else rest

-- Does one epoch of a ledger record a success of the id?
succeeded_in : String → List (String × Recorded) → Bool
succeeded_in id [] = false
succeeded_in id ((i, a) ∷ ids) = if i == id then not (is_nil a.succeeded) else succeeded_in id ids

succeeded_in_index : String → Index → Bool
unfolding succeeded_in
succeeded_in_index id [] = false
succeeded_in_index id ((epoch, ids) ∷ index) = succeeded_in id ids || succeeded_in_index id index

-- Has any database that this listing touched recorded the id as applied, in any epoch?
unfoldable pub applied_somewhere : List (String × View) → String → Bool
unfolding succeeded_in_index
applied_somewhere [] id = false
applied_somewhere ((c, v) ∷ views) id =
    succeeded_in_index id v.applied || applied_somewhere views id

-- The dependencies of one specification that neither the repository nor a ledger accounts for.
unknown_of : List RepoEntry → List (String × View) → String → List String → List OrderProblem
unknown_of es views id [] = []
unknown_of es views id (d ∷ ds) =
    let rest = unknown_of es views id ds in
    elim (find es d) [
      | some _ ↦ rest
      | none ↦ if applied_somewhere views d then rest else dependency_unknown id d ∷ rest
    ]

unfoldable pub unknown_dependencies :
    List RepoEntry → List (String × View) → List String → List OrderProblem
unfolding unknown_of depends_of applied_somewhere
unknown_dependencies es views [] = []
unknown_dependencies es views (id ∷ ids) =
    unknown_of es views id (depends_of es id) ++ unknown_dependencies es views ids

-- Is one dependency of a specification satisfied, given what was placed before?
unfoldable pub is_met : List RepoEntry → List String → String → Bool
unfolding find
is_met es placed d = elim (find es d) [
  | none ↦ true
  | some e ↦ is_applied e.status || contains placed d
]

-- The loop over the dependencies, in two passes: `ok`, and why the specification is blocked.
unfoldable pub is_ready : List RepoEntry → List String → List String → Bool
unfolding is_met
is_ready es placed [] = true
is_ready es placed (d ∷ ds) = is_met es placed d && is_ready es placed ds

unfoldable pub blocked_on : List RepoEntry → List String → String → String → List OrderProblem
unfolding is_met
blocked_on es placed id d = elim (find es d) [
  | none ↦ []
  | some e ↦
      if is_met es placed d || is_runnable e.status then [] else dependency_stuck id d e.status ∷ []
]

unfoldable pub blocked_by : List RepoEntry → List String → String → List String → List OrderProblem
blocked_by es placed id [] = []
blocked_by es placed id (d ∷ ds) = blocked_on es placed id d ++ blocked_by es placed id ds

-- One round: which of the remaining are ready, and all that was said of the others.
unfoldable pub ready_of : List RepoEntry → List String → List String → List String
unfolding is_ready depends_of
ready_of es placed = keep (λ id. is_ready es placed (depends_of es id))

unfoldable pub blocked_of : List RepoEntry → List String → List String → List OrderProblem
blocked_of es placed [] = []
blocked_of es placed (id ∷ ids) =
    blocked_by es placed id (depends_of es id) ++ blocked_of es placed ids

-- `remaining.erase(remove_if(… placed.count(id) > 0 …))`
abbrev pub unplaced : List String → List String → List String
unplaced placed = keep (λ id. not (contains placed id))

-- What is said when nothing is ready.
unfoldable pub stuck_problems : List OrderProblem → List String → List OrderProblem
stuck_problems [] remaining = cycle_among remaining ∷ []
stuck_problems (b ∷ blocked) remaining = b ∷ blocked

-- The levels in order, what was left when the loop ended, and what was placed by then.
pub record Arranged : Type 0 where
  pub levels : List (List String)
  pub left : List String
  pub placed_at_end : List String
  pub problems : List OrderProblem

abbrev pub under : List String → Arranged → Arranged
under level a = record a { levels = level ∷ a.levels }

-- The loop ended: everything was placed, or nothing that remained was ready.
abbrev pub all_placed : List String → Arranged
all_placed placed = record { levels = []; left = []; placed_at_end = placed; problems = [] }

abbrev pub none_ready : List RepoEntry → List String → List String → Arranged
none_ready es placed ids = record {
  levels = [];
  left = ids;
  placed_at_end = placed;
  problems = stuck_problems (blocked_of es placed ids) ids;
}

unfoldable pub arrange : ℕ → List RepoEntry → List String → List String → Option Arranged
arrange fuel es placed [] = some (all_placed placed)
arrange zero es placed (id ∷ ids) = none
arrange (suc fuel) es placed (id ∷ ids) = elim (ready_of es placed (id ∷ ids)) [
  | [] ↦ some (none_ready es placed (id ∷ ids))
  | r ∷ rs ↦
      let placed' = placed ++ r ∷ rs in
      elim (arrange fuel es placed' (unplaced placed' (id ∷ ids))) [
        | none ↦ none
        | some a ↦ some (under (r ∷ rs) a)
      ]
]

-- `assemble`'s loop from its start.
unfoldable pub order : List RepoEntry → Option Arranged
unfolding arrange runnable_ids ready_of blocked_of blocked_by blocked_on stuck_problems
order es = let ids = runnable_ids es in arrange (length ids) es [] ids
