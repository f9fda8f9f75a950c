-- ===== src/Repository/Assemble.antt =====
-- cpp/src/repository.h: `assemble`, from the classified entries to the order of the listing.
pub mod Covers
use pg_laswell.Base.{String, Option, none, some, List, [], ◌∷◌, ◌++◌}
use pg_laswell.Repository.Types.{RepoEntry, View}
use pg_laswell.Repository.Order.{
  OrderProblem, Arranged, find, order, runnable_ids, edited_problems, unknown_dependencies,
}
use pg_laswell.Repository.Parallel.{Level, parallel_subsets}

-- `by_id.at(id)` of each; a missing id raises.
unfoldable pub resolve : List RepoEntry → List String → Option (List RepoEntry)
resolve es [] = some []
resolve es (id ∷ ids) = elim (find es id) [
  | none ↦ none
  | some e ↦ elim (resolve es ids) [ none ↦ none | some rest ↦ some (e ∷ rest) ]
]

unfoldable pub level_of : List RepoEntry → List String → Option Level
unfolding resolve parallel_subsets
level_of es ids = elim (resolve es ids) [ none ↦ none | some ready ↦ parallel_subsets ready ]

unfoldable pub levels_of : List RepoEntry → List (List String) → Option (List Level)
unfolding level_of
levels_of es [] = some []
levels_of es (ids ∷ rest) = elim (level_of es ids) [
  | none ↦ none
  | some level ↦ elim (levels_of es rest) [ none ↦ none | some levels ↦ some (level ∷ levels) ]
]

-- The `order` and the `problems` of a listing, and what was left unordered.
pub record Assembled : Type 0 where
  pub levels : List Level
  pub left : List String
  pub problems : List OrderProblem

abbrev pub assembled : List RepoEntry → List (String × View) → Arranged → List Level → Assembled
assembled es views a levels = record {
  levels = levels;
  left = a.left;
  problems = edited_problems es ++ (unknown_dependencies es views (runnable_ids es) ++ a.problems);
}

unfoldable pub assemble : List RepoEntry → List (String × View) → Option Assembled
unfolding order levels_of edited_problems unknown_dependencies
assemble es views = elim (order es) [
  | none ↦ none
  | some a ↦ elim (levels_of es a.levels) [
    | none ↦ none
    | some levels ↦ some (assembled es views a levels)
  ]
]
