-- ===== src/Repository/Tests/Order.antt =====
-- Runs of the ordering and of the grouping, and their theorems at these.
use pg_laswell.Base.{◌+◌, true, ◌≡◌, ◌↔◌, refl, String, some, List, [], ◌∷◌, contains, All, concat}
use pg_laswell.Base.Counting.{count}
use pg_laswell.Repository.Types.{RepoEntry}
use pg_laswell.Repository.Order.{Arranged, order, find, runnable_ids, cycle_among}
use pg_laswell.Repository.Order.Levels
use pg_laswell.Repository.Order.Levels.{LevelsMet}
use pg_laswell.Repository.Order.Stuck
use pg_laswell.Repository.Order.Stuck.{Waits}
use pg_laswell.Repository.Order.Honest
use pg_laswell.Repository.Order.Honest.{Honest}
use pg_laswell.Repository.Parallel.{Level, parallel_subsets, no_groups, led_by, gather}
use pg_laswell.Repository.Assemble.{assemble, Assembled}
use pg_laswell.Repository.Assemble.Covers
use pg_laswell.Repository.Assemble.Covers.{listed_ids}
use pg_laswell.Repository.Parallel.Partition
use pg_laswell.Repository.Parallel.Partition.{grouped_ids, ids_of}
use pg_laswell.Repository.Parallel.Safety
use pg_laswell.Repository.Parallel.Safety.{Elsewhere, IsSafe}
use pg_laswell.Repository.Tests.Data.{entry, create, fill, two_levels}

abbrev two_levels_order : Arranged
two_levels_order = record {
  levels = ("0001-create" ∷ []) ∷ ("0002-fill" ∷ []) ∷ [];
  left = [];
  placed_at_end = "0001-create" ∷ "0002-fill" ∷ [];
  problems = [];
}

order-two_levels : order two_levels ≡ some two_levels_order
unfolding order find
order-two_levels = refl

-- Two specifications that depend on one another, and one that needs neither.
abbrev knotted : List RepoEntry
knotted = entry "a" ("b" ∷ []) [] ∷ entry "b" ("a" ∷ []) [] ∷ entry "c" [] [] ∷ []

abbrev knotted_order : Arranged
knotted_order = record {
  levels = ("c" ∷ []) ∷ [];
  left = "a" ∷ "b" ∷ [];
  placed_at_end = "c" ∷ [];
  problems = cycle_among ("a" ∷ "b" ∷ []) ∷ [];
}

order-knotted : order knotted ≡ some knotted_order
unfolding order find
order-knotted = refl

assemble_covers_example :
    (r : Assembled) × (assemble two_levels [] ≡ some r)
    × ((x : String)
        → count x (listed_ids r.levels) + count x r.left ≡ count x (runnable_ids two_levels))
assemble_covers_example = Covers.assemble_covers two_levels [] (λ _. refl, (λ _. refl, tt))

order-count_example :
    count "a" (concat knotted_order.levels) + count "a" knotted_order.left
    ≡ count "a" (runnable_ids knotted)
order-count_example = Levels.order-count knotted knotted_order "a" order-knotted

order_met_example : LevelsMet two_levels [] two_levels_order.levels
order_met_example = Levels.order_met two_levels two_levels_order order-two_levels

order_left-Waits_example :
    ((id : String)
      → contains knotted_order.left id ≡ true
      → Waits knotted knotted_order.placed_at_end id)
    × ((knotted_order.left ≡ []) ↔ (knotted_order.problems ≡ []))
order_left-Waits_example = Stuck.order_left-Waits knotted knotted_order order-knotted

-- One specification on each of two databases, and two that touch one table of the second.
abbrev here : RepoEntry
here = record (entry "1" [] ("app.t" ∷ [])) { database_identity = "7/1" }

abbrev there : RepoEntry
there = record (entry "2" [] ("app.u" ∷ [])) { database_identity = "8/1" }

abbrev there_too : RepoEntry
there_too = record (entry "3" [] ("app.u" ∷ [])) { database_identity = "8/1" }

abbrev one_level : List RepoEntry
one_level = create ∷ fill ∷ []

abbrev two_groups : Level
two_groups =
    led_by create (gather create create.relations.relations (fill ∷ []))
      (led_by fill (gather fill fill.relations.relations []) no_groups)

parallel_subsets-one_level : parallel_subsets one_level ≡ some two_groups
unfolding parallel_subsets
parallel_subsets-one_level = refl

parallel_subsets_partition_example :
    (l : Level) × (parallel_subsets one_level ≡ some l)
    × ((x : String) → count x (grouped_ids l.groups) ≡ count x (ids_of one_level))
parallel_subsets_partition_example = Partition.parallel_subsets_partition one_level

parallel_subsets-IsSafe_example : All IsSafe two_groups.groups
parallel_subsets-IsSafe_example =
    Safety.parallel_subsets-IsSafe one_level two_groups parallel_subsets-one_level
