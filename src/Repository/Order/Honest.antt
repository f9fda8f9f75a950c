-- ===== src/Repository/Order/Honest.antt =====
-- Proofs about cpp/src/repository.h, the problems that the ordering of `assemble` reports.
use pg_laswell.Base.{true, false, ◌≡◌, String, some, List, contains}
use pg_laswell.Repository.Status.{is_runnable, is_applied}
use pg_laswell.Repository.Types.{RepoEntry}
use pg_laswell.Repository.Order.{
  find, depends_of, OrderProblem, cycle_among, dependency_stuck, dependency_unknown,
  edited_after_apply,
}

-- What each message claims, of the specifications that were left.
abbrev pub Honest : List RepoEntry → List String → OrderProblem → Type 0
Honest es left (dependency_stuck id d s) =
    (e : RepoEntry) × (find es d ≡ some e)
    × (e.status ≡ s)
    × (is_runnable s ≡ false)
    × (is_applied s ≡ false)
    × (contains (depends_of es id) d ≡ true)
    × (contains left id ≡ true)
Honest es left (cycle_among ids) =
    (ids ≡ left)
    × ((id : String)
        → contains ids id ≡ true
        → (d : String) × (contains (depends_of es id) d ≡ true) × (contains ids d ≡ true))
Honest es left (dependency_unknown id d) = ⊥
Honest es left (edited_after_apply m h) = ⊥
