-- ===== src/Deploy/Run/Offers.antt =====
-- Proofs about cpp/src/deploy.h, `run`: what an assembled listing offers to it.
use pg_laswell.Base.{
  ◌+◌, ◌<◌, true, false, ◌≡◌, inl, inr, refl, String, none, some, List, [], ◌∷◌, ◌++◌, ◌==◌,
  contains, concat, arith, Bool-cases, Option-cases, append-nil_parts,
}
use pg_laswell.Base.Counting.{count, count_pos, contains_of_pos}
use pg_laswell.Repository.Status.{is_runnable}
use pg_laswell.Repository.Types.{RepoEntry, View}
use pg_laswell.Repository.Order.{runnable_ids, edited_problems, unknown_dependencies}
use pg_laswell.Repository.Order.Levels.{order_total, order_met, order-count}
use pg_laswell.Repository.Order.Stuck.{order_left-Waits}
use pg_laswell.Repository.Parallel.Partition.{ids_of}
use pg_laswell.Repository.Assemble.{Assembled, assembled, assemble}
use pg_laswell.Repository.Assemble.Covers.{IsNamed}
use pg_laswell.Deploy.Chain.{entry_of, would_run}
use pg_laswell.Deploy.Chain.Trace.{some-injective}
use pg_laswell.Deploy.Run.InOrder.{OrderMet}
use pg_laswell.Deploy.Run.Whole.{order_ids, levels_of-OrderMet}

-- A specification that would run has one entry.
abbrev pub IsSingle : List RepoEntry → Type 0
IsSingle es = (x : String) → contains (runnable_ids es) x ≡ true → count x (ids_of es) ≡ 1

entry_of-none : (es : List RepoEntry) (x : String) → count x (ids_of es) ≡ 0 → entry_of es x ≡ none
unfolding entry_of
entry_of-none [] x h = refl
entry_of-none (e ∷ es) x h = ground (arith, entry_of-none es x)

entry_of-away :
    (e : RepoEntry) (es : List RepoEntry) (x : String)
    → (e.spec_id == x) ≡ false
    → entry_of (e ∷ es) x ≡ entry_of es x
unfolding entry_of
entry_of-away e es x h = elim (Option-cases (entry_of es x)) [
  | inl k ↦ ground arith
  | inr (y, k) ↦ ground arith
]

runnable_listed :
    (es : List RepoEntry) (x : String)
    → contains (runnable_ids es) x ≡ true
    → 0 < count x (ids_of es)
unfolding runnable_ids
runnable_listed [] x m = absurd (ground arith)
runnable_listed (e ∷ es) x m = ground (arith, runnable_listed es x)

pub would_run_of :
    (es : List RepoEntry) (x : String)
    → count x (ids_of es) ≡ 1
    → contains (runnable_ids es) x ≡ true
    → would_run es x ≡ true
unfolding would_run entry_of runnable_ids
would_run_of [] x h m = absurd (ground arith)
would_run_of (e ∷ es) x h m = elim (Bool-cases (e.spec_id == x)) [
  | inl here ↦ elim (Bool-cases (is_runnable e.status)) [
    | inl runs ↦ ground (arith, entry_of-none es x (ground arith))
    | inr idle ↦ absurd (ground (arith, runnable_listed es x (ground arith)))
  ]
  | inr away ↦
      ground (arith, entry_of-away e es x away, would_run_of es x (ground arith) (ground arith))
]

-- What the listing that `assemble` gives has to offer to a deployment.
pub record Offers (es : List RepoEntry) (r : Assembled) : Type 0 where
  pub met : OrderMet es [] (order_ids r.levels)
  pub all :
      (x : String)
      → count x (concat (concat (order_ids r.levels))) + count x r.left ≡ count x (runnable_ids es)
  pub none_left : r.problems ≡ [] → r.left ≡ []

pub assemble-Offers :
    (es : List RepoEntry) (views : List (String × View)) (r : Assembled)
    → IsNamed es
    → assemble es views ≡ some r
    → Offers es r
unfolding assemble
assemble-Offers es views r named e =
    let (a, o) = order_total es in
    let (ls, q, (met, c)) =
      levels_of-OrderMet es [] [] a.levels named
        (λ x m.
          contains_of_pos x (runnable_ids es)
            (omega (arith, count_pos x (concat a.levels) m, order-count es a x o)))
        (λ d m. m) (order_met es a o) in
    rw (← some-injective {a = assembled es views a ls} (rw (assemble, o, q) at e)) (record {
      met = met;
      all = λ x. omega (arith, c x, order-count es a x o);
      none_left = λ p.
          (order_left-Waits es a o).1.1
            (append-nil_parts (unknown_dependencies es views (runnable_ids es)) a.problems
              (append-nil_parts (edited_problems es)
                (unknown_dependencies es views (runnable_ids es) ++ a.problems) p).1).1;
    })
