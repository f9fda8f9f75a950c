-- ===== src/Deploy/Run/Whole.antt =====
-- Proofs about cpp/src/deploy.h, `run`, on a listing that cpp/src/repository.h, `assemble` gave.
use pg_laswell.Base.{
  true, ◌≡◌, inl, inr, refl, sym, ap, String, some, List, [], ◌∷◌, ◌++◌, contains, concat, arith,
  contains-append, concat-append,
}
use pg_laswell.Base.Counting.{count, count-append, count_pos, contains_of_pos}
use pg_laswell.Repository.Types.{RepoEntry}
use pg_laswell.Repository.Order.{runnable_ids}
use pg_laswell.Repository.Order.Deps.{Met}
use pg_laswell.Repository.Order.Levels.{LevelsMet}
use pg_laswell.Repository.Parallel.{Group, Level, specs}
use pg_laswell.Repository.Parallel.Partition.{ids_of, grouped_ids, parallel_subsets_partition}
use pg_laswell.Repository.Assemble.{level_of, levels_of}
use pg_laswell.Repository.Assemble.Covers.{IsNamed, resolve_ids}
use pg_laswell.Deploy.Run.InOrder.{OrderMet}

-- The ids that the `order` of a listing gives: of each group of each level.
abbrev pub group_ids : List Group → List (List String)
group_ids [] = []
group_ids (g ∷ gs) = ids_of (specs g) ∷ group_ids gs

abbrev pub order_ids : List Level → List (List (List String))
order_ids [] = []
order_ids (l ∷ ls) = group_ids l.groups ∷ order_ids ls

concat-group_ids : (gs : List Group) → concat (group_ids gs) ≡ grouped_ids gs
concat-group_ids [] = refl
concat-group_ids (g ∷ gs) = ap (λ xs. ids_of (specs g) ++ xs) (concat-group_ids gs)

contains-count :
    (xs ys : List String) (x : String)
    → count x xs ≡ count x ys
    → contains xs x ≡ true
    → contains ys x ≡ true
contains-count xs ys x e m = contains_of_pos x ys (omega (arith, count_pos x xs m, e))

Met-wider :
    (es : List RepoEntry) (placed before : List String) (d : String)
    → (contains placed d ≡ true → contains before d ≡ true)
    → Met es placed d
    → Met es before d
Met-wider es placed before d wider met e f = elim (met e f) [
  | inl done ↦ inl done
  | inr there ↦ inr (wider there)
]

-- A level that resolves is grouped, and its groups have its members.
level_of-groups :
    (es : List RepoEntry) (ids : List String)
    → IsNamed es
    → ((id : String) → contains ids id ≡ true → contains (runnable_ids es) id ≡ true)
    → (l : Level) × (level_of es ids ≡ some l)
      × ((x : String) → count x (concat (group_ids l.groups)) ≡ count x ids)
unfolding level_of
level_of-groups es ids named sub =
    let (ready, r, e) = resolve_ids es ids named sub in
    let (l, p, c) = parallel_subsets_partition ready in
    (
      l,
      ground arith,
      λ x. ground (arith, c x, ap (count x) e, ap (count x) (concat-group_ids l.groups)),
    )

pub levels_of-OrderMet :
    (es : List RepoEntry) (placed before : List String) (idss : List (List String))
    → IsNamed es
    → ((id : String) → contains (concat idss) id ≡ true → contains (runnable_ids es) id ≡ true)
    → ((d : String) → contains placed d ≡ true → contains before d ≡ true)
    → LevelsMet es placed idss
    → (ls : List Level) × (levels_of es idss ≡ some ls)
      × (OrderMet es before (order_ids ls)
          × ((x : String) → count x (concat (concat (order_ids ls))) ≡ count x (concat idss)))
unfolding levels_of
levels_of-OrderMet es placed before [] named sub wider met = ([], refl, (tt, λ x. refl))
levels_of-OrderMet es placed before (ids ∷ idss) named sub wider met =
    let (l, p, c) =
      level_of-groups es ids named
        (λ x m. sub x (ground (arith, contains-append ids (concat idss) x))) in
    let (ls, q, (order, d)) =
      levels_of-OrderMet es (placed ++ ids) (before ++ concat (group_ids l.groups)) idss named
        (λ x m. sub x (ground (arith, contains-append ids (concat idss) x)))
        (λ x m. ground (
          arith,
          wider x,
          contains-append placed ids x,
          contains-append before (concat (group_ids l.groups)) x,
          contains-count ids (concat (group_ids l.groups)) x (sym (c x)),
        ))
        met.1 in
    (
      l ∷ ls,
      ground arith,
      (
        (
          λ id x m k.
              Met-wider es placed before x (wider x)
                (met.0 id x (contains-count (concat (group_ids l.groups)) ids id (c id) m) k),
          order,
        ),
        λ x. omega (
          arith,
          c x,
          d x,
          ap (count x) (concat-append (group_ids l.groups) (concat (order_ids ls))),
          count-append x (concat (group_ids l.groups)) (concat (concat (order_ids ls))),
          count-append x ids (concat idss),
        ),
      ),
    )
