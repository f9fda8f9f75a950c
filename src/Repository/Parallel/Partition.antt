-- ===== src/Repository/Parallel/Partition.antt =====
-- Proofs about cpp/src/repository.h, `parallel_subsets`: who is in which group.
use pg_laswell.Base.{
  ℕ, zero, suc, ◌+◌, ◌≤◌, ◌≡◌, refl, String, some, List, [], ◌∷◌, ◌++◌, map, length, arith,
}
use pg_laswell.Base.Counting.{count, count-append}
use pg_laswell.Repository.Types.{RepoEntry}
use pg_laswell.Repository.Parallel.{
  Verdict, other_database, no_overlap, refused, judge, grown, Gathered, put_in, gather, Group,
  Level, subsets, parallel_subsets, specs, no_groups, led_by,
}

abbrev pub ids_of : List RepoEntry → List String
ids_of es = map (λ (e : RepoEntry). e.spec_id) es

-- The ids of all groups, in order.
abbrev pub grouped_ids : List Group → List String
grouped_ids [] = []
grouped_ids (g ∷ gs) = ids_of (specs g) ++ grouped_ids gs

count-put_in :
    (v : Verdict) (k : RepoEntry) (g : Gathered) (x : String) (n : ℕ)
    → count x (ids_of g.joined) + count x (ids_of g.untaken) ≡ n
    → count x (ids_of (put_in v k g).joined) + count x (ids_of (put_in v k g).untaken)
      ≡ count x (k.spec_id ∷ []) + n
count-put_in other_database k g x n h = ground arith
count-put_in no_overlap k g x n h = ground arith
count-put_in (refused why) k g x n h = ground arith

count-gather :
    (i : RepoEntry) (rels : List String) (ks : List RepoEntry) (x : String)
    → count x (ids_of (gather i rels ks).joined) + count x (ids_of (gather i rels ks).untaken)
      ≡ count x (ids_of ks)
unfolding gather
count-gather i rels [] x = omega arith
count-gather i rels (k ∷ ks) x = ground (
  arith,
  count-put_in (judge i rels k) k (gather i (grown (judge i rels k) rels k) ks) x
      (count x (ids_of ks)) (count-gather i (grown (judge i rels k) rels k) ks x),
)

length-put_in :
    (v : Verdict) (k : RepoEntry) (g : Gathered)
    → length (put_in v k g).untaken ≤ suc (length g.untaken)
length-put_in other_database k g = omega arith
length-put_in no_overlap k g = omega arith
length-put_in (refused why) k g = omega arith

length-gather :
    (i : RepoEntry) (rels : List String) (ks : List RepoEntry)
    → length (gather i rels ks).untaken ≤ length ks
unfolding gather
length-gather i rels [] = omega arith
length-gather i rels (k ∷ ks) = omega (
  arith,
  length-put_in (judge i rels k) k (gather i (grown (judge i rels k) rels k) ks),
  length-gather i (grown (judge i rels k) rels k) ks,
)

-- With fuel for the level the outer loop ends, and its groups hold each id as often as the level.
subsets-count :
    (fuel : ℕ) (es : List RepoEntry)
    → length es ≤ fuel
    → (l : Level) × (subsets fuel es ≡ some l)
      × ((x : String) → count x (grouped_ids l.groups) ≡ count x (ids_of es))
unfolding subsets
subsets-count zero [] h = (no_groups, refl, λ x. refl)
subsets-count zero (i ∷ rest) h = absurd (omega arith)
subsets-count (suc fuel) [] h = (no_groups, refl, λ x. refl)
subsets-count (suc fuel) (i ∷ rest) h =
    let g = gather i i.relations.relations rest in
    let (l, e, c) =
      subsets-count fuel g.untaken (omega (arith, length-gather i i.relations.relations rest)) in
    (
      led_by i g l,
      ground arith,
      λ x. ground (
        arith,
        c x,
        count-gather i i.relations.relations rest x,
        count-append x (ids_of g.joined) (grouped_ids l.groups),
      ),
    )

-- Grouping a level always ends, and every specification of the level is in a group, as often as
-- the level lists it; no other is.
pub parallel_subsets_partition :
    (ready : List RepoEntry)
    → (l : Level) × (parallel_subsets ready ≡ some l)
      × ((x : String) → count x (grouped_ids l.groups) ≡ count x (ids_of ready))
unfolding parallel_subsets
parallel_subsets_partition ready = subsets-count (length ready) ready (omega arith)
