-- ===== src/Repository/Assemble/Covers.antt =====
-- Proofs about cpp/src/repository.h, `assemble`, from the entries to the groups.
use pg_laswell.Base.{
  ◌+◌, true, false, ◌≡◌, String, some, List, [], ◌∷◌, ◌++◌, ◌==◌, refl, ap, arith, contains, concat,
  All, Option-cases, Bool-cases, inl, inr, eq_iff, ==_refl, contains-append,
}
use pg_laswell.Base.Counting.{count, count-append, contains_of_pos, count_pos}
use pg_laswell.Repository.Status.{is_runnable}
use pg_laswell.Repository.Types.{RepoEntry, View}
use pg_laswell.Repository.Order.{find, runnable_ids}
use pg_laswell.Repository.Order.Levels.{order_total, order-count}
use pg_laswell.Repository.Parallel.{Level}
use pg_laswell.Repository.Parallel.Partition.{ids_of, grouped_ids, parallel_subsets_partition}
use pg_laswell.Repository.Assemble.{resolve, level_of, levels_of, Assembled, assembled, assemble}

-- `parse_spec` gives no specification an empty id, and one that would run was parsed.
abbrev pub IsNamed : List RepoEntry → Type 0
IsNamed es = All (λ (e : RepoEntry). is_runnable e.status ≡ true → (e.spec_id == "") ≡ false) es

find-spec_id :
    (es : List RepoEntry) (id : String) (e : RepoEntry) → find es id ≡ some e → e.spec_id ≡ id
unfolding find
find-spec_id [] id e h = absurd (ground arith)
find-spec_id (x ∷ es) id e h = elim (Option-cases (find es id)) [
  | inl k ↦ ground (arith, eq_iff x.spec_id id)
  | inr (y, k) ↦ ground (arith, find-spec_id es id y k)
]

-- Whoever would run can be found.
find_named :
    (es : List RepoEntry) (id : String)
    → IsNamed es
    → contains (runnable_ids es) id ≡ true
    → (e : RepoEntry) × (find es id ≡ some e)
unfolding find runnable_ids
find_named [] id named m = absurd (ground arith)
find_named (x ∷ es) id named m = elim (Option-cases (find es id)) [
  | inr (y, k) ↦ (y, ground arith)
  | inl k ↦ elim (Bool-cases (contains (runnable_ids es) id)) [
    | inl later ↦ let (y, e) = find_named es id named.1 later in (y, ground arith)
    | inr away ↦ (x, ground (arith, named.0))
  ]
]

pub resolve_ids :
    (es : List RepoEntry) (ids : List String)
    → IsNamed es
    → ((id : String) → contains ids id ≡ true → contains (runnable_ids es) id ≡ true)
    → (ready : List RepoEntry) × (resolve es ids ≡ some ready) × (ids_of ready ≡ ids)
unfolding resolve
resolve_ids es [] named sub = ([], refl, refl)
resolve_ids es (id ∷ ids) named sub =
    let (e, found) = find_named es id named (sub id (ground (arith, ==_refl id))) in
    let (rest, r, same) = resolve_ids es ids named (λ x m. sub x (ground arith)) in
    (e ∷ rest, ground arith, ground (arith, find-spec_id es id e found))

-- The ids of all levels, in order.
abbrev pub listed_ids : List Level → List String
listed_ids [] = []
listed_ids (l ∷ ls) = grouped_ids l.groups ++ listed_ids ls

levels_of-count :
    (es : List RepoEntry) (idss : List (List String))
    → IsNamed es
    → ((id : String) → contains (concat idss) id ≡ true → contains (runnable_ids es) id ≡ true)
    → (ls : List Level) × (levels_of es idss ≡ some ls)
      × ((x : String) → count x (listed_ids ls) ≡ count x (concat idss))
unfolding levels_of level_of
levels_of-count es [] named sub = ([], refl, λ x. refl)
levels_of-count es (ids ∷ idss) named sub =
    let (ready, r, same) =
      resolve_ids es ids named
        (λ x m. sub x (ground (arith, contains-append ids (concat idss) x))) in
    let (l, p, c) = parallel_subsets_partition ready in
    let (ls, q, d) =
      levels_of-count es idss named
        (λ x m. sub x (ground (arith, contains-append ids (concat idss) x))) in
    (
      l ∷ ls,
      ground arith,
      λ x. ground (
        arith,
        c x,
        d x,
        ap (count x) same,
        count-append x ids (concat idss),
        count-append x (grouped_ids l.groups) (listed_ids ls),
      ),
    )

-- Assembling a listing always gives an order, and in it every specification that would run stands
-- in one group of one level, or is among those left, as often as the entries list it.
pub assemble_covers :
    (es : List RepoEntry) (views : List (String × View))
    → IsNamed es
    → (r : Assembled) × (assemble es views ≡ some r)
      × ((x : String) → count x (listed_ids r.levels) + count x r.left ≡ count x (runnable_ids es))
unfolding assemble
assemble_covers es views named =
    let (a, o) = order_total es in
    let (ls, q, c) = levels_of-count es a.levels named (λ x m.
      contains_of_pos x (runnable_ids es)
        (omega (arith, count_pos x (concat a.levels) m, order-count es a x o))) in
    (assembled es views a ls, ground arith, λ x. ground (arith, c x, order-count es a x o))
