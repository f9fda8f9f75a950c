-- ===== src/Repository/Parallel.antt =====
-- cpp/src/repository.h: `provably_different_databases` and `parallel_subsets`, which migrations of
-- one level may run at the same time. The array `taken` is the list of what no group took yet; each
-- round of the outer loop takes one leader at least, so the length of the level is enough fuel.
pub mod Partition
pub mod Safety
use pg_laswell.Base.{
  ℕ, zero, suc, Bool, true, false, not, ◌&&◌, ◌||◌, String, Option, none, some, List, [], ◌∷◌, ◌++◌,
  ◌==◌, is_nil, contains, length, map, if◌then◌else◌, ltb, nat_eq,
}
use pg_laswell.Repository.Types.{RelationSet, RepoEntry, complete}

unfoldable pub provably_different_databases : RepoEntry → RepoEntry → Bool
provably_different_databases a b =
    if not (a.database_identity == "") && not (b.database_identity == "")
    then not (a.database_identity == b.database_identity)
    else not (a.database_name == "")
      && not (b.database_name == "")
      && not (a.database_name == b.database_name)

-- Why two specifications of a level were not put together.
pub data Undecided : Type 0 where
  -- the leader, the other, and the last relation that both touch
  both_touch : String → String → String → Undecided
  -- the leader, the other, and the first reason why the evidence is incomplete
  not_proven : String → String → Option String → Undecided

-- The last of `rs` that is in `rels`.
unfoldable pub last_shared : List String → List String → Option String
last_shared rels [] = none
last_shared rels (r ∷ rs) = elim (last_shared rels rs) [
  | some later ↦ some later
  | none ↦ if contains rels r then some r else none
]

unfoldable pub front : List String → Option String
front [] = none
front (x ∷ xs) = some x

-- What the inner loop decides of one candidate, given the leader and the group's relations.
pub data Verdict : Type 0 where
  other_database no_overlap : Verdict
  refused : Undecided → Verdict

unfoldable pub judge : RepoEntry → List String → RepoEntry → Verdict
unfolding provably_different_databases
judge i rels k =
    if provably_different_databases i k
    then other_database
    else elim (last_shared rels k.relations.relations) [
      | some shared ↦ refused (both_touch i.spec_id k.spec_id shared)
      | none ↦
          if not (complete i.relations) || not (complete k.relations)
          then refused (
              not_proven i.spec_id k.spec_id
                (front (if complete i.relations then k.relations.opaque else i.relations.opaque)))
          else no_overlap
    ]

-- `rels.insert(...)`, which only the last branch does.
abbrev pub grown : Verdict → List String → RepoEntry → List String
grown no_overlap rels k = rels ++ k.relations.relations
grown _ rels k = rels

-- The inner loop: who joins the leader, the relations in the end, what stays undecided, who is
-- left for later groups.
pub record Gathered : Type 0 where
  pub joined : List RepoEntry
  pub rels : List String
  pub undecided : List Undecided
  pub untaken : List RepoEntry

abbrev pub put_in : Verdict → RepoEntry → Gathered → Gathered
put_in (refused why) k g = record g { undecided = why ∷ g.undecided; untaken = k ∷ g.untaken }
put_in _ k g = record g { joined = k ∷ g.joined }

unfoldable pub gather : RepoEntry → List String → List RepoEntry → Gathered
gather i rels [] = record { joined = []; rels = rels; undecided = []; untaken = [] }
gather i rels (k ∷ ks) = put_in (judge i rels k) k (gather i (grown (judge i rels k) rels k) ks)

pub record Group : Type 0 where
  pub leader : RepoEntry
  pub others : List RepoEntry
  pub relations : List String
  pub evidence_complete : Bool

pub record Level : Type 0 where
  pub groups : List Group
  pub undecided : List Undecided

abbrev pub no_groups : Level
no_groups = record { groups = []; undecided = [] }

-- One more group before those of the rest.
abbrev pub led_by : RepoEntry → Gathered → Level → Level
led_by i g level = record {
  groups =
      record {
        leader = i;
        others = g.joined;
        relations = g.rels;
        evidence_complete = complete i.relations;
      }
      ∷ level.groups;
  undecided = g.undecided ++ level.undecided;
}

unfoldable pub subsets : ℕ → List RepoEntry → Option Level
subsets fuel [] = some no_groups
subsets zero (i ∷ rest) = none
subsets (suc fuel) (i ∷ rest) =
    let g = gather i i.relations.relations rest in
    elim (subsets fuel g.untaken) [ none ↦ none | some level ↦ some (led_by i g level) ]

unfoldable pub parallel_subsets : List RepoEntry → Option Level
unfolding subsets gather judge last_shared
parallel_subsets ready = subsets (length ready) ready

-- The specifications of a group, as `specs` lists them.
abbrev pub specs : Group → List RepoEntry
specs g = g.leader ∷ g.others

-- `provenConcurrent`: one group, of more than one specification.
unfoldable pub proven_concurrent : Level → Bool
proven_concurrent l = elim l.groups [ [] ↦ false | g ∷ gs ↦ is_nil gs && not (is_nil g.others) ]
