-- ===== src/Repository/Classify/Gates.antt =====
-- Proofs about cpp/src/repository.h, `gate`.
use pg_laswell.Base.{true, false, ◌≡◌, ◌⊎◌, ◌↔◌, Option, none, some, contains, is_nil, ◌==◌, arith}
use pg_laswell.Repository.Status.{is_runnable}
use pg_laswell.Repository.Types.{RepoEntry, Recorded, View, recorded}
use pg_laswell.Repository.Classify.{
  classify, classify_found, classify_recorded, gate, gate_lineage, gate_environment,
  classify_and_gate, is_empty,
}
use pg_laswell.Repository.Classify.History.{MayRun, classify-runnable}

-- The gates as statements: an empty field asks nothing.
pub record Open (e : RepoEntry) (v : View) : Type 0 where
  pub database :
      (is_empty e.database ≡ true)
      ⊎ (is_empty v.database ≡ true)
      ⊎ ((e.database == v.database) ≡ true)
  pub environment :
      (is_empty e.environment ≡ true)
      ⊎ ((is_empty v.environment ≡ false) × ((e.environment == v.environment) ≡ true))
  pub not_retired : contains v.epochs_retired e.epoch ≡ false
  pub opened :
      (is_empty e.epoch ≡ true)
      ⊎ (contains v.epochs_live e.epoch ≡ true)
      ⊎ (is_nil v.epochs_live ≡ true)
  pub released : (is_empty e.release ≡ true) ⊎ (contains v.releases_ready e.release ≡ true)

lineage_runnable :
    (e : RepoEntry) (v : View)
    → is_runnable e.status ≡ true
    → (is_runnable (gate_lineage e v).status ≡ true) ↔ (
        (contains v.epochs_retired e.epoch ≡ false)
        × ((is_empty e.epoch ≡ true)
            ⊎ (contains v.epochs_live e.epoch ≡ true)
            ⊎ (is_nil v.epochs_live ≡ true))
        × ((is_empty e.release ≡ true) ⊎ (contains v.releases_ready e.release ≡ true)))
unfolding gate_lineage
lineage_runnable e v h = ground arith

environment_runnable :
    (e : RepoEntry) (v : View)
    → is_runnable e.status ≡ true
    → (is_runnable (gate_environment e v).status ≡ true) ↔ (
        ((is_empty e.environment ≡ true)
          ⊎ ((is_empty v.environment ≡ false) × ((e.environment == v.environment) ≡ true)))
        × (is_runnable (gate_lineage e v).status ≡ true))
unfolding gate_environment
environment_runnable e v h = ground arith

gate_split :
    (e : RepoEntry) (v : View)
    → (is_runnable (gate e v).status ≡ true) ↔ (
        (is_runnable e.status ≡ true)
        × ((is_empty e.database ≡ true)
            ⊎ (is_empty v.database ≡ true)
            ⊎ ((e.database == v.database) ≡ true))
        × (is_runnable (gate_environment e v).status ≡ true))
unfolding gate
gate_split e v = ground arith

-- The gate lets a specification through exactly when it would run and every gate is open.
pub gate-runnable :
    (e : RepoEntry) (v : View)
    → (is_runnable (gate e v).status ≡ true) ↔ ((is_runnable e.status ≡ true) × Open e v)
gate-runnable e v = ground (arith, gate_split e v, environment_runnable e v, lineage_runnable e v)

recorded_Open :
    (e : RepoEntry) (a : Recorded) (v : View) → Open (classify_recorded e a) v ↔ Open e v
unfolding classify_recorded
recorded_Open e a v = ground arith

-- `classify` leaves alone what the gates read.
found_Open :
    (e : RepoEntry) (o : Option Recorded) (v : View) → Open (classify_found e o) v ↔ Open e v
unfolding classify_found
found_Open e none v = ground arith
found_Open e (some a) v = recorded_Open e a v

classify-Open : (e : RepoEntry) (v : View) → Open (classify e v.applied) v ↔ Open e v
unfolding classify
classify-Open e v = found_Open e (recorded v.applied e.epoch e.spec_id) v

-- In `scan`, a specification would run exactly when no content of its id succeeded in its epoch,
-- this content is not running, and every gate of the database is open.
pub classify_and_gate-runnable :
    (e : RepoEntry) (v : View)
    → (is_runnable (classify_and_gate e v).status ≡ true)
      ↔ (MayRun e.digest (recorded v.applied e.epoch e.spec_id) × Open e v)
unfolding classify_and_gate
classify_and_gate-runnable e v = ground (
  arith,
  gate-runnable (classify e v.applied) v,
  classify-runnable e v.applied,
  classify-Open e v,
)

-- The gate never touches a specification that would not run: one that was applied stays applied,
-- and one edited after it was applied stays a problem, in every environment.
pub gate_idle : (e : RepoEntry) (v : View) → is_runnable e.status ≡ false → gate e v ≡ e
unfolding gate
gate_idle e v h = rw h
