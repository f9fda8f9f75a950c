-- ===== src/Repository/Views.antt =====
-- cpp/src/repository.h: `view_for`, which reads each database once per listing and keeps what it
-- read. The readings themselves are SQL: they are the oracle `source`, whose n-th answer may
-- differ from the one before it.
pub mod Once
use pg_laswell.Base.{ℕ, suc, Bool, true, false, String, Option, none, some, List, ◌∷◌}
use pg_laswell.Repository.Types.{View, Index, blank, lookup}

-- The part of `LedgerStatus` (cpp/src/ledger.h) that a listing reads.
pub record LedgerStatus : Type 0 where
  pub database : String
  pub database_identity : String
  pub environment : String
  pub releases_ready : List String
  pub epochs_live : List String
  pub epochs_retired : List String

-- The body of the `try`: the connection or its status raised, or the status was read and
-- `applied_index` raised, or both were read.
pub data Reading : Type 0 where
  status_raised : String → Reading
  index_raised : LedgerStatus → String → Reading
  both_read : LedgerStatus → Index → Reading

-- The assignments up to `v.epochs_retired`.
with_status : View → LedgerStatus → View
with_status v st = record v {
  database = st.database;
  database_identity = st.database_identity;
  environment = st.environment;
  releases_ready = st.releases_ready;
  epochs_live = st.epochs_live;
  epochs_retired = st.epochs_retired;
}

unfoldable pub view_of : Reading → View
unfolding with_status
view_of (status_raised what) = record blank { error = what }
view_of (index_raised st what) = record (with_status blank st) { error = what }
view_of (both_read st index) = record (with_status blank st) { applied = index; reachable = true }

-- `views_`, and how many readings were made.
pub record Views : Type 0 where
  pub known : List (String × View)
  pub readings : ℕ

unfoldable pub view_for : (ℕ → String → Reading) → String → Views → View × Views
unfolding view_of
view_for source connection vs = elim (lookup connection vs.known) [
  | some v ↦ (v, vs)
  | none ↦
      let v = view_of (source vs.readings connection) in
      (v, record { known = (connection, v) ∷ vs.known; readings = suc vs.readings })
]
