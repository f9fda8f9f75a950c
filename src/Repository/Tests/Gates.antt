-- ===== src/Repository/Tests/Gates.antt =====
-- Runs of `classify`, `gate` and `view_for`, and their theorems at these.
use pg_laswell.Base.{true, ◌≡◌, ◌↔◌, inl, inr, refl, []}
use pg_laswell.Repository.Status.{RepoStatus, is_runnable}
use pg_laswell.Repository.Types.{recorded}
use pg_laswell.Repository.Classify.{classify, gate, classify_and_gate, is_empty}
use pg_laswell.Repository.Classify.History
use pg_laswell.Repository.Classify.History.{MayRun, Answer}
use pg_laswell.Repository.Classify.Gates
use pg_laswell.Repository.Classify.Gates.{Open}
use pg_laswell.Repository.Views.{LedgerStatus, status_raised, index_raised, view_of}
use pg_laswell.Repository.Views.Once
use pg_laswell.Repository.Views.Once.{ask_all}
use pg_laswell.Repository.Tests.Data.{create, fill, once_run, known}

-- The file was edited after it was applied.
edited : (classify create known.applied).status ≡ RepoStatus.modified
unfolding classify recorded
edited = refl

classify-Answer_example : Answer create once_run (classify create known.applied).status
unfolding recorded
classify-Answer_example = History.classify-Answer create known.applied once_run refl

gate-runnable_example :
    (is_runnable (gate fill known).status ≡ true)
    ↔ ((is_runnable fill.status ≡ true) × Open fill known)
gate-runnable_example = Gates.gate-runnable fill known

classify_and_gate-runnable_example :
    (is_runnable (classify_and_gate fill known).status ≡ true)
    ↔ (MayRun "0002-fill" (recorded known.applied "default" "0002-fill") × Open fill known)
classify_and_gate-runnable_example = Gates.classify_and_gate-runnable fill known

unreachable_holds_example :
    (is_runnable (classify_and_gate fill (view_of (status_raised "refused"))).status ≡ true)
    ↔ ((is_empty fill.environment ≡ true) × (is_empty fill.release ≡ true))
unreachable_holds_example = Once.unreachable_holds fill "refused"

abbrev half_read : LedgerStatus
half_read = record {
  database = "";
  database_identity = "7/1";
  environment = "";
  releases_ready = [];
  epochs_live = [];
  epochs_retired = [];
}

unread_ledger_runs_example :
    is_runnable (classify_and_gate create (view_of (index_raised half_read "no USAGE"))).status
    ≡ true
unfolding view_of
unread_ledger_runs_example = Once.unread_ledger_runs create half_read "no USAGE" (record {
  database = inl refl;
  environment = inl refl;
  not_retired = refl;
  opened = inr (inr refl);
  released = inl refl;
})
