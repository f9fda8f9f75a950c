-- ===== src/Repository/Classify.antt =====
-- cpp/src/repository.h: `classify` and `gate`, which decide what a specification is in one
-- database. The proofs are in the modules below.
pub mod History
pub mod Gates
pub mod Keeps
use pg_laswell.Base.{
  Bool, true, false, not, ◌&&◌, ◌==◌, String, Option, none, some, List, [], ◌∷◌, is_nil, contains,
  if◌then◌else◌,
}
use pg_laswell.Repository.Status.{RepoStatus, is_runnable}
use pg_laswell.Repository.Types.{RepoEntry, Recorded, Index, View, Message, Hint, recorded}

-- The end of `classify`: this content never succeeded, and no other content of the id did.
classify_unapplied : RepoEntry → Recorded → RepoEntry
classify_unapplied e a =
    if contains a.failed e.digest
    then record e { status = RepoStatus.failed; hint = Hint.rerun_resumes }
    else record e { status = RepoStatus.pending }

-- The id is in the ledger under its own epoch.
classify_recorded : RepoEntry → Recorded → RepoEntry
unfolding classify_unapplied
classify_recorded e a =
    if contains a.running e.digest
    then record e { status = RepoStatus.in_progress }
    else if contains a.succeeded e.digest
    then record e { status = RepoStatus.applied }
    else elim a.succeeded [
      | first ∷ _ ↦ record e {
        status = RepoStatus.modified;
        applied_digest = first;
        error = Message.edited_since e.spec_id first e.digest;
        hint = Hint.write_new_spec;
      }
      | [] ↦ classify_unapplied e a
    ]

-- `applied.contains(epoch) && applied[epoch].contains(spec_id)`, or pending.
classify_found : RepoEntry → Option Recorded → RepoEntry
unfolding classify_recorded
classify_found e none = record e { status = RepoStatus.pending }
classify_found e (some a) = classify_recorded e a

unfoldable pub classify : RepoEntry → Index → RepoEntry
unfolding classify_found
classify e index = classify_found e (recorded index e.epoch e.spec_id)

abbrev pub is_empty : String → Bool
is_empty s = s == ""

-- The gates after the environment: epoch, then release.
gate_lineage : RepoEntry → View → RepoEntry
gate_lineage e v =
    if contains v.epochs_retired e.epoch
    then record e {
      status = RepoStatus.retired_epoch;
      error = Message.in_retired_epoch e.spec_id e.epoch;
      hint = Hint.revive_epoch e.epoch;
    }
    else if not (is_empty e.epoch)
        && not (contains v.epochs_live e.epoch)
        && not (is_nil v.epochs_live)
    then record e {
      status = RepoStatus.held_for_epoch;
      error = Message.in_unopened_epoch e.spec_id e.epoch;
      hint = Hint.open_epoch e.epoch;
    }
    else if not (is_empty e.release) && not (contains v.releases_ready e.release)
    then record e {
      status = RepoStatus.held_for_release;
      error = Message.release_not_ready e.spec_id e.release;
      hint = Hint.approve_release e.release;
    }
    else e

-- The environment gate, for a specification that names one.
gate_environment : RepoEntry → View → RepoEntry
unfolding gate_lineage
gate_environment e v =
    if not (is_empty e.environment) && is_empty v.environment
    then record e {
      status = RepoStatus.wrong_environment;
      error = Message.not_labelled e.spec_id e.environment;
      hint = Hint.label_database;
    }
    else if not (is_empty e.environment) && not (e.environment == v.environment)
    then record e {
      status = RepoStatus.wrong_environment;
      error = Message.targets_environment e.spec_id e.environment v.environment;
      hint = Hint.for_another_database;
    }
    else gate_lineage e v

unfoldable pub gate : RepoEntry → View → RepoEntry
unfolding gate_environment
gate e v =
    if not (is_runnable e.status)
    then e
    else if not (is_empty e.database) && not (is_empty v.database) && not (e.database == v.database)
    then record e {
      status = RepoStatus.wrong_database;
      error = Message.targets_database e.spec_id e.database v.database;
      hint = Hint.names_another_database;
    }
    else gate_environment e v

-- The two in the order in which `scan` calls them.
unfoldable pub classify_and_gate : RepoEntry → View → RepoEntry
unfolding classify gate
classify_and_gate e v = gate (classify e v.applied) v
