-- ===== src/Repository/Tests/Drift.antt =====
-- Runs of the scan and of the drift check, and their theorems at these.
use pg_laswell.Base.{
  ◌+◌, ◌≤◌, true, false, arith, ◌≡◌, ◌⊎◌, ◌↔◌, inl, inr, refl, String, List, [], ◌∷◌, ◌==◌,
  contains, All,
}
use pg_laswell.Base.Counting.{count}
use pg_laswell.Repository.Types.{View, recorded}
use pg_laswell.Repository.Views.{status_raised}
use pg_laswell.Repository.Scan.{File, Spec, parsed, raised, scan_files, empty_scan}
use pg_laswell.Repository.Scan.Claims
use pg_laswell.Repository.Scan.Listing.{entry_ids, entry_paths, second_paths, IsSecondClaim}
use pg_laswell.Repository.Drift.{
  drift, id_drift, on_disk, epochs_claimed, disk_key, views_drift, index_drift, epoch_drift,
  ids_drift, answers_for, recorded_count, describes_nothing_of,
}
use pg_laswell.Repository.Drift.Keys.{NoSeparator, HasFile}
use pg_laswell.Repository.Drift.Silence
use pg_laswell.Repository.Drift.Silence.{Reported}
use pg_laswell.Repository.Tests.Data.{once_run, known, two_levels}

abbrev spec : String → Spec
spec id = record {
  id = id;
  digest = id;
  depends_on = [];
  target_database = "";
  target_environment = "";
  target_epoch = "";
  target_connection = "";
  release = "";
}

abbrev files : List File
files =
    record { source = "p"; path = "p/1.json"; outcome = parsed (spec "0001-init") }
    ∷ record { source = "q"; path = "q/1.json"; outcome = parsed (spec "0001-init") }
    ∷ record { source = "q"; path = "q/2.json"; outcome = raised "not JSON" }
    ∷ []

scan_accounts_example :
    let s = scan_files (λ c. true) "main" (λ n c. status_raised "down") files empty_scan in
    ((path : String)
      → count path (entry_paths s.entries) + count path (second_paths s.problems)
        ≡ count path ("p/1.json" ∷ "q/1.json" ∷ "q/2.json" ∷ []))
    × (All (IsSecondClaim s.entries) s.problems
        × ((id : String) → (id == "") ≡ false → count id (entry_ids s.entries) ≤ 1))
scan_accounts_example = Claims.scan_accounts (λ c. true) "main" (λ n c. status_raised "down") files

abbrev ledgers : List (String × View)
ledgers = ("main", known) ∷ []

drift-two_levels : (drift false two_levels ledgers).problems ≡ []
unfolding drift on_disk epochs_claimed views_drift index_drift epoch_drift ids_drift id_drift
    answers_for describes_nothing_of disk_key
drift-two_levels = refl

no_separator : NoSeparator "default"
no_separator = (
  ground arith,
  (
    ground arith,
    (ground arith, (ground arith, (ground arith, (ground arith, (ground arith, tt))))),
  ),
)

drift_silent_example : HasFile two_levels "default" "0001-create"
unfolding recorded
drift_silent_example =
    Silence.drift_silent false two_levels ledgers "main" known "default" "0001-create" once_run
      no_separator (no_separator, (no_separator, tt)) drift-two_levels refl (inr (inl (refl, refl)))
      refl refl (inl refl)

empty_listing-Reported_example :
    Reported (drift false [] ledgers).problems "main" (recorded_count known.applied)
empty_listing-Reported_example =
    Silence.empty_listing-Reported false [] ledgers "main" known tt refl refl

never_applied_tolerated_example :
    ((id_drift false [] "main" "default" "0001-create" once_run).problems ≡ []) ↔ (
      (contains [] (disk_key "default" "0001-create") ≡ true)
      ⊎ (once_run.succeeded ≡ []) × (once_run.running ≡ []))
never_applied_tolerated_example =
    Silence.never_applied_tolerated false [] "main" "default" "0001-create" once_run
