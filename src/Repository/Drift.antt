-- ===== src/Repository/Drift.antt =====
-- cpp/src/repository.h: the drift check of `scan`, what a ledger knows that the files do not.
pub mod Keys
pub mod Silence
use Prim.Native.String.{◌++◌ as append_text}
use pg_laswell.Base.{
  ℕ, ◌+◌, Bool, true, false, not, ◌&&◌, ◌||◌, String, List, [], ◌∷◌, ◌++◌, ◌==◌, is_nil, contains,
  length, if◌then◌else◌,
}
use pg_laswell.Repository.Types.{RepoEntry, Recorded, Index, View}

pub data DriftProblem : Type 0 where
  -- the connection, and how many ids its ledger records
  describes_nothing : String → ℕ → DriftProblem
  -- the connection, the id, the epoch, and whether only a complete manifest answers for it
  applied_and_gone : String → String → String → Bool → DriftProblem

pub data DriftNote : Type 0 where
  -- the connection, the id and the epoch
  never_applied_and_gone : String → String → String → DriftNote

pub record Drift : Type 0 where
  pub problems : List DriftProblem
  pub notes : List DriftNote

abbrev pub no_drift : Drift
no_drift = record { problems = []; notes = [] }

abbrev pub join : Drift → Drift → Drift
join a b = record { problems = a.problems ++ b.problems; notes = a.notes ++ b.notes }

-- `epoch + "\x1f" + spec_id`
unfoldable pub disk_key : String → String → String
disk_key epoch id = append_text epoch (append_text "\u{1f}" id)

unfoldable pub on_disk : List RepoEntry → List String
on_disk [] = []
on_disk (e ∷ es) =
    let rest = on_disk es in if e.spec_id == "" then rest else disk_key e.epoch e.spec_id ∷ rest

unfoldable pub epochs_claimed : List RepoEntry → List String
epochs_claimed [] = []
epochs_claimed (e ∷ es) =
    let rest = epochs_claimed es in if e.spec_id == "" then rest else e.epoch ∷ rest

-- How many ids a ledger records, over all its epochs.
abbrev pub recorded_count : Index → ℕ
recorded_count [] = 0
recorded_count ((epoch, ids) ∷ index) = length ids + recorded_count index

-- A listing that describes nothing, against every ledger that records something.
unfoldable pub describes_nothing_of : List String → List (String × View) → List DriftProblem
describes_nothing_of disk [] = []
describes_nothing_of disk ((c, v) ∷ views) =
    let rest = describes_nothing_of disk views in
    if is_nil disk && not (is_nil v.applied)
    then describes_nothing c (recorded_count v.applied) ∷ rest
    else rest

-- Applied, or being applied.
abbrev pub counts_as_applied : Recorded → Bool
counts_as_applied a = not (is_nil a.succeeded && is_nil a.running)

-- One id that a ledger records in an epoch that is asked for.
unfoldable pub id_drift : Bool → List String → String → String → String → Recorded → Drift
id_drift widened disk connection epoch id a =
    if contains disk (disk_key epoch id)
    then no_drift
    else if not (counts_as_applied a)
    then record { problems = []; notes = never_applied_and_gone connection id epoch ∷ [] }
    else record { problems = applied_and_gone connection id epoch widened ∷ []; notes = [] }

unfoldable pub ids_drift : Bool → List String → String → String → List (String × Recorded) → Drift
ids_drift widened disk connection epoch [] = no_drift
ids_drift widened disk connection epoch ((id, a) ∷ ids) =
    join (id_drift widened disk connection epoch id a) (ids_drift widened disk connection epoch ids)

-- Does the listing answer for an epoch of this view?
unfoldable pub answers_for : Bool → List String → View → String → Bool
answers_for whole claimed v epoch =
    (whole || contains claimed epoch) && not (contains v.epochs_retired epoch)

unfoldable pub epoch_drift :
    Bool → List String → List String → String → View → String → List (String × Recorded) → Drift
epoch_drift whole claimed disk connection v epoch ids =
    if answers_for whole claimed v epoch
    then ids_drift (whole && not (contains claimed epoch)) disk connection epoch ids
    else no_drift

unfoldable pub index_drift : Bool → List String → List String → String → View → Index → Drift
index_drift whole claimed disk connection v [] = no_drift
index_drift whole claimed disk connection v ((epoch, ids) ∷ index) =
    join (epoch_drift whole claimed disk connection v epoch ids)
      (index_drift whole claimed disk connection v index)

unfoldable pub views_drift : Bool → List String → List String → List (String × View) → Drift
views_drift whole claimed disk [] = no_drift
views_drift whole claimed disk ((c, v) ∷ views) =
    join (index_drift whole claimed disk c v v.applied) (views_drift whole claimed disk views)

-- The whole check; `whole` is the manifest's assertion that the sources are complete.
unfoldable pub drift : Bool → List RepoEntry → List (String × View) → Drift
drift whole entries views =
    let disk = on_disk entries in
    let found = views_drift whole (epochs_claimed entries) disk views in
    record found { problems = describes_nothing_of disk views ++ found.problems }
