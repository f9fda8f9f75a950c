-- ===== src/Repository/Classify/History.antt =====
-- Proofs about cpp/src/repository.h, `classify`, against the history in the ledger.
use pg_laswell.Base.{
  true, false, ◌≡◌, ◌≢◌, ◌↔◌, String, Option, none, some, [], refl, contains, arith,
}
use pg_laswell.Repository.Status.{RepoStatus, is_runnable}
use pg_laswell.Repository.Types.{RepoEntry, Recorded, Index, recorded}
use pg_laswell.Repository.Classify.{classify, classify_found, classify_recorded}

-- What the ledger must say of an id for a content of it to run: no content of the id ever
-- succeeded, and this one is not running.
abbrev pub MayRun : String → Option Recorded → Type 0
MayRun digest none = Unit {0}
MayRun digest (some a) = (a.succeeded ≡ []) × (contains a.running digest ≡ false)

found-runnable :
    (e : RepoEntry) (o : Option Recorded)
    → (is_runnable (classify_found e o).status ≡ true) ↔ MayRun e.digest o
unfolding classify_found
found-runnable e none = (λ _. tt, λ _. refl)
found-runnable e (some a) = ground arith

-- A specification would run exactly when no content of its id ever succeeded in its own epoch and
-- this content is not running now.
pub classify-runnable :
    (e : RepoEntry) (index : Index)
    → (is_runnable (classify e index).status ≡ true)
      ↔ MayRun e.digest (recorded index e.epoch e.spec_id)
classify-runnable e index = unfold classify in found-runnable e (recorded index e.epoch e.spec_id)

-- What is left of `classify`'s answers, for an id that the ledger holds.
abbrev pub Answer : RepoEntry → Recorded → RepoStatus → Type 0
Answer e a RepoStatus.in_progress = contains a.running e.digest ≡ true
Answer e a RepoStatus.applied =
    (contains a.running e.digest ≡ false) × (contains a.succeeded e.digest ≡ true)
Answer e a RepoStatus.modified =
    (contains a.running e.digest ≡ false)
    × (contains a.succeeded e.digest ≡ false)
    × (a.succeeded ≢ [])
Answer e a RepoStatus.failed =
    (contains a.running e.digest ≡ false) × (a.succeeded ≡ []) × (contains a.failed e.digest ≡ true)
Answer e a RepoStatus.pending =
    (contains a.running e.digest ≡ false)
    × (a.succeeded ≡ [])
    × (contains a.failed e.digest ≡ false)
Answer e a _ = ⊥

recorded-Answer :
    (e : RepoEntry) (a : Recorded) (s : RepoStatus)
    → (classify_recorded e a).status ≡ s
    → Answer e a s
unfolding classify_recorded
recorded-Answer e a RepoStatus.pending h = ground arith
recorded-Answer e a _ h = ground arith

-- Of an id in the ledger the answer is one of five, and each is given under its own condition:
-- running, succeeded, edited after it succeeded, failed, or none of these.
pub classify-Answer :
    (e : RepoEntry) (index : Index) (a : Recorded)
    → recorded index e.epoch e.spec_id ≡ some a
    → Answer e a (classify e index).status
classify-Answer e index a h =
    unfold classify classify_found in rw h (recorded-Answer e a (classify_recorded e a).status refl)
