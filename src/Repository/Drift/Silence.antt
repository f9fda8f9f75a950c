-- ===== src/Repository/Drift/Silence.antt =====
-- Proofs about cpp/src/repository.h, the drift check of `scan`.
use mathlib.Core.List.{append_assoc}
use pg_laswell.Base.{
  ℕ, Bool, true, false, not, ◌||◌, ◌++◌, refl, ap, ◌∙◌, All, ◌&&◌, ◌≡◌, ◌⊎◌, ◌↔◌, inl, inr, String,
  some, List, [], ◌∷◌, ◌==◌, is_nil, contains, arith, append-nil_parts, Bool-cases, ==_iff,
}
use pg_laswell.Repository.Types.{RepoEntry, Recorded, Index, View, lookup, recorded}
use pg_laswell.Repository.Drift.Keys.{
  NoSeparator, Separable, HasFile, Claims, on_disk-HasFile, Claims-epochs_claimed,
}
use pg_laswell.Repository.Drift.{
  DriftProblem, describes_nothing, recorded_count, disk_key, on_disk, epochs_claimed,
  describes_nothing_of, counts_as_applied, id_drift, ids_drift, answers_for, epoch_drift,
  index_drift, views_drift, drift,
}

-- With a file for it, or never applied, an id gives no problem.
id_silent :
    (widened : Bool) (disk : List String) (c epoch id : String) (a : Recorded)
    → (id_drift widened disk c epoch id a).problems ≡ []
    → counts_as_applied a ≡ true
    → contains disk (disk_key epoch id) ≡ true
unfolding id_drift
id_silent widened disk c epoch id a h k = ground arith

ids_silent :
    (widened : Bool) (disk : List String) (c epoch : String) (ids : List (String × Recorded))
    (id : String) (a : Recorded)
    → (ids_drift widened disk c epoch ids).problems ≡ []
    → lookup id ids ≡ some a
    → counts_as_applied a ≡ true
    → contains disk (disk_key epoch id) ≡ true
unfolding ids_drift
ids_silent widened disk c epoch [] id a h l k = absurd (ground arith)
ids_silent widened disk c epoch ((i, b) ∷ ids) id a h l k =
    let (here, later) =
      append-nil_parts (id_drift widened disk c epoch i b).problems
        (ids_drift widened disk c epoch ids).problems h in
    ground (
      arith,
      ==_iff i id,
      id_silent widened disk c epoch i b here,
      ids_silent widened disk c epoch ids id a later,
    )

epoch_silent :
    (whole : Bool) (claimed disk : List String) (c : String) (v : View) (epoch : String)
    (ids : List (String × Recorded)) (id : String) (a : Recorded)
    → (epoch_drift whole claimed disk c v epoch ids).problems ≡ []
    → answers_for whole claimed v epoch ≡ true
    → lookup id ids ≡ some a
    → counts_as_applied a ≡ true
    → contains disk (disk_key epoch id) ≡ true
unfolding epoch_drift
epoch_silent whole claimed disk c v epoch ids id a h w l k =
    ground (arith, ids_silent (whole && not (contains claimed epoch)) disk c epoch ids id a)

index_silent :
    (whole : Bool) (claimed disk : List String) (c : String) (v : View) (index : Index)
    (epoch id : String) (a : Recorded)
    → (index_drift whole claimed disk c v index).problems ≡ []
    → answers_for whole claimed v epoch ≡ true
    → recorded index epoch id ≡ some a
    → counts_as_applied a ≡ true
    → contains disk (disk_key epoch id) ≡ true
unfolding index_drift recorded
index_silent whole claimed disk c v [] epoch id a h w l k = absurd (ground arith)
index_silent whole claimed disk c v ((e, ids) ∷ index) epoch id a h w l k =
    let (here, later) =
      append-nil_parts (epoch_drift whole claimed disk c v e ids).problems
        (index_drift whole claimed disk c v index).problems h in
    elim (Bool-cases (e == epoch)) [
      | inl q ↦ ground (arith, ==_iff e epoch, epoch_silent whole claimed disk c v e ids id a here)
      | inr q ↦ index_silent whole claimed disk c v index epoch id a later w (ground arith) k
    ]

views_silent :
    (whole : Bool) (claimed disk : List String) (views : List (String × View)) (c : String)
    (v : View) (epoch id : String) (a : Recorded)
    → (views_drift whole claimed disk views).problems ≡ []
    → lookup c views ≡ some v
    → answers_for whole claimed v epoch ≡ true
    → recorded v.applied epoch id ≡ some a
    → counts_as_applied a ≡ true
    → contains disk (disk_key epoch id) ≡ true
unfolding views_drift
views_silent whole claimed disk [] c v epoch id a h l w r k = absurd (ground arith)
views_silent whole claimed disk ((d, u) ∷ views) c v epoch id a h l w r k =
    let (here, later) =
      append-nil_parts (index_drift whole claimed disk d u u.applied).problems
        (views_drift whole claimed disk views).problems h in
    elim (Bool-cases (d == c)) [
      | inl q ↦
          let e : u ≡ v = ground arith in
          index_silent whole claimed disk d u u.applied epoch id a here (rw e w) (rw e r) k
      | inr q ↦ views_silent whole claimed disk views c v epoch id a later (ground arith) w r k
    ]

-- Where the drift check reports no problem, and no epoch holds the byte that separates an epoch from
-- an id in its keys, every id that a ledger of the listing records as applied, or as being applied,
-- has a file in its epoch: in every epoch that a file with an id claims, or in all epochs for a
-- complete manifest, and the retired ones left aside.
pub drift_silent :
    (whole : Bool) (entries : List RepoEntry) (views : List (String × View)) (c : String) (v : View)
    (epoch id : String) (a : Recorded)
    → NoSeparator epoch
    → All Separable entries
    → (drift whole entries views).problems ≡ []
    → lookup c views ≡ some v
    → ((whole ≡ true) ⊎ Claims entries epoch)
    → contains v.epochs_retired epoch ≡ false
    → recorded v.applied epoch id ≡ some a
    → (is_nil a.succeeded ≡ false) ⊎ (is_nil a.running ≡ false)
    → HasFile entries epoch id
unfolding drift answers_for
drift_silent whole entries views c v epoch id a free all h l scope live r k =
    let disk = on_disk entries in
    let claimed = epochs_claimed entries in
    let (nothing, found) =
      append-nil_parts (describes_nothing_of disk views)
        (views_drift whole claimed disk views).problems h in
    let within : (whole || contains claimed epoch) ≡ true = elim scope [
      | inl complete ↦ ground arith
      | inr claims ↦ ground (arith, Claims-epochs_claimed entries epoch claims)
    ] in
    on_disk-HasFile entries epoch id free all
      (views_silent whole claimed disk views c v epoch id a found l (ground arith) r (ground arith))

-- Among the problems is that the listing describes nothing, while the ledger of a connection
-- records so many ids.
abbrev pub Reported : List DriftProblem → String → ℕ → Type 0
Reported ps c n =
    (before : List DriftProblem) × (after : List DriftProblem) × (ps
      ≡ before ++ (describes_nothing c n ∷ after))

Reported-append :
    (ps qs : List DriftProblem) (c : String) (n : ℕ) → Reported ps c n → Reported (ps ++ qs) c n
Reported-append ps qs c n (before, after, e) = (
  before,
  after ++ qs,
  ap (λ t. t ++ qs) e ∙ append_assoc before (describes_nothing c n ∷ after) qs,
)

nothing-Reported :
    (views : List (String × View)) (c : String) (v : View)
    → lookup c views ≡ some v
    → is_nil v.applied ≡ false
    → Reported (describes_nothing_of [] views) c (recorded_count v.applied)
unfolding describes_nothing_of
nothing-Reported [] c v l h = absurd (ground arith)
nothing-Reported ((d, u) ∷ views) c v l h = elim (Bool-cases (d == c)) [
  | inl q ↦
      let e : u ≡ v = ground arith in
      let d_is : d ≡ c = (==_iff d c).0 q in
      let full : is_nil u.applied ≡ false = rw e h in
      rw full ([], describes_nothing_of [] views, rw (d_is, e) refl)
  | inr q ↦
      let (before, after, e) = nothing-Reported views c v (ground arith) h in
      elim (Bool-cases (is_nil u.applied)) [
        | inl empty ↦ rw empty (before, after, e)
        | inr full ↦ rw full (
          describes_nothing d (recorded_count u.applied) ∷ before,
          after,
          ap (λ t. describes_nothing d (recorded_count u.applied) ∷ t) e,
        )
      ]
]

bare-on_disk :
    (es : List RepoEntry) → All (λ (e : RepoEntry). (e.spec_id == "") ≡ true) es → on_disk es ≡ []
unfolding on_disk
bare-on_disk [] h = refl
bare-on_disk (e ∷ es) h = rw (h.0) (bare-on_disk es h.1)

-- Of a listing in which no file has an id, every ledger that records something is reported
-- with its connection, whatever its epochs.
pub empty_listing-Reported :
    (whole : Bool) (entries : List RepoEntry) (views : List (String × View)) (c : String) (v : View)
    → All (λ (e : RepoEntry). (e.spec_id == "") ≡ true) entries
    → lookup c views ≡ some v
    → is_nil v.applied ≡ false
    → Reported (drift whole entries views).problems c (recorded_count v.applied)
unfolding drift
empty_listing-Reported whole entries views c v bare l full = rw (bare-on_disk entries bare) (
    Reported-append (describes_nothing_of [] views)
      (views_drift whole (epochs_claimed entries) [] views).problems c (recorded_count v.applied)
      (nothing-Reported views c v l full))

-- An id that was recorded and never applied is no problem, in whatever epoch and under whatever
-- manifest: its file may be taken out of the repository.
pub never_applied_tolerated :
    (widened : Bool) (disk : List String) (c epoch id : String) (a : Recorded)
    → ((id_drift widened disk c epoch id a).problems ≡ [])
      ↔ ((contains disk (disk_key epoch id) ≡ true) ⊎ (a.succeeded ≡ []) × (a.running ≡ []))
unfolding id_drift
never_applied_tolerated widened disk c epoch id a = ground arith
