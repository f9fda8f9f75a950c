-- ===== src/Repository/Scan/Claims.antt =====
-- Proofs about cpp/src/repository.h, the loop of `scan` and its faults.
use pg_laswell.Base.{
  ℕ, ◌+◌, ◌≤◌, Bool, false, ◌≡◌, ◌≢◌, ◌↔◌, refl, String, Option, none, some, List, [], ◌∷◌, ◌++◌,
  ◌==◌, arith, eq_iff, All, append-nil_parts, Bool-cases, inl, inr, ap,
}
use pg_laswell.Base.Counting.{count, count-append}
use pg_laswell.Repository.Status.{RepoStatus}
use pg_laswell.Repository.Types.{RepoEntry, lookup}
use pg_laswell.Repository.Views.{Reading}
use pg_laswell.Repository.Scan.{
  identical_copies, two_meanings, Spec, Outcome, parsed, refused, raised, File, FirstSeen, Scan,
  described, duplicate, routed, claim, take_in, empty_scan, scan_file, scan_files, fault, faults,
}
use pg_laswell.Repository.Scan.Listing.{
  entry_ids, file_paths, entry_paths, second_paths, IsSecondClaim, entry_counted, second_counted,
  entry_ids-append, routed-Kept,
}
use pg_laswell.Repository.Scan.Truth.{scan_files-Truth}

abbrev claims : String → List (String × FirstSeen) → ℕ
claims id claimed = elim (lookup id claimed) [ none ↦ 0 | some _ ↦ 1 ]

module _ (defined : String → Bool) (default_connection : String)
    (source : ℕ → String → Reading) where
  -- An id is listed only if it was claimed, and once.
  abbrev Inv : Scan → Type 0
  Inv s = (id : String) → (id == "") ≡ false → count id (entry_ids s.entries) ≤ claims id s.claimed

  claim-Inv :
      (f : File) (spec : Spec) (o : Option FirstSeen) (s : Scan)
      → lookup spec.id s.claimed ≡ o
      → Inv s
      → Inv (claim defined default_connection source f spec o s)
  unfolding claim
  claim-Inv f spec (some first) s h inv id ne = inv id ne
  claim-Inv f spec none s h inv id ne =
      let e =
        (routed defined default_connection source (described default_connection f spec)
          s.views).0 in
      ground (
        arith,
        inv id ne,
        eq_iff spec.id id,
        entry_ids-append s.entries (e ∷ []),
        count-append id (entry_ids s.entries) (e.spec_id ∷ []),
        (routed-Kept defined default_connection source (described default_connection f spec)
            s.views).0,
      )

  unread-Inv :
      (e : RepoEntry) (s : Scan)
      → e.spec_id ≡ ""
      → Inv s
      → Inv (record s { entries = s.entries ++ e ∷ [] })
  unread-Inv e s h inv id ne = ground (
    arith,
    inv id ne,
    eq_iff e.spec_id id,
    eq_iff id "",
    entry_ids-append s.entries (e ∷ []),
    count-append id (entry_ids s.entries) (e.spec_id ∷ []),
  )

  take_in-Inv :
      (f : File) (o : Outcome) (s : Scan)
      → Inv s
      → Inv (take_in defined default_connection source f o s)
  unfolding take_in
  take_in-Inv f (parsed spec) s inv = claim-Inv f spec (lookup spec.id s.claimed) s refl inv
  take_in-Inv f (refused what advice) s inv = unread-Inv _ s refl inv
  take_in-Inv f (raised what) s inv = unread-Inv _ s refl inv

  scan_files-Inv :
      (fs : List File) (s : Scan) → Inv s → Inv (scan_files defined default_connection source fs s)
  unfolding scan_files scan_file
  scan_files-Inv [] s inv = inv
  scan_files-Inv (f ∷ fs) s inv =
      scan_files-Inv fs (scan_file defined default_connection source f s)
        (take_in-Inv f f.outcome s inv)

  -- How often a scan accounts for a path.
  abbrev accounted : String → Scan → ℕ
  accounted path s = count path (entry_paths s.entries) + count path (second_paths s.problems)

  claim_accounted :
      (path : String) (f : File) (spec : Spec) (o : Option FirstSeen) (s : Scan)
      → accounted path (claim defined default_connection source f spec o s)
        ≡ count path (f.path ∷ []) + accounted path s
  unfolding claim duplicate
  claim_accounted path f spec (some first) s = elim (Bool-cases (first.digest == spec.digest)) [
    | inl same ↦
        rw same (
          omega
            (arith, second_counted path s.problems (identical_copies spec.id first.path f.path)))
    | inr differ ↦ rw differ (
        omega (
          arith,
          second_counted path s.problems
              (two_meanings spec.id first.path first.digest f.path spec.digest),
        ))
  ]
  claim_accounted path f spec none s =
      let e =
        (routed defined default_connection source (described default_connection f spec)
          s.views).0 in
      let kept : e.path ≡ f.path =
        (routed-Kept defined default_connection source (described default_connection f spec)
          s.views).1.0 in
      let n : count path (e.path ∷ []) ≡ count path (f.path ∷ []) =
        ap (λ (q : String). count path (q ∷ [])) kept in
      omega (arith, entry_counted path s.entries e, n)

  take_in_accounted :
      (path : String) (f : File) (o : Outcome) (s : Scan)
      → accounted path (take_in defined default_connection source f o s)
        ≡ count path (f.path ∷ []) + accounted path s
  unfolding take_in
  take_in_accounted path f (parsed spec) s =
      claim_accounted path f spec (lookup spec.id s.claimed) s
  take_in_accounted path f (refused what advice) s = omega (arith, entry_counted path s.entries _)
  take_in_accounted path f (raised what) s = omega (arith, entry_counted path s.entries _)

  scan_files_accounted :
      (path : String) (fs : List File) (s : Scan)
      → accounted path (scan_files defined default_connection source fs s)
        ≡ count path (file_paths fs) + accounted path s
  unfolding scan_files scan_file
  scan_files_accounted path [] s = omega arith
  scan_files_accounted path (f ∷ fs) s = omega (
    arith,
    scan_files_accounted path fs (scan_file defined default_connection source f s),
    take_in_accounted path f f.outcome s,
    count-append path (f.path ∷ []) (file_paths fs),
  )

  -- A scan accounts for every file, by its path: the path is that of an entry, or the second path of
  -- a problem about two files with one id, as often as the path is scanned. Each of these problems
  -- names first the path of an entry with that id, and as the first digest that of the entry; the
  -- digests that it reports as two differ. No id but the empty one is listed twice.
  pub scan_accounts :
      (fs : List File)
      → let s = scan_files defined default_connection source fs empty_scan in
        ((path : String)
          → count path (entry_paths s.entries) + count path (second_paths s.problems)
            ≡ count path (file_paths fs))
        × (All (IsSecondClaim s.entries) s.problems
            × ((id : String) → (id == "") ≡ false → count id (entry_ids s.entries) ≤ 1))
  scan_accounts fs =
      let inv = scan_files-Inv fs empty_scan (λ id ne. omega arith) in
      (
        λ path. omega (arith, scan_files_accounted path fs empty_scan),
        (
          (scan_files-Truth defined default_connection source fs empty_scan
              (λ id first h. absurd (cc), tt)).1,
          λ id ne. ground (arith, inv id ne),
        ),
      )

fault_silent :
    (e : RepoEntry) (s : RepoStatus)
    → (fault e s ≡ []) ↔ ((s ≢ RepoStatus.unreadable) × (s ≢ RepoStatus.unknown_connection))
unfolding fault
fault_silent e RepoStatus.unreadable = ground arith
fault_silent e _ = ground arith

-- A file that does not parse, or that names a connection which is not configured, is a fault of
-- the repository: nothing is reported exactly when there is no such entry.
pub faults_silent :
    (es : List RepoEntry)
    → (faults es ≡ [])
      ↔ All
          (λ (e : RepoEntry).
            (e.status ≢ RepoStatus.unreadable) × (e.status ≢ RepoStatus.unknown_connection))
          es
unfolding faults
faults_silent [] = (λ _. tt, λ _. refl)
faults_silent (e ∷ es) = (
  λ h.
      let (here, later) = append-nil_parts (fault e e.status) (faults es) h in
      ((fault_silent e e.status).0 here, (faults_silent es).0 later),
  λ h. rw ((fault_silent e e.status).1 h.0, (faults_silent es).1 h.1) refl,
)
