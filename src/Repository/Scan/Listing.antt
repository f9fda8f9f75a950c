-- ===== src/Repository/Scan/Listing.antt =====
-- Proofs about cpp/src/repository.h, the entries and the problems of a scan.
use pg_laswell.Base.{
  ℕ, ◌+◌, Bool, false, ◌≡◌, refl, String, List, [], ◌∷◌, ◌++◌, ◌==◌, arith, inl, inr, ◌⊎◌,
}
use pg_laswell.Base.Counting.{count}
use pg_laswell.Repository.Types.{RepoEntry}
use pg_laswell.Repository.Views.{Views, Reading, view_for}
use pg_laswell.Repository.Classify.Keeps.{Kept, classify_and_gate-Kept}
use pg_laswell.Repository.Classify.{classify_and_gate}
use pg_laswell.Repository.Scan.{
  ScanProblem, identical_copies, two_meanings, undefined_connection, unreadable_file, File, routed,
}

-- The ids of entries, as the listing shows them.
abbrev pub entry_ids : List RepoEntry → List String
entry_ids [] = []
entry_ids (e ∷ es) = e.spec_id ∷ entry_ids es

-- The paths of the files, of the entries, and those that a problem names as a second claim.
abbrev pub file_paths : List File → List String
file_paths [] = []
file_paths (f ∷ fs) = f.path ∷ file_paths fs

abbrev pub entry_paths : List RepoEntry → List String
entry_paths [] = []
entry_paths (e ∷ es) = e.path ∷ entry_paths es

abbrev pub second_paths : List ScanProblem → List String
second_paths [] = []
second_paths (identical_copies id first second ∷ ps) = second ∷ second_paths ps
second_paths (two_meanings id first digest second other ∷ ps) = second ∷ second_paths ps
second_paths (undefined_connection id c ∷ ps) = second_paths ps
second_paths (unreadable_file path m ∷ ps) = second_paths ps

-- An entry with this id, path and digest.
abbrev pub Listed : List RepoEntry → String → String → String → Type 0
Listed [] id path digest = ⊥
Listed (e ∷ es) id path digest =
    ((e.spec_id ≡ id) × ((e.path ≡ path) × (e.digest ≡ digest))) ⊎ Listed es id path digest

-- The problem is about the id of an entry, whose path it names first.
abbrev pub IsSecondClaim : List RepoEntry → ScanProblem → Type 0
IsSecondClaim es (identical_copies id first second) = (digest : String) × Listed es id first digest
IsSecondClaim es (two_meanings id first digest second other) =
    Listed es id first digest × ((digest == other) ≡ false)
IsSecondClaim es _ = ⊥

pub Listed-append :
    (es fs : List RepoEntry) (id path digest : String)
    → Listed es id path digest
    → Listed (es ++ fs) id path digest
Listed-append [] fs id path digest h = absurd h
Listed-append (e ∷ es) fs id path digest (inl h) = inl h
Listed-append (e ∷ es) fs id path digest (inr h) = inr (Listed-append es fs id path digest h)

pub Listed-last :
    (es : List RepoEntry) (e : RepoEntry) (id path digest : String)
    → (e.spec_id ≡ id) × ((e.path ≡ path) × (e.digest ≡ digest))
    → Listed (es ++ e ∷ []) id path digest
Listed-last [] e id path digest h = inl h
Listed-last (d ∷ es) e id path digest h = inr (Listed-last es e id path digest h)

pub IsSecondClaim-append :
    (es fs : List RepoEntry) (p : ScanProblem) → IsSecondClaim es p → IsSecondClaim (es ++ fs) p
IsSecondClaim-append es fs (identical_copies id first second) (digest, h) =
    (digest, Listed-append es fs id first digest h)
IsSecondClaim-append es fs (two_meanings id first digest second other) (h, d) =
    (Listed-append es fs id first digest h, d)
IsSecondClaim-append es fs (undefined_connection id c) h = absurd h
IsSecondClaim-append es fs (unreadable_file path m) h = absurd h

pub entry_counted :
    (path : String) (es : List RepoEntry) (e : RepoEntry)
    → count path (entry_paths (es ++ e ∷ []))
      ≡ count path (entry_paths es) + count path (e.path ∷ [])
entry_counted path [] e = omega arith
entry_counted path (d ∷ es) e = ground (arith, entry_counted path es e)

pub second_counted :
    (path : String) (ps : List ScanProblem) (p : ScanProblem)
    → count path (second_paths (ps ++ p ∷ []))
      ≡ count path (second_paths ps) + count path (second_paths (p ∷ []))
second_counted path [] p = omega arith
second_counted path (identical_copies id first second ∷ ps) p =
    ground (arith, second_counted path ps p)
second_counted path (two_meanings id first digest second other ∷ ps) p =
    ground (arith, second_counted path ps p)
second_counted path (undefined_connection id c ∷ ps) p = second_counted path ps p
second_counted path (unreadable_file q m ∷ ps) p = second_counted path ps p

pub entry_ids-append :
    (xs ys : List RepoEntry) → entry_ids (xs ++ ys) ≡ entry_ids xs ++ entry_ids ys
entry_ids-append [] ys = refl
entry_ids-append (x ∷ xs) ys = ground (arith, entry_ids-append xs ys)

module _ (defined : String → Bool) (default_connection : String)
    (source : ℕ → String → Reading) where
  pub routed-Kept :
      (e : RepoEntry) (vs : Views) → Kept e (routed defined default_connection source e vs).0
  unfolding routed
  routed-Kept e vs =
      let v = (view_for source e.connection vs).0 in
      let r = record e { database_name = v.database; database_identity = v.database_identity } in
      let h : Kept r (classify_and_gate r v) = classify_and_gate-Kept r v in
      (ground (arith, h.0), (ground (arith, h.1.0), ground (arith, h.1.1)))
