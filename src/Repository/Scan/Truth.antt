-- ===== src/Repository/Scan/Truth.antt =====
-- Proofs about cpp/src/repository.h, the loop of `scan`: what its problems say of two files with one id.
use pg_laswell.Base.{
  ℕ, Bool, ◌≡◌, refl, String, Option, none, some, List, [], ◌∷◌, ◌++◌, ◌==◌, All, All_over,
  All-append, Bool-cases, ==_iff, inl, inr, subst,
}
use pg_laswell.Repository.Types.{RepoEntry, lookup}
use pg_laswell.Repository.Views.{Reading}
use pg_laswell.Repository.Scan.{
  Spec, Outcome, parsed, refused, raised, File, FirstSeen, Scan, described, duplicate, routed,
  claim, take_in, scan_file, scan_files,
}
use pg_laswell.Repository.Scan.Listing.{
  Listed, IsSecondClaim, Listed-append, Listed-last, IsSecondClaim-append, routed-Kept,
}

some_inj : {A : Type 0} {x y : A} → some x ≡ some y → x ≡ y
some_inj h = cc

module _ (defined : String → Bool) (default_connection : String)
    (source : ℕ → String → Reading) where
  -- What was claimed is listed, and each problem is true of the listing.
  abbrev Truth : Scan → Type 0
  Truth s =
      ((id : String) (first : FirstSeen)
        → lookup id s.claimed ≡ some first
        → Listed s.entries id first.path first.digest)
      × All (IsSecondClaim s.entries) s.problems

  grown-Truth :
      (e : RepoEntry) (s : Scan) → Truth s → Truth (record s { entries = s.entries ++ e ∷ [] })
  grown-Truth e s (known, true_of) = (
    λ id first h. Listed-append s.entries (e ∷ []) id first.path first.digest (known id first h),
    All_over s.problems (λ p k. IsSecondClaim-append s.entries (e ∷ []) p k) true_of,
  )

  claim-Truth :
      (f : File) (spec : Spec) (o : Option FirstSeen) (s : Scan)
      → lookup spec.id s.claimed ≡ o
      → Truth s
      → Truth (claim defined default_connection source f spec o s)
  unfolding claim duplicate
  claim-Truth f spec (some first) s h (known, true_of) =
      elim (Bool-cases (first.digest == spec.digest)) [
        | inl same ↦ rw same (
          known,
          All-append (IsSecondClaim s.entries) s.problems _ true_of
              ((first.digest, known spec.id first h), tt),
        )
        | inr differ ↦ rw differ (
          known,
          All-append (IsSecondClaim s.entries) s.problems _ true_of
              ((known spec.id first h, differ), tt),
        )
      ]
  claim-Truth f spec none s h (known, true_of) =
      let e =
        (routed defined default_connection source (described default_connection f spec)
          s.views).0 in
      let kept =
        routed-Kept defined default_connection source (described default_connection f spec)
          s.views in
      let grown = grown-Truth e s (known, true_of) in
      let own : Listed (s.entries ++ e ∷ []) spec.id f.path spec.digest =
        Listed-last s.entries e spec.id f.path spec.digest kept in
      (claimed_now (s.entries ++ e ∷ []) own grown.0, grown.1)
    where
      claimed_now :
          (es : List RepoEntry)
          → Listed es spec.id f.path spec.digest
          → ((id : String) (first : FirstSeen)
              → lookup id s.claimed ≡ some first
              → Listed es id first.path first.digest)
          → (id : String) (first : FirstSeen)
          → lookup id ((spec.id, record { path = f.path; digest = spec.digest }) ∷ s.claimed)
            ≡ some first
          → Listed es id first.path first.digest
      claimed_now es own old id first l = elim (Bool-cases (spec.id == id)) [
        | inl q ↦
            let i : spec.id ≡ id = (==_iff spec.id id).0 q in
            let g : record { path = f.path; digest = spec.digest } ≡ first = some_inj (rw q at l) in
            subst (λ (k : FirstSeen). Listed es id k.path k.digest) g
              (subst (λ (k : String). Listed es k f.path spec.digest) i own)
        | inr q ↦ old id first (rw q at l)
      ]

  take_in-Truth :
      (f : File) (o : Outcome) (s : Scan)
      → Truth s
      → Truth (take_in defined default_connection source f o s)
  unfolding take_in
  take_in-Truth f (parsed spec) s h = claim-Truth f spec (lookup spec.id s.claimed) s refl h
  take_in-Truth f (refused what advice) s h = grown-Truth _ s h
  take_in-Truth f (raised what) s h = grown-Truth _ s h

  pub scan_files-Truth :
      (fs : List File) (s : Scan)
      → Truth s
      → Truth (scan_files defined default_connection source fs s)
  unfolding scan_files scan_file
  scan_files-Truth [] s h = h
  scan_files-Truth (f ∷ fs) s h =
      scan_files-Truth fs (scan_file defined default_connection source f s)
        (take_in-Truth f f.outcome s h)
