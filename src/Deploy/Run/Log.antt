-- ===== src/Deploy/Run/Log.antt =====
-- Proofs about cpp/src/deploy.h, `run`: what the log has to say before a migration starts.
use pg_laswell.Base.{
  ◌<◌, Bool, true, false, ◌&&◌, ◌||◌, ◌≡◌, ◌⊎◌, inl, inr, refl, String, some, List, [], ◌∷◌, ◌==◌,
  contains, arith,
}
use pg_laswell.Repository.Status.{RepoStatus}
use pg_laswell.Repository.Types.{RepoEntry}
use pg_laswell.Repository.Order.{find, depends_of}
use pg_laswell.Deploy.Group.{Entry, started, planned, reported, World}
use pg_laswell.Deploy.Group.Outcome.{start_count, plan_count, end_count, AllSucceeded, Sound}

-- The log reports the id as succeeded.
abbrev pub has_succeeded : String → List Entry → Bool
has_succeeded x [] = false
has_succeeded x (started a ∷ l) = has_succeeded x l
has_succeeded x (planned a ∷ l) = has_succeeded x l
has_succeeded x (reported a s ∷ l) = a == x && s == "succeeded" || has_succeeded x l

-- Each dependency that the repository holds is applied, or is reported as succeeded.
abbrev pub DepsMet : List RepoEntry → String → List Entry → Type 0
DepsMet es id l =
    (d : String)
    → contains (depends_of es id) d ≡ true
    → (e : RepoEntry) → find es d ≡ some e
    → (e.status ≡ RepoStatus.applied) ⊎ (has_succeeded d l ≡ true)

has_succeeded_later :
    (x : String) (e : Entry) (l : List Entry)
    → has_succeeded x l ≡ true
    → has_succeeded x (e ∷ l) ≡ true
has_succeeded_later x (started a) l h = h
has_succeeded_later x (planned a) l h = h
has_succeeded_later x (reported a s) l h = ground arith

pub DepsMet_later :
    (es : List RepoEntry) (id : String) (e : Entry) (l : List Entry)
    → DepsMet es id l
    → DepsMet es id (e ∷ l)
DepsMet_later es id e l h d k x f = elim (h d k x f) [
  | inl done ↦ inl done
  | inr succ ↦ inr (has_succeeded_later d e l succ)
]

-- Where every end is a success, an id that has ended has succeeded.
pub succeeded_of_end :
    (x : String) (l : List Entry) → AllSucceeded l → 0 < end_count x l → has_succeeded x l ≡ true
succeeded_of_end x [] h k = absurd (omega arith)
succeeded_of_end x (started a ∷ l) h k = succeeded_of_end x l h k
succeeded_of_end x (planned a ∷ l) h k = succeeded_of_end x l h k
succeeded_of_end x (reported a s ∷ l) h k = ground (arith, h.0, succeeded_of_end x l h.1)

-- Outside a dry run nothing is only planned; in one nothing starts.
module _ (w : World) (dry_run : Bool) (Ok : String → List Entry → Type 0) where
  pub plan_count-wet :
      (x : String) (l : List Entry) → Sound w dry_run Ok l → dry_run ≡ false → plan_count x l ≡ 0
  plan_count-wet x [] h wet = refl
  plan_count-wet x (started a ∷ l) h wet = plan_count-wet x l h.1 wet
  plan_count-wet x (planned a ∷ l) h wet = absurd (ground (arith, h.0))
  plan_count-wet x (reported a s ∷ l) h wet = plan_count-wet x l h wet

  pub start_count-dry :
      (x : String) (l : List Entry) → Sound w dry_run Ok l → dry_run ≡ true → start_count x l ≡ 0
  start_count-dry x [] h dry = refl
  start_count-dry x (started a ∷ l) h dry = absurd (ground (arith, h.0.0))
  start_count-dry x (planned a ∷ l) h dry = start_count-dry x l h.1 dry
  start_count-dry x (reported a s ∷ l) h dry = start_count-dry x l h dry
