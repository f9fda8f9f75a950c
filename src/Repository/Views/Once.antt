-- ===== src/Repository/Views/Once.antt =====
-- Proofs about cpp/src/repository.h, `view_for`.
use pg_laswell.Base.{ℕ, true, ◌≡◌, ◌↔◌, String, some, List, [], ◌∷◌, refl, arith, ==_refl, eq_iff}
use pg_laswell.Repository.Status.{is_runnable}
use pg_laswell.Repository.Types.{RepoEntry, View, lookup, recorded}
use pg_laswell.Repository.Views.{
  Views, Reading, LedgerStatus, status_raised, index_raised, view_of, view_for,
}
use pg_laswell.Repository.Classify.{classify_and_gate, is_empty}
use pg_laswell.Repository.Classify.Gates.{Open, classify_and_gate-runnable}

-- What `view_for` answers is from then on what the listing knows of that connection.
view_for_known :
    (source : ℕ → String → Reading) (c : String) (vs : Views)
    → lookup c (view_for source c vs).1.known ≡ some (view_for source c vs).0
unfolding view_for
view_for_known source c vs = ground (arith, ==_refl c)

-- A reading of one connection never changes what is known of another.
view_for_keeps :
    (source : ℕ → String → Reading) (c d : String) (vs : Views) (v : View)
    → lookup c vs.known ≡ some v
    → lookup c (view_for source d vs).1.known ≡ some v
unfolding view_for
view_for_keeps source c d vs v h = ground (arith, eq_iff d c)

view_for_again :
    (source : ℕ → String → Reading) (c : String) (vs : Views) (v : View)
    → lookup c vs.known ≡ some v
    → view_for source c vs ≡ (v, vs)
unfolding view_for
view_for_again source c vs v h = rw (h, view_for) refl

abbrev pub ask_all : (ℕ → String → Reading) → List String → Views → Views
ask_all source [] vs = vs
ask_all source (c ∷ cs) vs = ask_all source cs (view_for source c vs).1

ask_all_keeps :
    (source : ℕ → String → Reading) (c : String) (cs : List String) (vs : Views) (v : View)
    → lookup c vs.known ≡ some v
    → lookup c (ask_all source cs vs).known ≡ some v
ask_all_keeps source c [] vs v h = h
ask_all_keeps source c (d ∷ cs) vs v h =
    ask_all_keeps source c cs (view_for source d vs).1 v (view_for_keeps source c d vs v h)

-- Whatever connections a listing asks for in between, it answers for one connection with one
-- reading: asked again, `view_for` gives the view that it gave first and reads nothing.
pub view_for_once :
    (source : ℕ → String → Reading) (c : String) (between : List String) (vs : Views)
    → let (v, vs') = view_for source c vs in
      let later = ask_all source between vs' in view_for source c later ≡ (v, later)
view_for_once source c between vs =
    let (v, vs') = view_for source c vs in
    view_for_again source c (ask_all source between vs') v
      (ask_all_keeps source c between vs' v (view_for_known source c vs))

-- A database that could not be asked at all holds exactly the specifications that name an
-- environment or a release. One that names only a database or an unopened epoch would run.
pub unreachable_holds :
    (e : RepoEntry) (what : String)
    → (is_runnable (classify_and_gate e (view_of (status_raised what))).status ≡ true)
      ↔ ((is_empty e.environment ≡ true) × (is_empty e.release ≡ true))
unfolding view_of recorded
unreachable_holds e what =
    ground (arith, classify_and_gate-runnable e (view_of (status_raised what)))

-- Where the status of a database was read and the record of what was applied was not, a
-- specification whose gates are open would run, whatever the ledger holds of it.
pub unread_ledger_runs :
    (e : RepoEntry) (st : LedgerStatus) (what : String)
    → Open e (view_of (index_raised st what))
    → is_runnable (classify_and_gate e (view_of (index_raised st what))).status ≡ true
unfolding view_of recorded
unread_ledger_runs e st what h =
    (classify_and_gate-runnable e (view_of (index_raised st what))).1 (tt, h)
