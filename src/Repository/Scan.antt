-- ===== src/Repository/Scan.antt =====
-- cpp/src/repository.h: the loop of `scan` over the files, and the problems that it reports. What
-- reading and parsing a file gave is its outcome; the readings of the databases are the oracle of
-- `Views`, and `defined` says which connections the configuration has.
pub mod Listing
pub mod Truth
pub mod Claims
use pg_laswell.Base.{
  ℕ, Bool, true, false, not, String, Option, none, some, List, [], ◌∷◌, ◌++◌, ◌==◌, if◌then◌else◌,
}
use pg_laswell.Repository.Status.{RepoStatus, is_unreadable}
use pg_laswell.Repository.Types.{RepoEntry, RelationSet, View, Message, Hint, lookup}
use pg_laswell.Repository.Views.{Views, Reading, view_for}
use pg_laswell.Repository.Classify.{classify_and_gate}

-- The fields of a parsed `Spec` (cpp/src/spec.h) that a listing reads.
pub record Spec : Type 0 where
  pub id : String
  pub digest : String
  pub depends_on : List String
  pub target_database : String
  pub target_environment : String
  pub target_epoch : String
  pub target_connection : String
  pub release : String

-- The file parsed; `parse_spec` refused it, with a hint; or reading it raised.
pub data Outcome : Type 0 where
  parsed : Spec → Outcome
  refused : String → String → Outcome
  raised : String → Outcome

pub record File : Type 0 where
  pub source : String
  pub path : String
  pub outcome : Outcome

pub record FirstSeen : Type 0 where
  pub path : String
  pub digest : String

pub data ScanProblem : Type 0 where
  -- the id, the file that claimed it first, and the second file
  identical_copies : String → String → String → ScanProblem
  -- the same, with both digests
  two_meanings : String → String → String → String → String → ScanProblem
  undefined_connection : String → String → ScanProblem
  unreadable_file : String → Message → ScanProblem

pub record Scan : Type 0 where
  pub entries : List RepoEntry
  pub problems : List ScanProblem
  pub claimed : List (String × FirstSeen)
  pub views : Views

-- A new entry: nothing is known but the file.
abbrev pub entry_of : File → RepoEntry
entry_of f = record {
  path = f.path;
  source = f.source;
  spec_id = "";
  digest = "";
  status = RepoStatus.pending;
  depends_on = [];
  relations = record { relations = []; opaque = [] };
  error = Message.no_message;
  hint = Hint.no_hint;
  applied_digest = "";
  connection = "";
  database_name = "";
  database_identity = "";
  database = "";
  environment = "";
  release = "";
  epoch = "";
}

abbrev pub or_else : String → String → String
or_else s default = if s == "" then default else s

-- What the specification says of itself, copied into its entry.
abbrev pub described : String → File → Spec → RepoEntry
described default_connection f spec = record (entry_of f) {
  spec_id = spec.id;
  digest = spec.digest;
  depends_on = spec.depends_on;
  database = spec.target_database;
  environment = spec.target_environment;
  release = spec.release;
  epoch = or_else spec.target_epoch "default";
  connection = or_else spec.target_connection default_connection;
}

module _ (defined : String → Bool) (default_connection : String)
    (source : ℕ → String → Reading) where
  duplicate : File → Spec → FirstSeen → ScanProblem
  duplicate f spec first =
      if first.digest == spec.digest
      then identical_copies spec.id first.path f.path
      else two_meanings spec.id first.path first.digest f.path spec.digest

  -- The entry of a file whose id nothing claimed before, and the views after it.
  pub routed : RepoEntry → Views → RepoEntry × Views
  routed e vs =
      if not (defined e.connection)
      then (
        record e {
          status = RepoStatus.unknown_connection;
          error = Message.connection_undefined e.spec_id e.connection;
          hint = Hint.add_connection e.connection;
        },
        vs,
      )
      else (let (v, vs') = view_for source e.connection vs in
          (
            classify_and_gate
                (record e { database_name = v.database; database_identity = v.database_identity })
                v,
            vs',
          ))

  -- A parsed file: its id was claimed by an earlier file, or this one claims it.
  claim : File → Spec → Option FirstSeen → Scan → Scan
  unfolding duplicate
  claim f spec (some first) s = record s { problems = s.problems ++ duplicate f spec first ∷ [] }
  claim f spec none s =
      let r = routed (described default_connection f spec) s.views in
      record s {
        entries = s.entries ++ r.0 ∷ [];
        claimed = (spec.id, record { path = f.path; digest = spec.digest }) ∷ s.claimed;
        views = r.1;
      }

  take_in : File → Outcome → Scan → Scan
  unfolding claim
  take_in f (parsed spec) s = claim f spec (lookup spec.id s.claimed) s
  take_in f (refused what advice) s = record s {
    entries =
        s.entries
        ++ record (entry_of f) {
          status = RepoStatus.unreadable;
          error = Message.does_not_parse what;
          hint = Hint.as_parser_says advice;
        }
          ∷ [];
  }
  take_in f (raised what) s = record s {
    entries =
        s.entries
        ++ record (entry_of f) {
          status = RepoStatus.unreadable;
          error = Message.does_not_parse what;
        }
          ∷ [];
  }

  -- One round of the loop over the files.
  unfoldable pub scan_file : File → Scan → Scan
  unfolding take_in routed
  scan_file f s = take_in f f.outcome s

  unfoldable pub scan_files : List File → Scan → Scan
  unfolding scan_file
  scan_files [] s = s
  scan_files (f ∷ fs) s = scan_files fs (scan_file f s)

-- What one entry says of the repository itself.
fault : RepoEntry → RepoStatus → List ScanProblem
fault e RepoStatus.unknown_connection = undefined_connection e.spec_id e.connection ∷ []
fault e RepoStatus.unreadable = unreadable_file e.path e.error ∷ []
fault e _ = []

-- The loop over the entries after it.
unfoldable pub faults : List RepoEntry → List ScanProblem
unfolding fault
faults [] = []
faults (e ∷ es) = fault e e.status ++ faults es

abbrev pub empty_scan : Scan
empty_scan = record {
  entries = [];
  problems = [];
  claimed = [];
  views = record { known = []; readings = 0 };
}
