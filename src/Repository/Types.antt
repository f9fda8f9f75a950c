-- ===== src/Repository/Types.antt =====
-- cpp/src/repository.h: `RelationSet`, `RepoEntry`, `View`, and the text helpers. A set of texts
-- is a list in the set's order. A message is its variable parts: one constructor for each text
-- that the code composes; a hint is named by the advice that it gives.
use pg_laswell.Base.{
  Bool, false, String, Option, none, some, List, [], ◌∷◌, is_nil, ◌==◌, if◌then◌else◌,
}
use pg_laswell.Repository.Status.{RepoStatus}

-- What a migration touches, and why the list may be incomplete.
pub record RelationSet : Type 0 where
  pub relations : List String
  pub opaque : List String

unfoldable pub complete : RelationSet → Bool
complete r = is_nil r.opaque

pub data Message : Type 0 where
  no_message : Message
  -- the id, the digest that was applied, the digest of the file
  edited_since : String → String → String → Message
  targets_database targets_environment : String → String → String → Message
  not_labelled : String → String → Message
  in_retired_epoch in_unopened_epoch release_not_ready : String → String → Message
  -- the id and the connection that the configuration lacks
  connection_undefined : String → String → Message
  does_not_parse : String → Message

pub data Hint : Type 0 where
  no_hint write_new_spec rerun_resumes names_another_database label_database : Hint
  for_another_database : Hint
  -- the epoch, the release tag and the connection that the advice quotes
  revive_epoch open_epoch approve_release add_connection : String → Hint
  -- what the parser advises
  as_parser_says : String → Hint

pub record RepoEntry : Type 0 where
  pub path : String
  pub source : String
  pub spec_id : String
  pub digest : String
  pub status : RepoStatus
  pub depends_on : List String
  pub relations : RelationSet
  pub error : Message
  pub hint : Hint
  pub applied_digest : String
  pub connection : String
  pub database_name : String
  pub database_identity : String
  pub database : String
  pub environment : String
  pub release : String
  pub epoch : String

-- One id of the ledger: the digests whose jobs succeeded, run, and failed.
pub record Recorded : Type 0 where
  pub succeeded : List String
  pub running : List String
  pub failed : List String

-- epoch -> spec_id -> what the ledger records.
abbrev pub Index : Type 0
Index = List (String × List (String × Recorded))

module _ {ℓ} {V : Type ℓ} where
  -- A JSON object's member, or a map's value.
  abbrev pub lookup : String → List (String × V) → Option V
  lookup k [] = none
  lookup k ((j, v) ∷ m) = if j == k then some v else lookup k m

-- `applied.contains(epoch) && applied[epoch].contains(spec_id)`, and that entry.
unfoldable pub recorded : Index → String → String → Option Recorded
recorded index epoch id = elim (lookup epoch index) [ none ↦ none | some ids ↦ lookup id ids ]

-- What one database says about itself, read once per listing. `error` is why it could not be.
pub record View : Type 0 where
  pub reachable : Bool
  pub error : String
  pub database : String
  pub database_identity : String
  pub environment : String
  pub releases_ready : List String
  pub epochs_live : List String
  pub epochs_retired : List String
  pub applied : Index

-- A view of which nothing was read.
abbrev pub blank : View
blank = record {
  reachable = false;
  error = "";
  database = "";
  database_identity = "";
  environment = "";
  releases_ready = [];
  epochs_live = [];
  epochs_retired = [];
  applied = [];
}
