-- ===== src/Repository/Tests/Data.antt =====
-- Small entries and a ledger that the tests share.
use pg_laswell.Base.{true, String, List, [], ◌∷◌}
use pg_laswell.Repository.Types.{RepoEntry, Recorded, View, blank}
use pg_laswell.Repository.Scan.{raised, entry_of}

-- A specification with an id, a digest, its dependencies and what it touches.
abbrev pub entry : String → List String → List String → RepoEntry
entry id deps rels = record (entry_of (record { source = "s"; path = id; outcome = raised "" })) {
  spec_id = id;
  digest = id;
  depends_on = deps;
  epoch = "default";
  relations = record { relations = rels; opaque = [] };
}

abbrev pub create : RepoEntry
create = entry "0001-create" [] ("app.t" ∷ [])

abbrev pub fill : RepoEntry
fill = entry "0002-fill" ("0001-create" ∷ []) ("app.t" ∷ [])

abbrev pub once_run : Recorded
once_run = record { succeeded = "old" ∷ []; running = []; failed = [] }

abbrev pub known : View
known = record blank {
  reachable = true;
  database = "app";
  environment = "staging";
  epochs_live = "default" ∷ [];
  applied = ("default", ("0001-create", once_run) ∷ []) ∷ [];
}

abbrev pub two_levels : List RepoEntry
two_levels = fill ∷ create ∷ []
