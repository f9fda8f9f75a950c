-- ===== src/Lib.antt =====
-- pg_laswell turns a migration specification, a JSON document, into a plan for one PostgreSQL
-- database and runs it. The modules below model the logic of cpp/src that decides what runs, in
-- which order, at which pace, and what a signature covers.
--
-- How the parts interact. A specification is read and checked (cpp/src/spec.h): `parse_spec`
-- refuses a document with a key that it does not know, looks the kind of each intent up and has
-- that kind's parser check the intent's body; `conflict_keys` names the objects that the intent
-- touches, which is what `MigrationRepository` compares where it groups a level. The document
-- without its signatures is reduced to canonical bytes (cpp/src/canonical.h), whose SHA-256 digest
-- is what the ledger stores and a signature covers. `MigrationRepository` (cpp/src/repository.h)
-- scans directories of specifications, reads the ledger of each database that they name
-- (`view_for`), classifies each against it (`classify`), holds it at the gates of that database
-- (`gate`), compares the ledgers with what is on disk, orders those that would run (`assemble`)
-- and says which of one level may run together (`parallel_subsets`). Whether a specification may
-- run is up to its signatures, which are checked against the local policy (cpp/src/trust.h) and
-- again against the keys that the database holds (cpp/src/ledger.h). A deployment
-- (cpp/src/deploy.h) takes the order and starts the jobs of one group of a level after the other,
-- up to a number at once, and stops at the first group that does not succeed. The jobs run on
-- their own: what the deployment sees of them is their status, which it polls. A job of the
-- executor (cpp/src/executor.h) changes a large table in batches along its key and commits a few
-- of them at a time; the observer (cpp/src/jobs.h) watches who waits behind the job and slows,
-- pauses or cancels it through flags that the job reads between its batches; and a gate
-- (cpp/src/jobs.h) bounds the operations of all jobs that run at once.
--
-- The files.
--   Base           the shared types and lemmas: Lists, Counting, Int (integers), Result (exceptions)
--   Canonical      cpp/src/canonical.h: Utf8 (`utf8_next`, `utf16_units`), Strings (`escape_into`),
--                  Numbers (the integers of `canonicalize_into`), Document (`canonicalize`)
--   Deploy         cpp/src/deploy.h: Group (`run_group`), Chain (`run_chain`, the rehearsal), Run (`run`
--                  over the levels and groups of an order)
--   Executor       cpp/src/executor.h: Batch (`run_paced_batch`), Walk (the loop of `run_backfill`)
--   Jobs           cpp/src/jobs.h: Gate (`OperationGate`, and `operation_slot` of
--                  cpp/src/executor.h), Pacing (`Observer::tick`, `apply`, `request_cancel`)
--   Repository     cpp/src/repository.h: Status (`RepoStatus`), Types (`RepoEntry`, `View`, the
--                  index that `applied_index` returns), Classify (`classify`, `gate`), Views
--                  (`view_for`), Scan (the loop of `scan` over the files), Drift (its comparison
--                  with the ledgers), Order (the ordering loop of `assemble`), Assemble (the whole
--                  of it), Parallel (`parallel_subsets`)
--   Spec           cpp/src/spec.h: Checks (`SpecError`, `require_identifier` and the other checks of
--                  `detail`), Kinds (`IntentKind`, the table of names), Parse (a parser for each kind:
--                  Tables, Columns, Constraints, Objects, Routines, Access, Source and Rows for the
--                  kinds that write rows, NewTable), Document (`parse_spec`; Dispatch is its switch over
--                  the kinds), Keys (`object_key_for`, `conflict_keys`)
--   Trust          Base64 (`Registry::base64_encode` and `base64_decode` of cpp/src/config.h), Entries
--                  and Gates (cpp/src/trust.h, with `Ledger::verify_signer` of cpp/src/ledger.h)
-- The modules below a component hold its theorems, and its Tests small runs of the definitions and
-- every theorem at a concrete input.
--
-- How the code is written down. A function that changes an object takes the object and returns the
-- new one. `std::map` and `std::set` are lists, of which `contains` and the lookups read what the
-- code reads. Messages are their kind and their variable parts. A string of `canonical.h` is the
-- list of its bytes, elsewhere it is a String. An exception is an `err`. The flags, clocks and
-- answers that a loop reads come as a list of readings, one for each turn; threads are interleaved
-- as a list of events, each of which is what one of them does under the mutex.
--
-- Fuel. The loop of `assemble` takes one unit for each specification that would run, and
-- `parallel_subsets` one for each of its level; each round takes at least one away. The loops over
-- a string take one unit for each byte. Where fuel could run out a result is an Option or a
-- failure of its own, and a theorem says that it does not. Twenty digits hold every 64-bit
-- integer. The walk of the executor takes no fuel: it runs on the readings that it is given. Nor
-- does a deployment: a group takes a list of turns, what its polls of the jobs answer, and is cut
-- off where that list ends; the theorems hold for every list. The parsers of specifications are
-- recursive on the document.
--
-- What is not modelled. PostgreSQL, libpqxx, nlohmann's JSON parser and OpenSSL are not under src:
-- what a query answers is an argument, SHA-256 and the check of a signature are those of a
-- `Crypto`, and what the walk relies on (a selection in key order with a limit, a mutation that
-- ends what it selects) is a record of laws, `Lawful`. Reading directories and manifests, and
-- printing JSON, are left out. So are the planner, the groups of steps of a plan, the transport
-- and the modules for extensions: how a module's kinds are parsed and keyed is an argument of
-- `parse_spec` and `conflict_keys`, as is the hash. Of a refusal of a specification the place and
-- what is refused are kept, not the hint.
pub mod Base
pub mod Canonical
pub mod Deploy
pub mod Executor
pub mod Jobs
pub mod Repository
pub mod Spec
pub mod Trust
