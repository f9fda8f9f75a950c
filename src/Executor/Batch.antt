-- ===== src/Executor/Batch.antt =====
-- cpp/src/executor.h: `BatchOutcome` and `run_paced_batch`. A key is its rank in the order of its
-- column, 0 being "not started". What the two statements of a batch do to a table is PostgreSQL's:
-- a `Table` gives it, and `Lawful` says what ORDER BY, LIMIT and the predicate promise.
pub mod Advance
use pg_laswell.Base.{
  ℕ, zero, suc, ◌+◌, ◌≤◌, ◌<◌, Bool, true, false, ◌≡◌, List, [], ◌∷◌, ◌++◌, leb, nat_eq, length,
  if◌then◌else◌,
}

-- `pending` are the keys that the predicate still selects; `size` is the length of a key's text.
-- `select` answers the first statement after a cursor, at most so many; `apply` is the second one
-- on those keys, `returned` how many rows it returns. `mutate` is the one statement that does both.
pub record Table (Db : Type 0) : Type 0 where
  pub pending : Db → ℕ → Bool
  pub size : ℕ → ℕ
  pub select : Db → ℕ → ℕ → List ℕ
  pub apply : Db → List ℕ → Db
  pub returned : Db → List ℕ → ℕ
  pub mutate : Db → ℕ → ℕ → Db × List ℕ

pub record BatchOutcome : Type 0 where
  pub skipped_only : Bool
  pub considered : ℕ
  pub cursor : ℕ
  pub commit_first : Bool

-- The keys behind the first that fit the budget.
unfoldable pub fitting : (ℕ → ℕ) → ℕ → ℕ → List ℕ → List ℕ
fitting size budget bytes [] = []
fitting size budget bytes (k ∷ ks) =
    let rest = fitting size budget (bytes + size k) ks in
    if leb (bytes + size k) budget then k ∷ rest else []

-- Never zero keys of a selection that has one.
unfoldable pub batch_keys : (ℕ → ℕ) → ℕ → List ℕ → List ℕ
batch_keys size budget [] = []
batch_keys size budget (k ∷ ks) = k ∷ fitting size budget (size k) ks

-- `keys.back()`, or the cursor as it was.
unfoldable pub last_key : ℕ → List ℕ → ℕ
last_key c [] = c
last_key c (k ∷ ks) = last_key k ks

abbrev pub outcome_of : ℕ → ℕ → BatchOutcome
outcome_of considered cursor = record {
  skipped_only = false;
  considered = considered;
  cursor = cursor;
  commit_first = false;
}

module _ {Db : Type 0} (t : Table Db) where
  -- `apply_sql` is empty.
  unfoldable pub one_statement_batch : Db → ℕ → ℕ → Db × BatchOutcome
  one_statement_batch d cursor batch =
      let (d', rows) = t.mutate d cursor batch in
      (d', outcome_of (length rows) (last_key cursor rows))

  unfoldable pub applied_batch : Db → ℕ → List ℕ → Db × BatchOutcome
  applied_batch d cursor [] = (d, outcome_of 0 cursor)
  applied_batch d cursor (k ∷ ks) =
      let n = t.returned d (k ∷ ks) in
      (
        t.apply d (k ∷ ks),
        outcome_of (if nat_eq n 0 then length (k ∷ ks) else n) (last_key cursor (k ∷ ks)),
      )

  -- `two` says that there is a statement to apply.
  unfoldable pub run_paced_batch : Bool → ℕ → Db → ℕ → ℕ → Db × BatchOutcome
  unfolding one_statement_batch applied_batch
  run_paced_batch two batch_bytes d cursor batch =
      if two
      then applied_batch d cursor (batch_keys t.size batch_bytes (t.select d cursor batch))
      else one_statement_batch d cursor batch
