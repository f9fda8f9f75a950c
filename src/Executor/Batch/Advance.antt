-- ===== src/Executor/Batch/Advance.antt =====
-- Proofs about cpp/src/executor.h, `run_paced_batch`, and the laws that it and the walk rely on.
use pg_laswell.Base.{
  ℕ, ◌+◌, ◌≤◌, ◌<◌, Bool, true, false, not, ◌&&◌, ◌||◌, ◌≡◌, ◌⊎◌, inl, inr, refl, List, [], ◌∷◌,
  leb, nat_eq, arith, Bool-cases,
}
use pg_laswell.Executor.Batch.{
  Table, BatchOutcome, fitting, batch_keys, last_key, applied_batch, run_paced_batch,
}

abbrev pub holds : List ℕ → ℕ → Bool
holds [] k = false
holds (x ∷ xs) k = nat_eq x k || holds xs k

-- Keys in rising order, all above the first argument.
abbrev pub Rising : ℕ → List ℕ → Type 0
Rising c [] = Unit
Rising c (k ∷ ks) = (c < k) × Rising k ks

-- What a selection in key order with a limit, and a mutation that ends what it selects, promise.
pub record Lawful {Db : Type 0} (t : Table Db) : Type 0 where
  pub ordered : (d : Db) (c n : ℕ) → Rising c (t.select d c n)
  pub complete :
      (d : Db) (c n k : ℕ)
      → t.pending d k ≡ true
      → c < k
      → (holds (t.select d c n) k ≡ true) ⊎ (last_key c (t.select d c n) < k)
  pub exhausted : (d : Db) (c n k : ℕ) → 0 < n → t.select d c n ≡ [] → t.pending d k ≡ true → k ≤ c
  pub applied :
      (d : Db) (ks : List ℕ) (k : ℕ)
      → t.pending (t.apply d ks) k ≡ (t.pending d k && not (holds ks k))

-- What the walk relies on.
pub record Advances {Db : Type 0} (pending : Db → ℕ → Bool)
    (run_batch : Db → ℕ → ℕ → Bool → Db × BatchOutcome) : Type 0 where
  pub forward : (d : Db) (c n : ℕ) (h : Bool) → c ≤ (run_batch d c n h).1.cursor
  pub behind :
      (d : Db) (c n : ℕ) (h : Bool) (k : ℕ)
      → pending d k ≡ true
      → k ≤ c
      → pending (run_batch d c n h).0 k ≡ true
  pub covered :
      (d : Db) (c n : ℕ) (h : Bool) (k : ℕ)
      → pending (run_batch d c n h).0 k ≡ true
      → (pending d k ≡ true) × ((k ≤ c) ⊎ ((run_batch d c n h).1.cursor < k))
  pub final :
      (d : Db) (c n : ℕ) (h : Bool) (k : ℕ)
      → 0 < n
      → (run_batch d c n h).1.considered ≡ 0
      → (run_batch d c n h).1.skipped_only ≡ false
      → (run_batch d c n h).1.commit_first ≡ false
      → pending (run_batch d c n h).0 k ≡ true
      → k ≤ (run_batch d c n h).1.cursor

Rising-last_key : (c : ℕ) (ks : List ℕ) → Rising c ks → c ≤ last_key c ks
unfolding last_key
Rising-last_key c [] h = omega arith
Rising-last_key c (k ∷ ks) h = omega (arith, h.0, Rising-last_key k ks h.1)

holds-above : (c : ℕ) (ks : List ℕ) (k : ℕ) → Rising c ks → holds ks k ≡ true → c < k
holds-above c [] k r h = absurd (ground arith)
holds-above c (x ∷ ks) k r h = elim (Bool-cases (holds ks k)) [
  | inl m ↦ omega (arith, r.0, holds-above x ks k r.1 m)
  | inr m ↦ ground (arith, r.0)
]

fitting-Rising :
    (size : ℕ → ℕ) (budget bytes c : ℕ) (ks : List ℕ)
    → Rising c ks
    → Rising c (fitting size budget bytes ks)
unfolding fitting
fitting-Rising size budget bytes c [] h = tt
fitting-Rising size budget bytes c (k ∷ ks) h = elim (Bool-cases (leb (bytes + size k) budget)) [
  | inl e ↦ rw e (h.0, fitting-Rising size budget (bytes + size k) k ks h.1)
  | inr e ↦ rw e tt
]

fitting-last_key :
    (size : ℕ → ℕ) (budget bytes c : ℕ) (ks : List ℕ)
    → Rising c ks
    → last_key c (fitting size budget bytes ks) ≤ last_key c ks
unfolding fitting last_key
fitting-last_key size budget bytes c [] h = omega arith
fitting-last_key size budget bytes c (k ∷ ks) h = elim (Bool-cases (leb (bytes + size k) budget)) [
  | inl e ↦ rw e (fitting-last_key size budget (bytes + size k) k ks h.1)
  | inr e ↦ rw e (omega (arith, h.0, Rising-last_key k ks h.1))
]

fitting_cut :
    (size : ℕ → ℕ) (budget bytes c : ℕ) (ks : List ℕ) (k : ℕ)
    → Rising c ks
    → holds ks k ≡ true
    → (holds (fitting size budget bytes ks) k ≡ true)
      ⊎ (last_key c (fitting size budget bytes ks) < k)
unfolding fitting last_key
fitting_cut size budget bytes c [] k h m = absurd (ground arith)
fitting_cut size budget bytes c (x ∷ ks) k h m = elim (Bool-cases (leb (bytes + size x) budget)) [
  | inr e ↦ rw e (inr (holds-above c (x ∷ ks) k h m))
  | inl e ↦ rw e (elim (Bool-cases (nat_eq x k)) [
    | inl same ↦ inl (ground arith)
    | inr other ↦ elim (fitting_cut size budget (bytes + size x) x ks k h.1 (ground arith)) [
      | inl there ↦ inl (ground arith)
      | inr beyond ↦ inr beyond
    ]
  ])
]

batch_keys-Rising :
    (size : ℕ → ℕ) (budget c : ℕ) (ks : List ℕ) → Rising c ks → Rising c (batch_keys size budget ks)
unfolding batch_keys
batch_keys-Rising size budget c [] h = tt
batch_keys-Rising size budget c (k ∷ ks) h = (h.0, fitting-Rising size budget (size k) k ks h.1)

batch_keys_cut :
    (size : ℕ → ℕ) (budget c : ℕ) (ks : List ℕ) (k : ℕ)
    → Rising c ks
    → (holds ks k ≡ true) ⊎ (last_key c ks < k)
    → (holds (batch_keys size budget ks) k ≡ true) ⊎ (last_key c (batch_keys size budget ks) < k)
unfolding batch_keys last_key
batch_keys_cut size budget c [] k h m = m
batch_keys_cut size budget c (x ∷ ks) k h (inr m) =
    inr (omega (arith, m, fitting-last_key size budget (size x) x ks h.1))
batch_keys_cut size budget c (x ∷ ks) k h (inl m) = elim (Bool-cases (nat_eq x k)) [
  | inl same ↦ inl (ground arith)
  | inr other ↦ elim (fitting_cut size budget (size x) x ks k h.1 (ground arith)) [
    | inl there ↦ inl (ground arith)
    | inr beyond ↦ inr beyond
  ]
]

module _ {Db : Type 0} (t : Table Db) (law : Lawful t) where
  -- The keys of a batch cut the pending keys above the cursor in two.
  abbrev Cut : Db → ℕ → List ℕ → Type 0
  Cut d c ks =
      Rising c ks
      × ((k : ℕ) → t.pending d k ≡ true → c < k → (holds ks k ≡ true) ⊎ (last_key c ks < k))

  applied_batch_covered :
      (d : Db) (c : ℕ) (ks : List ℕ) (k : ℕ)
      → Cut d c ks
      → t.pending (applied_batch t d c ks).0 k ≡ true
      → (t.pending d k ≡ true) × ((k ≤ c) ⊎ ((applied_batch t d c ks).1.cursor < k))
  unfolding applied_batch
  applied_batch_covered d c [] k cut h =
      (h, elim (Bool-cases (leb k c)) [ inl e ↦ inl (ground arith) | inr e ↦ inr (ground arith) ])
  applied_batch_covered d c (x ∷ ks) k cut h =
      let was : t.pending d k ≡ true = ground (arith, law.applied d (x ∷ ks) k) in
      let gone : holds (x ∷ ks) k ≡ false = ground (arith, law.applied d (x ∷ ks) k) in
      (
        was,
        elim (Bool-cases (leb k c)) [
          | inl e ↦ inl (ground arith)
          | inr e ↦ elim (cut.1 k was (ground arith)) [
            | inl there ↦ absurd (ground arith)
            | inr beyond ↦ inr beyond
          ]
        ],
      )

  applied_batch_behind :
      (d : Db) (c : ℕ) (ks : List ℕ) (k : ℕ)
      → Rising c ks
      → t.pending d k ≡ true
      → k ≤ c
      → t.pending (applied_batch t d c ks).0 k ≡ true
  unfolding applied_batch
  applied_batch_behind d c [] k r p h = p
  applied_batch_behind d c (x ∷ ks) k r p h = elim (Bool-cases (holds (x ∷ ks) k)) [
    | inl m ↦ absurd (omega (arith, holds-above c (x ∷ ks) k r m))
    | inr m ↦ ground (arith, law.applied d (x ∷ ks) k)
  ]

  applied_batch_forward :
      (d : Db) (c : ℕ) (ks : List ℕ) → Rising c ks → c ≤ (applied_batch t d c ks).1.cursor
  unfolding applied_batch
  applied_batch_forward d c [] r = omega arith
  applied_batch_forward d c (x ∷ ks) r = Rising-last_key c (x ∷ ks) r

  applied_batch_nothing :
      (d : Db) (c : ℕ) (ks : List ℕ) → (applied_batch t d c ks).1.considered ≡ 0 → ks ≡ []
  unfolding applied_batch
  applied_batch_nothing d c [] h = refl
  applied_batch_nothing d c (x ∷ ks) h = absurd (ground arith)

  selected-Cut :
      (budget : ℕ) (d : Db) (c n : ℕ) → Cut d c (batch_keys t.size budget (t.select d c n))
  selected-Cut budget d c n = (
    batch_keys-Rising t.size budget c (t.select d c n) (law.ordered d c n),
    λ k p h.
        batch_keys_cut t.size budget c (t.select d c n) k (law.ordered d c n)
          (law.complete d c n k p h),
  )

  batch_keys-nil : (budget : ℕ) (ks : List ℕ) → batch_keys t.size budget ks ≡ [] → ks ≡ []
  unfolding batch_keys
  batch_keys-nil budget [] h = refl
  batch_keys-nil budget (k ∷ ks) h = absurd (cc)

  applied_batch_final :
      (budget : ℕ) (d : Db) (c n k : ℕ)
      → 0 < n
      → (applied_batch t d c (batch_keys t.size budget (t.select d c n))).1.considered ≡ 0
      → t.pending (applied_batch t d c (batch_keys t.size budget (t.select d c n))).0 k ≡ true
      → k ≤ (applied_batch t d c (batch_keys t.size budget (t.select d c n))).1.cursor
  applied_batch_final budget d c n k some_rows none_left p =
      let ks = batch_keys t.size budget (t.select d c n) in
      let empty : ks ≡ [] = applied_batch_nothing d c ks none_left in
      let dry : t.select d c n ≡ [] = batch_keys-nil budget (t.select d c n) empty in
      let (was, _) = applied_batch_covered d c ks k (selected-Cut budget d c n) p in
      omega (
        arith,
        law.exhausted d c n k some_rows dry was,
        applied_batch_forward d c ks (selected-Cut budget d c n).0,
      )

  -- A batch of two statements on a lawful table, whatever its byte budget: its cursor never moves
  -- back; it leaves the rows at or below the old cursor alone; a row that it leaves to do was to do
  -- before, and is at or below the old cursor or above the new one; and where it considered nothing,
  -- with a positive size, no row above the cursor is left to do.
  pub run_paced_batch-Advances :
      (batch_bytes : ℕ) → Advances t.pending (λ d c n _. run_paced_batch t true batch_bytes d c n)
  unfolding run_paced_batch
  run_paced_batch-Advances batch_bytes = record {
    forward = λ d c n _.
        applied_batch_forward d c (batch_keys t.size batch_bytes (t.select d c n))
          (selected-Cut batch_bytes d c n).0;
    behind = λ d c n _ k p h.
        applied_batch_behind d c (batch_keys t.size batch_bytes (t.select d c n)) k
          (selected-Cut batch_bytes d c n).0 p h;
    covered = λ d c n _ k p.
        applied_batch_covered d c (batch_keys t.size batch_bytes (t.select d c n)) k
          (selected-Cut batch_bytes d c n) p;
    final = λ d c n _ k some_rows none_left skipped first p.
        applied_batch_final batch_bytes d c n k some_rows none_left p;
  }
