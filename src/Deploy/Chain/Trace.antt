-- ===== src/Deploy/Chain/Trace.antt =====
-- Proofs about cpp/src/deploy.h, `run_chain`: what its log says.
use pg_laswell.Base.{
  ◌+◌, Bool, true, false, ◌≡◌, refl, sym, ap, ◌∙◌, String, none, some, List, [], ◌∷◌, contains,
  keep, arith, Bool-cases, Option-cases, inl, inr, ==_iff, ==_refl,
}
use pg_laswell.Base.Counting.{count}
use pg_laswell.Repository.Types.{RepoEntry}
use pg_laswell.Deploy.Group.{is_ok}
use pg_laswell.Deploy.Chain.{
  would_run, depends_on, Outcome, rehearsed, incomplete, failed, not_planned, Line, clean,
  incomplete_line, not_accepted, not_plannable, not_rehearsed, Chain, new_chain, cause_of, block,
  settle, rehearse_one, rehearse_all, chain_result, run_chain,
}

-- The ids that the log names, and those that it does not call rehearsed.
abbrev pub line_ids : List Line → List String
line_ids [] = []
line_ids (clean a ∷ l) = a ∷ line_ids l
line_ids (incomplete_line a ∷ l) = a ∷ line_ids l
line_ids (not_accepted a ∷ l) = a ∷ line_ids l
line_ids (not_plannable a ∷ l) = a ∷ line_ids l
line_ids (not_rehearsed a b ∷ l) = a ∷ line_ids l

abbrev pub broken_ids : List Line → List String
broken_ids [] = []
broken_ids (clean a ∷ l) = broken_ids l
broken_ids (incomplete_line a ∷ l) = a ∷ broken_ids l
broken_ids (not_accepted a ∷ l) = a ∷ broken_ids l
broken_ids (not_plannable a ∷ l) = a ∷ broken_ids l
broken_ids (not_rehearsed a b ∷ l) = a ∷ broken_ids l

module _ (es : List RepoEntry) where
  -- No dependency of the specification was broken by then.
  abbrev pub Unbroken : String → List Line → Type 0
  Unbroken id l =
      (d : String) → contains (depends_on es id) d ≡ true → contains (broken_ids l) d ≡ false

  -- What is rehearsed depends on nothing broken, and what is not depends on the cause that is named.
  abbrev pub IsTrue : List Line → Type 0
  IsTrue [] = Unit
  IsTrue (clean a ∷ l) = Unbroken a l × IsTrue l
  IsTrue (incomplete_line a ∷ l) = Unbroken a l × IsTrue l
  IsTrue (not_accepted a ∷ l) = Unbroken a l × IsTrue l
  IsTrue (not_plannable a ∷ l) = Unbroken a l × IsTrue l
  IsTrue (not_rehearsed a b ∷ l) =
      ((contains (depends_on es a) b ≡ true) × (contains (broken_ids l) b ≡ true)) × IsTrue l

cause_of-none :
    (broken ds : List String) (d : String)
    → cause_of broken ds ≡ none
    → contains ds d ≡ true
    → contains broken d ≡ false
unfolding cause_of
cause_of-none broken [] d h k = absurd (ground arith)
cause_of-none broken (x ∷ ds) d h k = elim (Bool-cases (contains broken x)) [
  | inl bad ↦ absurd (ground arith)
  | inr good ↦ ground (arith, cause_of-none broken ds d, ==_iff x d)
]

cause_of-some :
    (broken ds : List String) (d : String)
    → cause_of broken ds ≡ some d
    → (contains ds d ≡ true) × (contains broken d ≡ true)
unfolding cause_of
cause_of-some broken [] d h = absurd (ground arith)
cause_of-some broken (x ∷ ds) d h = elim (Bool-cases (contains broken x)) [
  | inl bad ↦ ground (arith, ==_refl x)
  | inr good ↦ ground (arith, cause_of-some broken ds d)
]

pub some-injective {ℓ} : {A : Type ℓ} {a b : A} → some a ≡ some b → a ≡ b
some-injective {a = a} e = ap (λ o. elim o [ none ↦ a | some x ↦ x ]) e

stopped : chain_result none ≡ is_ok → ⊥
unfolding chain_result
stopped e = ground arith

result_ok : (c : Chain) → chain_result (some c) ≡ is_ok → c.failed + c.incomplete + c.blocked ≡ 0
unfolding chain_result
result_ok c e = ground arith

-- The counts are those of the log, and the set is what the log calls broken.
pub record IsLogged (es : List RepoEntry) (c : Chain) : Type 0 where
  pub broken : c.broken ≡ broken_ids c.lines
  pub true_lines : IsTrue es c.lines
  pub counted : c.failed + c.incomplete + c.blocked ≡ 0 → c.broken ≡ []

module _ (es : List RepoEntry) (id : String) (c : Chain) (h : IsLogged es c) where
  block-IsLogged :
      (d : String) → cause_of c.broken (depends_on es id) ≡ some d → IsLogged es (block id d c)
  unfolding block
  block-IsLogged d e = record {
    broken = ap (λ xs. id ∷ xs) h.broken;
    true_lines = (rw h.broken at (cause_of-some c.broken (depends_on es id) d e), h.true_lines);
    counted = λ z. absurd (omega (arith, z));
  }

  unbroken : cause_of c.broken (depends_on es id) ≡ none → Unbroken es id c.lines
  unbroken e d k = rw h.broken at (cause_of-none c.broken (depends_on es id) d e k)

  settle-IsLogged :
      (o : Outcome) → cause_of c.broken (depends_on es id) ≡ none → IsLogged es (settle id o c)
  unfolding settle
  settle-IsLogged rehearsed e = record {
    broken = h.broken;
    true_lines = (unbroken e, h.true_lines);
    counted = h.counted;
  }
  settle-IsLogged incomplete e = record {
    broken = ap (λ xs. id ∷ xs) h.broken;
    true_lines = (unbroken e, h.true_lines);
    counted = λ z. absurd (omega (arith, z));
  }
  settle-IsLogged failed e = record {
    broken = ap (λ xs. id ∷ xs) h.broken;
    true_lines = (unbroken e, h.true_lines);
    counted = λ z. absurd (omega (arith, z));
  }
  settle-IsLogged not_planned e = record {
    broken = ap (λ xs. id ∷ xs) h.broken;
    true_lines = (unbroken e, h.true_lines);
    counted = λ z. absurd (omega (arith, z));
  }

settle-line_ids :
    (id : String) (o : Outcome) (c : Chain) → line_ids (settle id o c).lines ≡ id ∷ line_ids c.lines
unfolding settle
settle-line_ids id rehearsed c = refl
settle-line_ids id incomplete c = refl
settle-line_ids id failed c = refl
settle-line_ids id not_planned c = refl

module _ (readable : String → Bool) (rehearse : List Line → String → Outcome)
    (es : List RepoEntry) where
  rehearse_one-IsLogged :
      (id : String) (c c' : Chain)
      → rehearse_one readable rehearse es id c ≡ some c'
      → IsLogged es c
      → IsLogged es c' × (line_ids c'.lines ≡ id ∷ line_ids c.lines)
  unfolding rehearse_one
  rehearse_one-IsLogged id c c' e h = elim (Option-cases (cause_of c.broken (depends_on es id))) [
    | inr (d, k) ↦
        rw (← some-injective (rw (rehearse_one, k) at e))
          (block-IsLogged es id c h d k, unfold block in refl)
    | inl k ↦ elim (Bool-cases (readable id)) [
      | inr lost ↦ absurd (ground arith)
      | inl found ↦ rw (← some-injective (rw (rehearse_one, k, found) at e)) (
        settle-IsLogged es id c h (rehearse c.lines id) k,
        settle-line_ids id (rehearse c.lines id) c,
      )
    ]
  ]

  rehearse_all-IsLogged :
      (ids : List String) (c c' : Chain)
      → rehearse_all readable rehearse es ids c ≡ some c'
      → IsLogged es c
      → IsLogged es c'
        × ((x : String)
            → count x (line_ids c'.lines)
              ≡ count x (keep (would_run es) ids) + count x (line_ids c.lines))
  unfolding rehearse_all
  rehearse_all-IsLogged [] c c' e h = rw (← some-injective e) (h, λ x. omega arith)
  rehearse_all-IsLogged (id ∷ ids) c c' e h = elim (Bool-cases (would_run es id)) [
    | inr out ↦
        let (k, n) = rehearse_all-IsLogged ids c c' (ground arith) h in
        (k, λ x. ground (arith, n x))
    | inl runs ↦ elim (Option-cases (rehearse_one readable rehearse es id c)) [
      | inl stop ↦ absurd (ground arith)
      | inr (d, one) ↦
          let (k, l) = rehearse_one-IsLogged id c d one h in
          let (m, n) = rehearse_all-IsLogged ids d c' (ground arith) k in
          (m, λ x. ground (arith, n x, ap (count x) l))
    ]
  ]

  -- The rehearsal of a listing succeeds only if every file was read and every specification that
  -- would run rehearsed cleanly.
  pub chain_ok :
      (ids : List String)
      → run_chain readable rehearse es ids ≡ is_ok
      → (c : Chain) × (rehearse_all readable rehearse es ids new_chain ≡ some c)
        × (broken_ids c.lines ≡ [])
        × ((x : String) → count x (line_ids c.lines) ≡ count x (keep (would_run es) ids))
  unfolding run_chain
  chain_ok ids e = elim (Option-cases (rehearse_all readable rehearse es ids new_chain)) [
    | inl stop ↦ absurd (stopped (rw stop at e))
    | inr (c, k) ↦
        let (l, n) =
          rehearse_all-IsLogged ids new_chain c k
            (record { broken = refl; true_lines = tt; counted = λ z. refl }) in
        (c, k, sym l.broken ∙ l.counted (result_ok c (rw k at e)), λ x. omega (arith, n x))
  ]
