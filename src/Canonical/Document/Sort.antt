-- ===== src/Canonical/Document/Sort.antt =====
-- Proofs about cpp/src/canonical.h, the sorting of members.
use pg_laswell.Base.{ℕ, true, false, ◌≡◌, ◌≢◌, refl, List, [], ◌∷◌, arith}
use pg_laswell.Canonical.Utf8.{lex_less}
use pg_laswell.Canonical.Document.{Rendered, insert}

lex_less_trans :
    (us vs ws : List ℕ) → lex_less us vs ≡ true → lex_less vs ws ≡ true → lex_less us ws ≡ true
unfolding lex_less
lex_less_trans [] [] ws h k = absurd (ground arith)
lex_less_trans [] (b ∷ vs) [] h k = absurd (ground arith)
lex_less_trans [] (b ∷ vs) (c ∷ ws) h k = refl
lex_less_trans (a ∷ us) [] ws h k = absurd (ground arith)
lex_less_trans (a ∷ us) (b ∷ vs) [] h k = absurd (ground arith)
lex_less_trans (a ∷ us) (b ∷ vs) (c ∷ ws) h k = ground (arith, lex_less_trans us vs ws)

lex_less_asym : (us vs : List ℕ) → lex_less us vs ≡ true → lex_less vs us ≡ false
unfolding lex_less
lex_less_asym [] [] h = refl
lex_less_asym [] (b ∷ vs) h = refl
lex_less_asym (a ∷ us) [] h = absurd (ground arith)
lex_less_asym (a ∷ us) (b ∷ vs) h = ground (arith, lex_less_asym us vs)

lex_less_total : (us vs : List ℕ) → lex_less us vs ≡ false → lex_less vs us ≡ false → us ≡ vs
unfolding lex_less
lex_less_total [] [] h k = refl
lex_less_total [] (b ∷ vs) h k = absurd (ground arith)
lex_less_total (a ∷ us) [] h k = absurd (ground arith)
lex_less_total (a ∷ us) (b ∷ vs) h k = ground (arith, lex_less_total us vs)

pub insert_comm :
    (r q : Rendered) (rs : List Rendered)
    → r.units ≢ q.units
    → insert r (insert q rs) ≡ insert q (insert r rs)
unfolding insert
insert_comm r q [] d = ground (arith, lex_less_asym r.units q.units, lex_less_total r.units q.units)
insert_comm r q (x ∷ rs) d = ground (
  arith,
  insert_comm r q rs d,
  lex_less_asym r.units q.units,
  lex_less_total r.units q.units,
  lex_less_trans r.units q.units x.units,
  lex_less_trans q.units r.units x.units,
)
