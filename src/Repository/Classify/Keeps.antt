-- ===== src/Repository/Classify/Keeps.antt =====
-- Proofs about cpp/src/repository.h, what of an entry `classify` and `gate` keep.
use pg_laswell.Base.{◌≡◌, refl, Option, none, some, arith, ◌∙◌}
use pg_laswell.Repository.Types.{RepoEntry, Recorded, View, recorded}
use pg_laswell.Repository.Classify.{
  classify, classify_found, classify_recorded, gate, gate_lineage, gate_environment,
  classify_and_gate,
}

-- The id, the path and the digest are as they were.
abbrev pub Kept : RepoEntry → RepoEntry → Type 0
Kept e f = (f.spec_id ≡ e.spec_id) × ((f.path ≡ e.path) × (f.digest ≡ e.digest))

Kept-trans : (e f g : RepoEntry) → Kept e f → Kept f g → Kept e g
Kept-trans e f g h k = (k.0 ∙ h.0, (k.1.0 ∙ h.1.0, k.1.1 ∙ h.1.1))

recorded-Kept : (e : RepoEntry) (a : Recorded) → Kept e (classify_recorded e a)
unfolding classify_recorded
recorded-Kept e a = (ground arith, (ground arith, ground arith))

found-Kept : (e : RepoEntry) (o : Option Recorded) → Kept e (classify_found e o)
unfolding classify_found
found-Kept e none = (refl, (refl, refl))
found-Kept e (some a) = recorded-Kept e a

lineage-Kept : (e : RepoEntry) (v : View) → Kept e (gate_lineage e v)
unfolding gate_lineage
lineage-Kept e v = (ground arith, (ground arith, ground arith))

environment-Kept : (e : RepoEntry) (v : View) → Kept e (gate_environment e v)
unfolding gate_environment
environment-Kept e v =
    let h = lineage-Kept e v in
    (ground (arith, h.0), (ground (arith, h.1.0), ground (arith, h.1.1)))

gate-Kept : (e : RepoEntry) (v : View) → Kept e (gate e v)
unfolding gate
gate-Kept e v =
    let h = environment-Kept e v in
    (ground (arith, h.0), (ground (arith, h.1.0), ground (arith, h.1.1)))

pub classify_and_gate-Kept : (e : RepoEntry) (v : View) → Kept e (classify_and_gate e v)
unfolding classify_and_gate classify
classify_and_gate-Kept e v =
    Kept-trans e (classify e v.applied) (classify_and_gate e v)
      (found-Kept e (recorded v.applied e.epoch e.spec_id)) (gate-Kept (classify e v.applied) v)
