-- ===== src/Spec/Document/Formed.antt =====
-- Proofs about cpp/src/spec.h, `parse_spec`: what holds of a specification that it accepts.
use pg_laswell.Base.{
  ℕ, suc, true, false, not, ◌≡◌, ◌≢◌, inl, inr, refl, subst, ap, ◌∙◌, String, Option, none, some,
  List, [], ◌∷◌, arith, All, Bool-cases,
}
use pg_laswell.Base.Bytes.{one_of}
use pg_laswell.Base.Int.{ℤ, pos, negsuc}
use pg_laswell.Base.Result.{Result, ok, err, >>=-eq-ok, ok_inj}
use pg_laswell.Canonical.Utf8.{Failure}
use pg_laswell.Canonical.Document.{
  Json, null, float, binary, boolean, integer, unsigned, string, array, object, nil, cons, Members,
  end, field, canonicalize,
}
use pg_laswell.Canonical.Document.Refusals.{Storable, canonical-Storable}
use pg_laswell.Trust.Entries.{same}
use pg_laswell.Spec.Checks.{
  Place, the_document, intent, at_key, filled, or_missing, string_or, reject_unknown_keys,
  elements_of, elements, refused, items, fails, is_array, require_string, refuse_if,
  is_number_integer,
}
use pg_laswell.Spec.Checks.Integer.{get_int}
use pg_laswell.Spec.Kinds.{IntentKind, find_kind}
use pg_laswell.Spec.Document.{
  Modules, Intent, Read, read, Parts, Spec, signed_top_level_keys, project, check_version,
  dependencies, parse_depends_on, text_if_there, parse_target, parse_kind, parse_intent,
  parse_intents, intents_of, parse_parts, signatures_of, canonical_of, raised_as, is_one,
  parse_spec,
}
use pg_laswell.Spec.Document.Dispatch.{parse_body}

-- The keys of the members are all allowed.
abbrev pub KeysAmong : List String → Members → Type 0
KeysAmong allowed end = Unit
KeysAmong allowed (field name v ms) = (one_of name allowed ≡ true) × KeysAmong allowed ms

-- The intents are numbered in order, each of a known kind whose parser passed its body.
abbrev pub Numbered : Modules → ℕ → List Intent → Type 0
Numbered m n [] = Unit
Numbered m n (i ∷ is) =
    ((i.ordinal ≡ n)
      × ((find_kind m.declares i.kind_name ≡ some i.kind)
          × (parse_body m.parses i.kind n i.body ≡ ok tt)))
    × Numbered m (suc n) is

pub record WellFormed (m : Modules) (s : Spec) : Type 0 where
  pub keys : KeysAmong ("signatures" ∷ signed_top_level_keys) s.document
  pub version :
      (v : Json) × (at_key s.document "laswell_spec_version" ≡ some v) × (get_int v ≡ ok (pos 1))
  pub id : s.parts.id ≢ []
  pub description : s.parts.description ≢ []
  pub depends_on : All (λ (d : List ℕ). (d ≢ []) × (same d s.parts.id ≡ false)) s.parts.depends_on
  pub intents : s.parts.intents ≢ []
  pub numbered : Numbered m 0 s.parts.intents
  pub bytes : canonicalize (object s.signed_projection) ≡ ok s.canonical_bytes
  pub storable : Storable (object s.signed_projection)

pub reject_unknown-KeysAmong :
    (ms : Members) (allowed : List String) (at : Place)
    → reject_unknown_keys ms allowed at ≡ ok tt
    → KeysAmong allowed ms
unfolding reject_unknown_keys
reject_unknown-KeysAmong end allowed at h = tt
reject_unknown-KeysAmong (field name v ms) allowed at h = elim (Bool-cases (one_of name allowed)) [
  | inl known ↦ (known, reject_unknown-KeysAmong ms allowed at (rw known at h))
  | inr strange ↦ absurd (ground arith)
]

cons_not_nil {ℓ} : {A : Type ℓ} (x : A) (xs : List A) → x ∷ xs ≢ []
cons_not_nil x xs e = cc

filled_full :
    (o : Option Json) (at : Place) (k : String) (s : List ℕ)
    → or_missing (filled o) at k ≡ ok s
    → s ≢ []
filled_full none at k s h e = absurd (cc)
filled_full (some (string (c ∷ cs))) at k s h e = cons_not_nil c cs (ok_inj h ∙ e)
filled_full (some (string [])) at k s h e = absurd (cc)
filled_full (some null) at k s h e = absurd (cc)
filled_full (some float) at k s h e = absurd (cc)
filled_full (some binary) at k s h e = absurd (cc)
filled_full (some (boolean b)) at k s h e = absurd (cc)
filled_full (some (integer z)) at k s h e = absurd (cc)
filled_full (some (unsigned n)) at k s h e = absurd (cc)
filled_full (some (array xs)) at k s h e = absurd (cc)
filled_full (some (object ms)) at k s h e = absurd (cc)

dependencies-formed :
    (id : List ℕ) (vs : List Json) (ds : List (List ℕ))
    → dependencies id vs ≡ ok ds
    → All (λ (d : List ℕ). (d ≢ []) × (same d id ≡ false)) ds
unfolding dependencies
dependencies-formed id [] ds h =
    subst (All (λ (d : List ℕ). (d ≢ []) × (same d id ≡ false))) (ok_inj h) tt
dependencies-formed id (string (c ∷ cs) ∷ vs) ds h = elim (Bool-cases (same (c ∷ cs) id)) [
  | inl itself ↦ absurd (ground arith)
  | inr other ↦
      let (rest, r, k) = >>=-eq-ok (dependencies id vs) _ (rw other at h) in
      subst (All (λ (d : List ℕ). (d ≢ []) × (same d id ≡ false))) (ok_inj k)
        ((cons_not_nil c cs, other), dependencies-formed id vs rest r)
]
dependencies-formed id (string [] ∷ vs) ds h = absurd (cc)
dependencies-formed id (null ∷ vs) ds h = absurd (cc)
dependencies-formed id (float ∷ vs) ds h = absurd (cc)
dependencies-formed id (binary ∷ vs) ds h = absurd (cc)
dependencies-formed id (boolean b ∷ vs) ds h = absurd (cc)
dependencies-formed id (integer z ∷ vs) ds h = absurd (cc)
dependencies-formed id (unsigned n ∷ vs) ds h = absurd (cc)
dependencies-formed id (array xs ∷ vs) ds h = absurd (cc)
dependencies-formed id (object ms ∷ vs) ds h = absurd (cc)

depends_on-formed :
    (id : List ℕ) (o : Option Json) (ds : List (List ℕ))
    → parse_depends_on id o ≡ ok ds
    → All (λ (d : List ℕ). (d ≢ []) × (same d id ≡ false)) ds
unfolding parse_depends_on
depends_on-formed id o ds h = elim (Bool-cases (fails is_array o)) [
  | inl bad ↦ absurd (ground arith)
  | inr good ↦ dependencies-formed id (elements_of o) ds (rw good at h)
]

kind_known :
    (m : Modules) (n : ℕ) (name : List ℕ) (body : Members) (o : Option IntentKind) (i : Intent)
    → parse_kind m n name body o ≡ ok i
    → (i.ordinal ≡ n)
      × ((o ≡ some i.kind) × ((i.kind_name ≡ name) × (parse_body m.parses i.kind n i.body ≡ ok tt)))
unfolding parse_kind
kind_known m n name body none i h = absurd (cc)
kind_known m n name body (some kind) i h =
    let (u, passed, k) = >>=-eq-ok (parse_body m.parses kind n body) _ h in
    subst
      (λ (j : Intent).
        (j.ordinal ≡ n)
        × ((some kind ≡ some j.kind)
            × ((j.kind_name ≡ name) × (parse_body m.parses j.kind n j.body ≡ ok tt))))
      (ok_inj k) (refl, (refl, (refl, passed)))

intent_known :
    (m : Modules) (n : ℕ) (v : Json) (i : Intent)
    → parse_intent m n v ≡ ok i
    → (i.ordinal ≡ n)
      × ((find_kind m.declares i.kind_name ≡ some i.kind)
          × (parse_body m.parses i.kind n i.body ≡ ok tt))
unfolding parse_intent
intent_known m n (object body) i h =
    let (name, r, k) = >>=-eq-ok (require_string body "kind" (intent n)) _ h in
    let (o, (f, (e, p))) = kind_known m n name body (find_kind m.declares name) i k in
    (o, (ap (find_kind m.declares) e ∙ f, p))
intent_known m n null i h = absurd (cc)
intent_known m n float i h = absurd (cc)
intent_known m n binary i h = absurd (cc)
intent_known m n (boolean b) i h = absurd (cc)
intent_known m n (integer z) i h = absurd (cc)
intent_known m n (unsigned u) i h = absurd (cc)
intent_known m n (string s) i h = absurd (cc)
intent_known m n (array xs) i h = absurd (cc)

intents-Numbered :
    (m : Modules) (n : ℕ) (vs : List Json) (is : List Intent)
    → parse_intents m n vs ≡ ok is
    → Numbered m n is
unfolding parse_intents
intents-Numbered m n [] is h = subst (Numbered m n) (ok_inj h) tt
intents-Numbered m n (v ∷ vs) is h =
    let (i, p, k) = >>=-eq-ok (parse_intent m n v) _ h in
    let (rest, q, l) = >>=-eq-ok (parse_intents m (suc n) vs) _ k in
    subst (Numbered m n) (ok_inj l) (intent_known m n v i p, intents-Numbered m (suc n) vs rest q)

intents_given :
    (m : Modules) (n : ℕ) (v : Json) (vs : List Json) (is : List Intent)
    → parse_intents m n (v ∷ vs) ≡ ok is
    → is ≢ []
unfolding parse_intents
intents_given m n v vs is h e =
    let (i, p, k) = >>=-eq-ok (parse_intent m n v) _ h in
    let (rest, q, l) = >>=-eq-ok (parse_intents m (suc n) vs) _ k in
    cons_not_nil i rest (ok_inj l ∙ e)

intents_of-formed :
    (m : Modules) (o : Option Json) (is : List Intent)
    → intents_of m o ≡ ok is
    → (is ≢ []) × Numbered m 0 is
unfolding elements
intents_of-formed m (some (array (cons v vs))) is h =
    (intents_given m 0 v (items vs) is h, intents-Numbered m 0 (v ∷ items vs) is h)
intents_of-formed m (some (array nil)) is h = absurd (cc)
intents_of-formed m none is h = absurd (cc)
intents_of-formed m (some null) is h = absurd (cc)
intents_of-formed m (some float) is h = absurd (cc)
intents_of-formed m (some binary) is h = absurd (cc)
intents_of-formed m (some (boolean b)) is h = absurd (cc)
intents_of-formed m (some (integer z)) is h = absurd (cc)
intents_of-formed m (some (unsigned u)) is h = absurd (cc)
intents_of-formed m (some (string s)) is h = absurd (cc)
intents_of-formed m (some (object ms)) is h = absurd (cc)

raised_as-ok : (r : Result Failure (List ℕ)) (out : List ℕ) → raised_as r ≡ ok out → r ≡ ok out
raised_as-ok (err f) out h = absurd (cc)
raised_as-ok (ok bytes) out h = ap ok (ok_inj h)

one_sound :
    (z : ℤ)
    → refuse_if (not (is_one z)) (refused the_document "version is not supported") ≡ ok tt
    → z ≡ pos 1
unfolding is_one
one_sound (pos n) h = ap pos (ground arith)
one_sound (negsuc n) h = absurd (cc)

version_one :
    (o : Option Json)
    → check_version o ≡ ok tt
    → (v : Json) × (o ≡ some v) × (get_int v ≡ ok (pos 1))
unfolding check_version
version_one none h = absurd (cc)
version_one (some v) h = elim (Bool-cases (is_number_integer v)) [
  | inr other ↦ absurd (ground arith)
  | inl number ↦
      let (z, g, k) = >>=-eq-ok (get_int v) _ (rw number at h) in
      (v, refl, g ∙ ap ok (one_sound z k))
]

parts-formed :
    (m : Modules) (r : Read) (p : Parts)
    → parse_parts m r ≡ ok p
    → (check_version r.version ≡ ok tt)
      × ((p.id ≢ [])
          × ((p.description ≢ [])
              × (All (λ (d : List ℕ). (d ≢ []) × (same d p.id ≡ false)) p.depends_on
                  × ((p.intents ≢ []) × Numbered m 0 p.intents))))
unfolding parse_parts
parts-formed m r p h =
    let (u, version, h1) = >>=-eq-ok (check_version r.version) _ h in
    let (id, i, h2) = >>=-eq-ok (or_missing (filled r.id) the_document "id") _ h1 in
    let (description, d, h3) =
      >>=-eq-ok (or_missing (filled r.description) the_document "description") _ h2 in
    let (rationale, ra, h4) = >>=-eq-ok (string_or [] r.rationale) _ h3 in
    let (deps, de, h5) = >>=-eq-ok (parse_depends_on id r.depends_on) _ h4 in
    let (release, re, h6) = >>=-eq-ok (text_if_there r.release the_document "release") _ h5 in
    let (target, t, h7) = >>=-eq-ok (parse_target r.target) _ h6 in
    let (intents, ins, h8) = >>=-eq-ok (intents_of m r.intents) _ h7 in
    subst
      (λ (q : Parts).
        (check_version r.version ≡ ok tt)
        × ((q.id ≢ [])
            × ((q.description ≢ [])
                × (All (λ (d : List ℕ). (d ≢ []) × (same d q.id ≡ false)) q.depends_on
                    × ((q.intents ≢ []) × Numbered m 0 q.intents)))))
      (ok_inj h8)
      (
        version,
        (
          filled_full r.id the_document "id" id i,
          (
            filled_full r.description the_document "description" description d,
            (depends_on-formed id r.depends_on deps de, intents_of-formed m r.intents intents ins),
          ),
        ),
      )

module _ (m : Modules) (sha256 : List ℕ → List ℕ) where
  -- A document that is accepted has no key but those of the signed projection and its signatures, and
  -- version 1 as it is cast to an `int`; its id and description are not empty, each dependency is
  -- neither empty nor the specification itself, there is an intent, the intents are numbered from 0,
  -- each is of a known kind and passed that kind's parser; and the signed projection has canonical
  -- bytes: it holds no float, its signed integers are below 2^53 in absolute value, its unsigned ones
  -- below 2^53 or less than 2^53 below 2^64, and its strings have the shape of UTF-8.
  pub parse_spec-WellFormed : (v : Json) (s : Spec) → parse_spec m sha256 v ≡ ok s → WellFormed m s
  unfolding parse_spec
  parse_spec-WellFormed (object doc) s h =
      let (u, known, h1) =
        >>=-eq-ok (reject_unknown_keys doc ("signatures" ∷ signed_top_level_keys) the_document) _
          h in
      let (parts, p, h2) = >>=-eq-ok (parse_parts m (read doc)) _ h1 in
      let (sigs, q, h3) = >>=-eq-ok (signatures_of (at_key doc "signatures")) _ h2 in
      let (bytes, c, h4) =
        >>=-eq-ok (canonical_of (object (project signed_top_level_keys doc))) _ h3 in
      let (version, (id, (description, (deps, (intents, numbered))))) =
        parts-formed m (read doc) parts p in
      subst (WellFormed m) (ok_inj h4) (record {
        keys =
            reject_unknown-KeysAmong doc ("signatures" ∷ signed_top_level_keys) the_document known;
        version = version_one (at_key doc "laswell_spec_version") version;
        id = id;
        description = description;
        depends_on = deps;
        intents = intents;
        numbered = numbered;
        bytes = raised_as-ok (canonicalize (object (project signed_top_level_keys doc))) bytes c;
        storable =
            canonical-Storable (object (project signed_top_level_keys doc)) bytes
              (raised_as-ok (canonicalize (object (project signed_top_level_keys doc))) bytes c);
      })
  parse_spec-WellFormed null t h = absurd (cc)
  parse_spec-WellFormed float t h = absurd (cc)
  parse_spec-WellFormed binary t h = absurd (cc)
  parse_spec-WellFormed (boolean b) t h = absurd (cc)
  parse_spec-WellFormed (integer z) t h = absurd (cc)
  parse_spec-WellFormed (unsigned u) t h = absurd (cc)
  parse_spec-WellFormed (string s) t h = absurd (cc)
  parse_spec-WellFormed (array xs) t h = absurd (cc)
