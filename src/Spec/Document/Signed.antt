-- ===== src/Spec/Document/Signed.antt =====
-- Proofs about cpp/src/spec.h, `parse_spec`: what it reads is signed.
use pg_laswell.Base.{
  ℕ, Bool, true, false, ◌||◌, ◌≡◌, inl, inr, refl, subst, sym, ap, ◌∙◌, String, Option, none, some,
  List, [], ◌∷◌, nat_eq, arith, if◌then◌else◌, Bool-cases, Option-cases, All,
}
use Prim.Native.Char.{code}
use Prim.Native.String.{[] as done, ◌∷◌ as ◌then◌}
use pg_laswell.Base.Bytes.{is_text, one_of, text}
use pg_laswell.Base.Result.{Result, ok, ◌>>=◌, >>=-eq-ok, ok_inj}
use pg_laswell.Canonical.Document.{Json, array, object, nil, Members, end, field}
use pg_laswell.Spec.Checks.{Check, SpecError, Place, the_document, at_key, reject_unknown_keys}
use pg_laswell.Spec.Document.{
  Modules, read, Parts, parse_parts, Spec, signed_top_level_keys, project, put_if, signatures_of,
  canonical_of, spec_of, parse_spec,
}

nat_eq_sound : (a b : ℕ) → nat_eq a b ≡ true → a ≡ b
nat_eq_sound a b h = ground arith

-- Two literals that have the same bytes are the text of the same names.
is_text_same :
    (a k : String) → is_text (text a) k ≡ true → (name : List ℕ) → is_text name a ≡ is_text name k
unfolding is_text text
is_text_same done done h name = refl
is_text_same done (c then k) h name = absurd (ground arith)
is_text_same (c then a) done h name = absurd (ground arith)
is_text_same (c then a) (d then k) h [] = refl
is_text_same (c then a) (d then k) h (b ∷ name) =
    ground (arith, nat_eq_sound (code c) (code d), is_text_same a k (ground arith) name)

at_key_same :
    (doc : Members) (a k : String) → is_text (text a) k ≡ true → at_key doc a ≡ at_key doc k
unfolding at_key
at_key_same end a k h = refl
at_key_same (field name v ms) a k h = rw (is_text_same a k h name, at_key_same ms a k h) refl

put-none :
    (a : String) (o : Option Json) (ms : Members) (k : String)
    → is_text (text a) k ≡ true
    → o ≡ none
    → at_key ms k ≡ none
    → at_key (put_if a o ms) k ≡ none
put-none a none ms k h e m = m
put-none a (some v) ms k h e m = absurd (ground arith)

put-other :
    (a : String) (o : Option Json) (ms : Members) (k : String)
    → is_text (text a) k ≡ false
    → at_key (put_if a o ms) k ≡ at_key ms k
unfolding at_key
put-other a none ms k h = refl
put-other a (some v) ms k h = rw h refl

put-here :
    (a : String) (o : Option Json) (ms : Members) (k : String) (v : Json)
    → is_text (text a) k ≡ true
    → o ≡ some v
    → at_key (put_if a o ms) k ≡ some v
unfolding at_key
put-here a none ms k v h e = absurd (ground arith)
put-here a (some w) ms k v h e = rw h (e)

project-none :
    (ks : List String) (doc : Members) (k : String)
    → at_key doc k ≡ none
    → at_key (project ks doc) k ≡ none
unfolding project
project-none [] doc k h = unfold at_key in refl
project-none (a ∷ ks) doc k h = elim (Bool-cases (is_text (text a) k)) [
  | inl here ↦
      put-none a (at_key doc a) (project ks doc) k here (at_key_same doc a k here ∙ h)
        (project-none ks doc k h)
  | inr away ↦ put-other a (at_key doc a) (project ks doc) k away ∙ project-none ks doc k h
]

-- One of the keys is spelled like this one.
unfoldable pub among : String → List String → Bool
among k [] = false
among k (a ∷ ks) = is_text (text a) k || among k ks

project-some :
    (ks : List String) (doc : Members) (k : String) (v : Json)
    → among k ks ≡ true
    → at_key doc k ≡ some v
    → at_key (project ks doc) k ≡ some v
unfolding project among
project-some [] doc k v m h = absurd (ground arith)
project-some (a ∷ ks) doc k v m h = elim (Bool-cases (is_text (text a) k)) [
  | inl here ↦ put-here a (at_key doc a) (project ks doc) k v here (at_key_same doc a k here ∙ h)
  | inr away ↦
      put-other a (at_key doc a) (project ks doc) k away ∙ project-some ks doc k v (ground arith) h
]

-- A key of the allowlist is in the projection as it is in the document.
project-at :
    (ks : List String) (doc : Members) (k : String)
    → among k ks ≡ true
    → at_key (project ks doc) k ≡ at_key doc k
project-at ks doc k m = elim (Option-cases (at_key doc k)) [
  | inl away ↦ project-none ks doc k away ∙ sym away
  | inr (v, there) ↦ project-some ks doc k v m there ∙ sym there
]

abbrev signed_part : Members → Members
signed_part doc = project signed_top_level_keys doc

signed_at :
    (doc : Members) (k : String)
    → among k signed_top_level_keys ≡ true
    → at_key (signed_part doc) k ≡ at_key doc k
signed_at doc k m = project-at signed_top_level_keys doc k m

read-signed : (doc : Members) → read (signed_part doc) ≡ read doc
unfolding read among is_text text
read-signed doc =
    rw
      (
        signed_at doc "laswell_spec_version" refl,
        signed_at doc "id" refl,
        signed_at doc "description" refl,
        signed_at doc "rationale" refl,
        signed_at doc "depends_on" refl,
        signed_at doc "release" refl,
        signed_at doc "target" refl,
        signed_at doc "intents" refl,
      )
      refl

project_same :
    (ks : List String) (doc doc' : Members)
    → All (λ (k : String). at_key doc k ≡ at_key doc' k) ks
    → project ks doc ≡ project ks doc'
unfolding project
project_same [] doc doc' h = refl
project_same (k ∷ ks) doc doc' h = rw (h.0, project_same ks doc doc' h.1) refl

project_again : (doc : Members) → signed_part (signed_part doc) ≡ signed_part doc
unfolding among is_text text
project_again doc = project_same signed_top_level_keys (signed_part doc) doc (
  signed_at doc "depends_on" refl,
  (
    signed_at doc "description" refl,
    (
      signed_at doc "id" refl,
      (
        signed_at doc "intents" refl,
        (
          signed_at doc "laswell_spec_version" refl,
          (
            signed_at doc "rationale" refl,
            (signed_at doc "release" refl, (signed_at doc "target" refl, tt)),
          ),
        ),
      ),
    ),
  ),
)

project-away :
    (ks : List String) (doc : Members) (k : String)
    → among k ks ≡ false
    → at_key (project ks doc) k ≡ none
unfolding project among
project-away [] doc k m = unfold at_key in refl
project-away (a ∷ ks) doc k m = elim (Bool-cases (is_text (text a) k)) [
  | inl here ↦ absurd (ground arith)
  | inr away ↦
      put-other a (at_key doc a) (project ks doc) k away ∙ project-away ks doc k (ground arith)
]

put-known :
    (k : String) (o : Option Json) (ms : Members) (allowed : List String) (at : Place)
    → one_of (text k) allowed ≡ true
    → reject_unknown_keys ms allowed at ≡ ok tt
    → reject_unknown_keys (put_if k o ms) allowed at ≡ ok tt
unfolding reject_unknown_keys
put-known k none ms allowed at h m = m
put-known k (some v) ms allowed at h m = rw h m

project-known :
    (ks : List String) (doc : Members) (allowed : List String) (at : Place)
    → All (λ (k : String). one_of (text k) allowed ≡ true) ks
    → reject_unknown_keys (project ks doc) allowed at ≡ ok tt
unfolding project
project-known [] doc allowed at h = unfold reject_unknown_keys in refl
project-known (k ∷ ks) doc allowed at h =
    put-known k (at_key doc k) (project ks doc) allowed at h.0 (project-known ks doc allowed at h.1)

signed-known :
    (doc : Members)
    → reject_unknown_keys (signed_part doc) ("signatures" ∷ signed_top_level_keys) the_document
      ≡ ok tt
unfolding one_of is_text text
signed-known doc =
    project-known signed_top_level_keys doc ("signatures" ∷ signed_top_level_keys) the_document
      (refl, (refl, (refl, (refl, (refl, (refl, (refl, (refl, tt))))))))

no_signatures : (doc : Members) → at_key (signed_part doc) "signatures" ≡ none
unfolding among is_text text
no_signatures doc = project-away signed_top_level_keys doc "signatures" refl

-- The four stages of the parser, each of which passes.
stages_pass :
    (check : Check) (parts : Result SpecError Parts) (sigs : Result SpecError Json)
    (bytes : Result SpecError (List ℕ)) (build : Parts → Json → List ℕ → Spec) (p : Parts)
    (g : Json) (b : List ℕ)
    → check ≡ ok tt
    → parts ≡ ok p
    → sigs ≡ ok g
    → bytes ≡ ok b
    → (check >>= λ _. parts >>= λ p'. sigs >>= λ g'. bytes >>= λ b'. ok (build p' g' b'))
      ≡ ok (build p g b)
stages_pass check parts sigs bytes build p g b hc hp hg hb = rw (hc, hp, hg, hb) refl

-- The specification without what is not signed.
abbrev pub unsigned_of : Spec → Spec
unsigned_of s = record s { document = s.signed_projection; signatures = array nil }

module _ (m : Modules) (sha256 : List ℕ → List ℕ) where
  -- The signed projection of an accepted document is itself accepted, and gives the same
  -- specification, with the same digest, without signatures: nothing that the parser takes from a
  -- document is outside of what is signed.
  pub parse_spec_signed :
      (doc : Members) (s : Spec)
      → parse_spec m sha256 (object doc) ≡ ok s
      → parse_spec m sha256 (object s.signed_projection) ≡ ok (unsigned_of s)
  unfolding parse_spec
  parse_spec_signed doc s h =
      let (u, known, h1) =
        >>=-eq-ok (reject_unknown_keys doc ("signatures" ∷ signed_top_level_keys) the_document) _
          h in
      let (parts, p, h2) = >>=-eq-ok (parse_parts m (read doc)) _ h1 in
      let (sigs, q, h3) = >>=-eq-ok (signatures_of (at_key doc "signatures")) _ h2 in
      let (bytes, c, h4) = >>=-eq-ok (canonical_of (object (signed_part doc))) _ h3 in
      subst (λ t. parse_spec m sha256 (object t.signed_projection) ≡ ok (unsigned_of t)) (ok_inj h4)
        (stages_pass
            (reject_unknown_keys (signed_part doc) ("signatures" ∷ signed_top_level_keys)
              the_document)
            (parse_parts m (read (signed_part doc)))
            (signatures_of (at_key (signed_part doc) "signatures"))
            (canonical_of (object (signed_part (signed_part doc))))
            (spec_of sha256 (signed_part doc) (signed_part (signed_part doc))) parts (array nil)
            bytes (signed-known doc) (ap (parse_parts m) (read-signed doc) ∙ p)
            (ap signatures_of (no_signatures doc))
            (ap (λ d. canonical_of (object d)) (project_again doc) ∙ c)
          ∙ ap (λ d. ok (spec_of sha256 (signed_part doc) d parts (array nil) bytes))
              (project_again doc))
