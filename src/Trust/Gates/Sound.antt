-- ===== src/Trust/Gates/Sound.antt =====
-- Proofs about cpp/src/trust.h, `verify_against_policy`.
use pg_laswell.Base.{
  ℕ, Bool, true, false, ◌≡◌, ◌⊎◌, inl, inr, refl, sym, ◌∙◌, Option, none, some, List, [], ◌∷◌, ◌++◌,
  is_nil, arith, Bool-cases, if◌then◌else◌,
}
use pg_laswell.Base.Result.{Result, ok, err, >>=-eq-ok, ok_inj}
use pg_laswell.Trust.Base64.{Base64Error, base64_decode}
use pg_laswell.Trust.Gates.{
  Crypto, Member, absent, other, text, SignatureEntry, TrustError, SignatureCheck, Reason, by_key,
  by_algorithm, check_entry, refused, key_mismatch, signed_by, same, TrustedKey, TrustPolicy,
  is_accepted, find_key, id_in, algorithm_of, ed25519_name, key_id_for, verify_ed25519, verdict,
  check_member, check_key, check_entries, verify_against_policy,
}

-- One of the entries.
abbrev pub Among : (SignatureEntry → Type 0) → List SignatureEntry → Type 0
Among P [] = ⊥
Among P (e ∷ es) = P e ⊎ Among P es

module _ (crypto : Crypto) where
  -- A text that decodes to a signature of these bytes by a key.
  abbrev pub Signs : List ℕ → List ℕ → Member → Type 0
  Signs key bytes m =
      (s : List ℕ) × (raw : List ℕ) × (m ≡ text s)
      × ((base64_decode s ≡ ok raw) × (verify_ed25519 crypto key bytes raw ≡ true))

  -- The signature of an entry that names a key.
  abbrev pub SignedAs : List ℕ → List ℕ → List ℕ → SignatureEntry → Type 0
  SignedAs key_id key bytes e =
      (id_in e.is_object e.key_id ≡ some key_id) × Signs key bytes e.signature

  pub verdict_sound :
      (key_id label key bytes : List ℕ) (r : Result Base64Error (List ℕ))
      → (verdict crypto key_id label key bytes r).verified ≡ true
      → (raw : List ℕ) × (r ≡ ok raw)
        × ((verify_ed25519 crypto key bytes raw ≡ true)
            × (verdict crypto key_id label key bytes r ≡ signed_by key_id label))
  unfolding verdict
  verdict_sound key_id label key bytes (err e) h = absurd (cc)
  verdict_sound key_id label key bytes (ok raw) h =
      elim (Bool-cases (verify_ed25519 crypto key bytes raw)) [
        | inl v ↦ (raw, refl, (v, rw v refl))
        | inr v ↦ absurd (ground (arith, v))
      ]

  check_member_sound :
      (key_id : List ℕ) (key : TrustedKey) (bytes : List ℕ) (m : Member)
      → (check_member crypto key_id key bytes m).verified ≡ true
      → (check_member crypto key_id key bytes m ≡ signed_by key_id key.label)
        × Signs key.public_key bytes m
  unfolding check_member
  check_member_sound key_id key bytes absent h = absurd (cc)
  check_member_sound key_id key bytes other h = absurd (cc)
  check_member_sound key_id key bytes (text s) h =
      let (raw, e, (v, same_as)) =
        verdict_sound key_id key.label key.public_key bytes (base64_decode s) h in
      (same_as, (s, raw, refl, (e, v)))

  -- The key that a policy files under an id is trusted, and the id is its address.
  abbrev pub Filed : TrustPolicy → List ℕ → TrustedKey → Type 0
  Filed policy key_id key =
      (is_accepted policy.accept key_id ≡ true)
      × ((find_key policy.keys key_id ≡ some key)
          × ((address : List ℕ) × (key_id_for crypto key.public_key ≡ ok address)
              × (same address key_id ≡ true)))

  check_key_sound :
      (key_id : List ℕ) (key : TrustedKey) (bytes : List ℕ) (m : Member) (c : SignatureCheck)
      → check_key crypto key_id key bytes m ≡ ok c
      → c.verified ≡ true
      → (c ≡ signed_by key_id key.label)
        × (Signs key.public_key bytes m
            × ((address : List ℕ) × (key_id_for crypto key.public_key ≡ ok address)
                × (same address key_id ≡ true)))
  unfolding check_key
  check_key_sound key_id key bytes m c h v =
      let (address, a, rest) =
        >>=-eq-ok (key_id_for crypto key.public_key)
          (λ (address : List ℕ). ok (
            if same address key_id
            then check_member crypto key_id key bytes m
            else refused (key_mismatch key_id)))
          h in
      at_address address a (same address key_id) refl (ok_inj rest)
    where
      at_address :
          (address : List ℕ)
          → key_id_for crypto key.public_key ≡ ok address
          → (b : Bool) → same address key_id ≡ b
          → (if b then check_member crypto key_id key bytes m else refused (key_mismatch key_id))
            ≡ c
          → (c ≡ signed_by key_id key.label)
            × (Signs key.public_key bytes m
                × ((address : List ℕ) × (key_id_for crypto key.public_key ≡ ok address)
                    × (same address key_id ≡ true)))
      at_address address a true s e =
          let (is, signs) = check_member_sound key_id key bytes m (rw e v) in
          (sym e ∙ is, (signs, (address, a, s)))
      at_address address a false s e = absurd (refused_not e)
        where
          refused_not : refused (key_mismatch key_id) ≡ c → ⊥
          refused_not e = ground (arith, v)

  -- A key that the policy files under an id signed, and the check says so.
  abbrev ByKey : TrustPolicy → List ℕ → SignatureCheck → List ℕ → Member → Type 0
  ByKey policy bytes c key_id m =
      (key : TrustedKey) × (c ≡ signed_by key_id key.label)
      × (Filed policy key_id key × Signs key.public_key bytes m)

  by_key_sound :
      (policy : TrustPolicy) (found : Option TrustedKey) (key_id bytes : List ℕ) (m : Member)
      (rest : Result TrustError SignatureCheck) (c : SignatureCheck)
      → find_key policy.keys key_id ≡ found
      → is_accepted policy.accept key_id ≡ true
      → by_key crypto found key_id bytes m rest ≡ ok c
      → c.verified ≡ true
      → ByKey policy bytes c key_id m ⊎ (rest ≡ ok c)
  unfolding by_key
  by_key_sound policy none key_id bytes m rest c f a h v = inr h
  by_key_sound policy (some key) key_id bytes m rest c f a h v =
      let (is, (signs, address)) = check_key_sound key_id key bytes m c h v in
      inl (key, is, ((a, (f, address)), signs))

  refused_ok :
      (why : Reason) (c : SignatureCheck)
      → ◌≡◌ {A = Result TrustError SignatureCheck} (ok (refused why)) (ok c)
      → c.verified ≡ false
  refused_ok why c h = ground arith

  by_algorithm_sound :
      (policy : TrustPolicy) (algorithm key_id bytes : List ℕ) (m : Member)
      (rest : Result TrustError SignatureCheck) (c : SignatureCheck)
      → by_algorithm crypto policy algorithm key_id bytes m rest ≡ ok c
      → c.verified ≡ true
      → ByKey policy bytes c key_id m ⊎ (rest ≡ ok c)
  unfolding by_algorithm
  by_algorithm_sound policy algorithm key_id bytes m rest c h v =
      elim (Bool-cases (same algorithm ed25519_name)) [
        | inr odd ↦ absurd (ground arith)
        | inl known ↦ elim (Bool-cases (is_accepted policy.accept key_id)) [
          | inr foreign ↦ inr (ground arith)
          | inl accepted ↦
              by_key_sound policy (find_key policy.keys key_id) key_id bytes m rest c refl accepted
                (ground arith) v
        ]
      ]

  -- What a check that passed gate 1 rests on: an entry signed by a key that the policy files.
  abbrev pub Passed1 : TrustPolicy → List ℕ → SignatureCheck → SignatureEntry → Type 0
  Passed1 policy bytes c e =
      (key_id : List ℕ) × (key : TrustedKey) × (c ≡ signed_by key_id key.label)
      × (Filed policy key_id key × SignedAs key_id key.public_key bytes e)

  check_entry_sound :
      (policy : TrustPolicy) (bytes : List ℕ) (e : SignatureEntry) (id : Option (List ℕ))
      (rest : List ℕ → Result TrustError SignatureCheck) (c : SignatureCheck)
      → id_in e.is_object e.key_id ≡ id
      → check_entry crypto policy bytes e id rest ≡ ok c
      → c.verified ≡ true
      → Passed1 policy bytes c e ⊎ ((key_id : List ℕ) × (rest key_id ≡ ok c))
  unfolding check_entry
  check_entry_sound policy bytes e none rest c i h v = absurd (ground arith)
  check_entry_sound policy bytes e (some key_id) rest c i h v =
      let (algorithm, a, h') =
        >>=-eq-ok (algorithm_of e.algorithm)
          (λ (algorithm : List ℕ).
            by_algorithm crypto policy algorithm key_id bytes e.signature (rest key_id))
          h in
      elim (by_algorithm_sound policy algorithm key_id bytes e.signature (rest key_id) c h' v) [
        | inl (key, is, (filed, signs)) ↦ inl (key_id, key, is, (filed, (i, signs)))
        | inr r ↦ inr (key_id, r)
      ]

  check_entries_sound :
      (policy : TrustPolicy) (bytes : List ℕ) (tried : List (List ℕ)) (es : List SignatureEntry)
      (c : SignatureCheck)
      → check_entries crypto policy bytes tried es ≡ ok c
      → c.verified ≡ true
      → Among (Passed1 policy bytes c) es
  unfolding check_entries
  check_entries_sound policy bytes tried [] c h v = absurd (ground arith)
  check_entries_sound policy bytes tried (e ∷ es) c h v =
      elim (check_entry_sound policy bytes e (id_in e.is_object e.key_id)
        (λ key_id. check_entries crypto policy bytes (tried ++ key_id ∷ []) es) c refl h v) [
          | inl passed ↦ inl passed
          | inr (key_id, r) ↦ inr (check_entries_sound policy bytes (tried ++ key_id ∷ []) es c r v)
        ]

  -- Gate 1 passes a specification only where an entry of it names a key that the policy accepts and
  -- holds, whose id is the address of the key's own bytes, and carries a text that decodes to a
  -- signature of exactly the canonical bytes by that key; the check then names that key and its label.
  pub verify_against_policy_sound :
      (policy : TrustPolicy) (bytes : List ℕ) (es : List SignatureEntry) (c : SignatureCheck)
      → verify_against_policy crypto policy bytes (some es) ≡ ok c
      → c.verified ≡ true
      → Among (Passed1 policy bytes c) es
  unfolding verify_against_policy
  verify_against_policy_sound policy bytes es c h v = elim (Bool-cases (is_nil policy.accept)) [
    | inl off ↦ absurd (ground arith)
    | inr on ↦ elim (Bool-cases (is_nil es)) [
      | inl bare ↦ absurd (ground arith)
      | inr signed ↦ check_entries_sound policy bytes [] es c (ground arith) v
    ]
  ]
