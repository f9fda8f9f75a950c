-- ===== src/Trust/Gates/Database.antt =====
-- Proofs about cpp/src/ledger.h, `verify_signer`.
use pg_laswell.Base.{
  ℕ, true, false, ◌≡◌, ◌⊎◌, inl, inr, refl, sym, ◌∙◌, Option, none, some, List, [], ◌∷◌, ◌++◌,
  is_nil, arith, Bool-cases, Option-cases,
}
use pg_laswell.Base.Result.{ok}
use pg_laswell.Trust.Base64.{base64_decode}
use pg_laswell.Trust.Gates.{
  Crypto, Member, absent, other, text, SignatureEntry, SignatureCheck, signed_by, TrustedRow, id_in,
  verify_ed25519, check_row, by_row, check_rows, verify_signer,
}
use pg_laswell.Trust.Gates.Sound.{Among, verdict_sound}

module _ (crypto : Crypto) where
  -- What a signature member decodes to; one that is not there reads as an empty text.
  abbrev pub Decodes : Member → List ℕ → Type 0
  Decodes absent raw = base64_decode [] ≡ ok raw
  Decodes other raw = ⊥
  Decodes (text s) raw = base64_decode s ≡ ok raw

  -- A signature of these bytes by a key.
  abbrev pub SignsBytes : List ℕ → List ℕ → Member → Type 0
  SignsBytes key bytes m =
      (raw : List ℕ) × (Decodes m raw) × (verify_ed25519 crypto key bytes raw ≡ true)

  -- What a check that passed gate 2 rests on: an entry signed by a key that the database holds.
  abbrev pub Passed2 :
      (List ℕ → Option TrustedRow) → List ℕ → SignatureCheck → SignatureEntry → Type 0
  Passed2 trusted bytes c e =
      (key_id : List ℕ) × (row : TrustedRow) × (c ≡ signed_by key_id row.label)
      × ((trusted key_id ≡ some row)
          × ((row.is_revoked ≡ false)
              × ((id_in e.is_object e.key_id ≡ some key_id)
                  × SignsBytes row.public_key bytes e.signature)))

  check_row_sound :
      (key_id : List ℕ) (row : TrustedRow) (bytes : List ℕ) (m : Member)
      → (check_row crypto key_id row bytes m).verified ≡ true
      → (check_row crypto key_id row bytes m ≡ signed_by key_id row.label)
        × SignsBytes row.public_key bytes m
  unfolding check_row
  check_row_sound key_id row bytes absent h =
      let (raw, e, (v, is)) =
        verdict_sound crypto key_id row.label row.public_key bytes (base64_decode []) h in
      (is, (raw, e, v))
  check_row_sound key_id row bytes other h = absurd (cc)
  check_row_sound key_id row bytes (text s) h =
      let (raw, e, (v, is)) =
        verdict_sound crypto key_id row.label row.public_key bytes (base64_decode s) h in
      (is, (raw, e, v))

  ByRow : SignatureCheck → (List ℕ → Option TrustedRow) → List ℕ → List ℕ → Member → Type 0
  ByRow c trusted bytes key_id m =
      (row : TrustedRow) × (c ≡ signed_by key_id row.label)
      × ((trusted key_id ≡ some row)
          × ((row.is_revoked ≡ false) × SignsBytes row.public_key bytes m))

  by_row_sound :
      (trusted : List ℕ → Option TrustedRow) (found : Option TrustedRow) (key_id bytes : List ℕ)
      (m : Member) (rest c : SignatureCheck)
      → trusted key_id ≡ found
      → by_row crypto found key_id bytes m rest ≡ c
      → c.verified ≡ true
      → ByRow c trusted bytes key_id m ⊎ (rest ≡ c)
  unfolding by_row ByRow
  by_row_sound trusted none key_id bytes m rest c f h v = inr h
  by_row_sound trusted (some row) key_id bytes m rest c f h v = elim (Bool-cases row.is_revoked) [
    | inl gone ↦ absurd (ground arith)
    | inr live ↦
        let e : check_row crypto key_id row bytes m ≡ c = ground arith in
        let (is, signs) = check_row_sound key_id row bytes m (rw e v) in
        inl (row, sym e ∙ is, (f, (live, signs)))
  ]

  check_rows_sound :
      (trusted : List ℕ → Option TrustedRow) (bytes : List ℕ) (offered : List (List ℕ))
      (es : List SignatureEntry) (c : SignatureCheck)
      → check_rows crypto trusted bytes offered es ≡ c
      → c.verified ≡ true
      → Among (Passed2 trusted bytes c) es
  unfolding check_rows ByRow
  check_rows_sound trusted bytes offered [] c h v = absurd (ground arith)
  check_rows_sound trusted bytes offered (e ∷ es) c h v =
      elim (Option-cases (id_in e.is_object e.key_id)) [
        | inl nameless ↦ inr (check_rows_sound trusted bytes offered es c (ground arith) v)
        | inr (key_id, named) ↦
            elim (by_row_sound trusted (trusted key_id) key_id bytes e.signature
              (check_rows crypto trusted bytes (offered ++ key_id ∷ []) es) c refl (ground arith)
              v) [
                | inl (row, is, (t, (live, signs))) ↦
                    inl (key_id, row, is, (t, (live, (named, signs))))
                | inr r ↦ inr (check_rows_sound trusted bytes (offered ++ key_id ∷ []) es c r v)
              ]
      ]

  -- Gate 2 passes a specification only where an entry of it names a key that the database holds and
  -- has not revoked, and what this entry's signature decodes to, as base64, verifies exactly the
  -- canonical bytes under the bytes of the key that the database holds; the check then names that key
  -- and its label in the database.
  pub verify_signer_sound :
      (trusted : List ℕ → Option TrustedRow) (bytes : List ℕ) (es : List SignatureEntry)
      → (verify_signer crypto trusted bytes (some es)).verified ≡ true
      → Among (Passed2 trusted bytes (verify_signer crypto trusted bytes (some es))) es
  unfolding verify_signer
  verify_signer_sound trusted bytes es v = elim (Bool-cases (is_nil es)) [
    | inl bare ↦ absurd (ground arith)
    | inr signed ↦
        check_rows_sound trusted bytes [] es (verify_signer crypto trusted bytes (some es))
          (ground arith) v
  ]
