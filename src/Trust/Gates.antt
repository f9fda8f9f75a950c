-- ===== src/Trust/Gates.antt =====
-- cpp/src/trust.h: `key_id_for`, `verify_ed25519` and gate 1, `verify_against_policy`; and gate 2,
-- `Ledger::verify_signer` of cpp/src/ledger.h, whose table of trusted keys is a function. SHA-256
-- and the verification of a signature are OpenSSL's: a `Crypto` gives them. Texts are their bytes,
-- and the JSON entries of a specification are their members as they are found.
pub mod Sound
pub mod Database
use pg_laswell.Base.{
  ℕ, ◌+◌, ◌-◌, ◌/◌, ◌%◌, Bool, true, false, not, ◌&&◌, ◌||◌, Option, none, some, List, [], ◌∷◌,
  ◌++◌, ltb, nat_eq, length, is_nil, if◌then◌else◌,
}
use pg_laswell.Base.Result.{Result, ok, err, ◌>>=◌}
use pg_laswell.Trust.Base64.{Base64Error, base64_decode}
unfoldable pub use pg_laswell.Trust.Entries.{same, to_hex, prefix, is_accepted, find_key}
pub use pg_laswell.Trust.Entries.{
  Crypto, Member, SignatureEntry, Reason, TrustError, SignatureCheck, refused, unchecked, signed_by,
  hex_digit, ed25519_name, TrustedKey, TrustedRow, TrustPolicy, id_in, algorithm_of, absent, other,
  text, not_configured, no_signatures, no_key_id, unsupported_algorithm, key_mismatch, no_signature,
  does_not_verify, revoked, not_base64, not_accepted, wrong_key_size, wrong_type,
}

module _ (crypto : Crypto) where
  unfoldable pub key_id_for : List ℕ → Result TrustError (List ℕ)
  key_id_for key =
      if nat_eq (length key) 32
      then ok (ed25519_name ++ b':' ∷ prefix 16 (to_hex (crypto.sha256 key)))
      else err (wrong_key_size (length key))

  unfoldable pub verify_ed25519 : List ℕ → List ℕ → List ℕ → Bool
  verify_ed25519 key message signature =
      nat_eq (length key) 32
      && (nat_eq (length signature) 64 && crypto.verifies key message signature)

  -- The check of a decoded signature.
  unfoldable pub verdict :
      List ℕ → List ℕ → List ℕ → List ℕ → Result Base64Error (List ℕ) → SignatureCheck
  verdict key_id label key bytes (err e) = refused (not_base64 key_id (some e))
  verdict key_id label key bytes (ok raw) =
      if verify_ed25519 key bytes raw
      then signed_by key_id label
      else refused (does_not_verify key_id)

  -- Gate 1 from the signature of an entry whose key is known on.
  unfoldable pub check_member : List ℕ → TrustedKey → List ℕ → Member → SignatureCheck
  check_member key_id key bytes (text s) =
      verdict key_id key.label key.public_key bytes (base64_decode s)
  check_member key_id key bytes _ = refused (no_signature key_id)

  unfoldable pub check_key :
      List ℕ → TrustedKey → List ℕ → Member → Result TrustError SignatureCheck
  check_key key_id key bytes signature = do
    address ← key_id_for key.public_key
    ok (
        if same address key_id
        then check_member key_id key bytes signature
        else refused (key_mismatch key_id))

  -- `rest` is the loop from the next entry on.
  unfoldable pub by_key :
      Option TrustedKey
      → List ℕ
      → List ℕ
      → Member
      → Result TrustError SignatureCheck
      → Result TrustError SignatureCheck
  by_key none key_id bytes signature rest = rest
  by_key (some key) key_id bytes signature rest = check_key key_id key bytes signature

  unfoldable pub by_algorithm :
      TrustPolicy
      → List ℕ
      → List ℕ
      → List ℕ
      → Member
      → Result TrustError SignatureCheck
      → Result TrustError SignatureCheck
  by_algorithm policy algorithm key_id bytes signature rest =
      if not (same algorithm ed25519_name)
      then ok (refused (unsupported_algorithm algorithm))
      else if not (is_accepted policy.accept key_id)
      then rest
      else by_key (find_key policy.keys key_id) key_id bytes signature rest

  -- One entry, given the id in it.
  unfoldable pub check_entry :
      TrustPolicy
      → List ℕ
      → SignatureEntry
      → Option (List ℕ)
      → (List ℕ → Result TrustError SignatureCheck)
      → Result TrustError SignatureCheck
  check_entry policy bytes e none rest = ok (refused no_key_id)
  check_entry policy bytes e (some key_id) rest = algorithm_of e.algorithm >>= λ algorithm.
      by_algorithm policy algorithm key_id bytes e.signature (rest key_id)

  -- The loop of gate 1; `tried` are the ids so far.
  unfoldable pub check_entries :
      TrustPolicy → List ℕ → List (List ℕ) → List SignatureEntry → Result TrustError SignatureCheck
  check_entries policy bytes tried [] = ok (refused (not_accepted tried))
  check_entries policy bytes tried (e ∷ es) =
      check_entry policy bytes e (id_in e.is_object e.key_id)
        (λ key_id. check_entries policy bytes (tried ++ key_id ∷ []) es)

  -- `signatures` is none where it is no array.
  unfoldable pub verify_against_policy :
      TrustPolicy → List ℕ → Option (List SignatureEntry) → Result TrustError SignatureCheck
  verify_against_policy policy bytes signatures =
      if is_nil policy.accept then ok unchecked else elim signatures [
        | none ↦ ok (refused no_signatures)
        | some es ↦
            if is_nil es then ok (refused no_signatures) else check_entries policy bytes [] es
      ]

  -- `base64_decode(value("signature", ""))` under its `try`.
  unfoldable pub check_row : List ℕ → TrustedRow → List ℕ → Member → SignatureCheck
  check_row key_id row bytes absent =
      verdict key_id row.label row.public_key bytes (base64_decode [])
  check_row key_id row bytes other = refused (not_base64 key_id none)
  check_row key_id row bytes (text s) =
      verdict key_id row.label row.public_key bytes (base64_decode s)

  unfoldable pub by_row :
      Option TrustedRow → List ℕ → List ℕ → Member → SignatureCheck → SignatureCheck
  by_row none key_id bytes signature rest = rest
  by_row (some row) key_id bytes signature rest =
      if row.is_revoked then refused (revoked key_id) else check_row key_id row bytes signature

  -- The loop of gate 2.
  unfoldable pub check_rows :
      (List ℕ → Option TrustedRow) → List ℕ → List (List ℕ) → List SignatureEntry → SignatureCheck
  check_rows trusted bytes offered [] = refused (not_accepted offered)
  check_rows trusted bytes offered (e ∷ es) = elim (id_in e.is_object e.key_id) [
    | none ↦ check_rows trusted bytes offered es
    | some key_id ↦
        by_row (trusted key_id) key_id bytes e.signature
          (check_rows trusted bytes (offered ++ key_id ∷ []) es)
  ]

  unfoldable pub verify_signer :
      (List ℕ → Option TrustedRow) → List ℕ → Option (List SignatureEntry) → SignatureCheck
  verify_signer trusted bytes signatures = elim signatures [
    | none ↦ refused no_signatures
    | some es ↦ if is_nil es then refused no_signatures else check_rows trusted bytes [] es
  ]
