-- ===== src/Trust/Tests.antt =====
-- A policy with one key, a specification that it signed, and each theorem there.
use pg_laswell.Base.{ℕ, zero, suc, true, false, ◌≡◌, refl, Option, some, List, [], ◌∷◌, arith}
use pg_laswell.Base.Result.{ok, err}
use pg_laswell.Trust.Base64.{base64_decode, base64_encode, letters, data_after_padding}
use pg_laswell.Trust.Base64.RoundTrip
use pg_laswell.Trust.Gates.{
  Crypto, absent, text, SignatureEntry, SignatureCheck, signed_by, TrustPolicy, TrustedRow,
  verify_against_policy, verify_signer, same, is_accepted, find_key, check_entries, check_entry,
  by_algorithm, by_key, check_key, key_id_for, check_member, verdict, verify_ed25519, to_hex,
  prefix, check_rows, by_row, check_row,
}
use pg_laswell.Trust.Gates.Sound
use pg_laswell.Trust.Gates.Sound.{Among, Passed1}
use pg_laswell.Trust.Gates.Database
use pg_laswell.Trust.Gates.Database.{Passed2}

base64_decode-base64_encode_example :
    base64_decode (base64_encode (b'f' ∷ b'o' ∷ b'o' ∷ b'b' ∷ []))
    ≡ ok (b'f' ∷ b'o' ∷ b'o' ∷ b'b' ∷ [])
base64_decode-base64_encode_example =
    RoundTrip.base64_decode-base64_encode (b'f' ∷ b'o' ∷ b'o' ∷ b'b' ∷ [])
      (omega arith, (omega arith, (omega arith, (omega arith, tt))))

-- "Zm9v", and text behind padding within four characters.
decode-foo : base64_decode (b'Z' ∷ b'm' ∷ b'9' ∷ b'v' ∷ []) ≡ ok (b'f' ∷ b'o' ∷ b'o' ∷ [])
unfolding base64_decode
decode-foo = refl

decode_padding : base64_decode (b'Z' ∷ b'm' ∷ b'=' ∷ b'v' ∷ []) ≡ err data_after_padding
unfolding base64_decode
decode_padding = refl

-- Padding in the middle of a text is not refused: each four characters are read by themselves.
decode_two_texts :
    base64_decode (b'Z' ∷ b'g' ∷ b'=' ∷ b'=' ∷ b'Z' ∷ b'g' ∷ b'=' ∷ b'=' ∷ [])
    ≡ ok (b'f' ∷ b'f' ∷ [])
unfolding base64_decode
decode_two_texts = refl

abbrev zeros : ℕ → List ℕ
zeros zero = []
zeros (suc n) = 0 ∷ zeros n

-- A stand-in for OpenSSL: everything hashes to a zero, and a signature of zeros verifies.
abbrev zero_crypto : Crypto
zero_crypto = record {
  sha256 = λ _. 0 ∷ [];
  verifies = λ key message signature. same signature (zeros 64);
}

abbrev zero_id : List ℕ
zero_id = b'e' ∷ b'd' ∷ b'2' ∷ b'5' ∷ b'5' ∷ b'1' ∷ b'9' ∷ b':' ∷ b'0' ∷ b'0' ∷ []

abbrev policy : TrustPolicy
policy = record {
  accept = zero_id ∷ [];
  keys = (zero_id, record { public_key = zeros 32; label = b'o' ∷ b'p' ∷ b's' ∷ [] }) ∷ [];
}

abbrev signed : List SignatureEntry
signed =
    record {
      is_object = true;
      key_id = text zero_id;
      algorithm = absent;
      signature = text (base64_encode (zeros 64));
    }
    ∷ []

abbrev passed : SignatureCheck
passed = signed_by zero_id (b'o' ∷ b'p' ∷ b's' ∷ [])

verify_against_policy-signed :
    verify_against_policy zero_crypto policy (b'{' ∷ b'}' ∷ []) (some signed) ≡ ok passed
unfolding verify_against_policy check_entries check_entry by_algorithm by_key check_key key_id_for
    check_member verdict verify_ed25519 same is_accepted find_key to_hex prefix base64_decode
    base64_encode letters
verify_against_policy-signed = refl

verify_against_policy_sound_example :
    Among (Passed1 zero_crypto policy (b'{' ∷ b'}' ∷ []) passed) signed
verify_against_policy_sound_example =
    Sound.verify_against_policy_sound zero_crypto policy (b'{' ∷ b'}' ∷ []) signed passed
      verify_against_policy-signed refl

-- A database that holds the same key under every id.
abbrev trusting : List ℕ → Option TrustedRow
trusting _ = some (record { public_key = zeros 32; label = b'd' ∷ b'b' ∷ []; is_revoked = false })

verify_signer_sound_example :
    Among
      (Passed2 zero_crypto trusting
        (b'{' ∷ b'}' ∷ [])
        (verify_signer zero_crypto trusting (b'{' ∷ b'}' ∷ []) (some signed)))
      signed
unfolding verify_signer check_rows by_row check_row verdict verify_ed25519 same base64_decode
    base64_encode letters
verify_signer_sound_example =
    Database.verify_signer_sound zero_crypto trusting (b'{' ∷ b'}' ∷ []) signed refl
