-- ===== src/Trust/Entries.antt =====
-- cpp/src/trust.h: what the two gates read and answer, and the texts that they compare. Texts are
-- their bytes, and the JSON entries of a specification are their members as they are found.
use pg_laswell.Base.{
  ℕ, ◌+◌, ◌-◌, ◌/◌, ◌%◌, Bool, true, false, ◌&&◌, ◌||◌, Option, none, some, List, [], ◌∷◌, ltb,
  nat_eq, if◌then◌else◌,
}
use pg_laswell.Base.Result.{Result, ok, err}
use pg_laswell.Trust.Base64.{Base64Error}

-- `verifies` is whether EVP_DigestVerify answers 1.
pub record Crypto : Type 0 where
  pub sha256 : List ℕ → List ℕ
  pub verifies : List ℕ → List ℕ → List ℕ → Bool

-- A member of an entry: not there, a string, or something else.
pub data Member : Type 0 where
  absent other : Member
  text : List ℕ → Member

pub record SignatureEntry : Type 0 where
  pub is_object : Bool
  pub key_id : Member
  pub algorithm : Member
  pub signature : Member

pub data Reason : Type 0 where
  not_configured no_signatures no_key_id : Reason
  unsupported_algorithm key_mismatch no_signature does_not_verify revoked : List ℕ → Reason
  not_base64 : List ℕ → Option Base64Error → Reason
  not_accepted : List (List ℕ) → Reason

-- What is thrown to the caller: by `key_id_for`, and by `value` of a member of another type.
pub data TrustError : Type 0 where
  wrong_key_size : ℕ → TrustError
  wrong_type : TrustError

-- `reason` is set only when `verified` is false.
pub record SignatureCheck : Type 0 where
  pub verified : Bool
  pub not_configured : Bool
  pub key_id : List ℕ
  pub label : List ℕ
  pub reason : Option Reason

abbrev pub refused : Reason → SignatureCheck
refused why = record {
  verified = false;
  not_configured = false;
  key_id = [];
  label = [];
  reason = some why;
}

abbrev pub unchecked : SignatureCheck
unchecked = record (refused Reason.not_configured) { not_configured = true }

abbrev pub signed_by : List ℕ → List ℕ → SignatureCheck
signed_by key_id label = record {
  verified = true;
  not_configured = false;
  key_id = key_id;
  label = label;
  reason = none;
}

unfoldable pub same : List ℕ → List ℕ → Bool
same [] [] = true
same [] (y ∷ ys) = false
same (x ∷ xs) [] = false
same (x ∷ xs) (y ∷ ys) = nat_eq x y && same xs ys

abbrev pub hex_digit : ℕ → ℕ
hex_digit d = if ltb d 10 then d + 48 else d + 87

unfoldable pub to_hex : List ℕ → List ℕ
to_hex [] = []
to_hex (b ∷ bs) = hex_digit (b / 16 % 16) ∷ hex_digit (b % 16) ∷ to_hex bs

-- `substr(0, n)`
unfoldable pub prefix : ℕ → List ℕ → List ℕ
prefix n [] = []
prefix n (b ∷ bs) = let rest = prefix (n - 1) bs in if nat_eq n 0 then [] else b ∷ rest

abbrev pub ed25519_name : List ℕ
ed25519_name = b'e' ∷ b'd' ∷ b'2' ∷ b'5' ∷ b'5' ∷ b'1' ∷ b'9' ∷ []

-- The key of a policy under its id, and a row of laswell.trusted_key.
pub record TrustedKey : Type 0 where
  pub public_key : List ℕ
  pub label : List ℕ

pub record TrustedRow : Type 0 where
  pub public_key : List ℕ
  pub label : List ℕ
  pub is_revoked : Bool

pub record TrustPolicy : Type 0 where
  pub accept : List (List ℕ)
  pub keys : List (List ℕ × TrustedKey)

unfoldable pub is_accepted : List (List ℕ) → List ℕ → Bool
is_accepted [] key_id = false
is_accepted (k ∷ ks) key_id = same k key_id || is_accepted ks key_id

-- `keys.find`
unfoldable pub find_key : List (List ℕ × TrustedKey) → List ℕ → Option TrustedKey
find_key [] key_id = none
find_key ((k, key) ∷ keys) key_id =
    let rest = find_key keys key_id in if same k key_id then some key else rest

-- A string under "key_id" of an object.
abbrev pub id_in : Bool → Member → Option (List ℕ)
id_in true (text k) = some k
id_in _ _ = none

-- `value("algorithm", "ed25519")`
abbrev pub algorithm_of : Member → Result TrustError (List ℕ)
algorithm_of absent = ok ed25519_name
algorithm_of other = err wrong_type
algorithm_of (text a) = ok a
