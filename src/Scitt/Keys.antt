-- ===== src/Scitt/Keys.antt =====
-- crates/ans-verify/src/scitt/root_keys.rs: trusted keys, their store and its scope. The curve and
-- base64 are crates. The bytes of a name are its codes: names are domains.
pub mod Scope
use ans_sdk_rust.Prelude.{
  ℕ, zero, suc, ◌-◌, ◌/◌, ◌%◌, Bool, true, false, not, ◌&&◌, ◌||◌, List, [], ◌∷◌, ◌++◌, map, length,
  Option, none, some, if◌then◌else◌, ◌==◌, ◌=t◌, ltb, text_eq, lookup, insert, sort_by,
}
use ans_sdk_rust.Text.{Text, codes, is_empty, byte_len, splitn}
use ans_sdk_rust.Error.{
  Result, ok, err, ◌>>=◌, ScittError, unknown_key_id, invalid_key_format, key_hash_mismatch,
  invalid_public_key,
}
use ans_sdk_rust.Results.{ok_or, fail_if}
use ans_sdk_rust.Types.Fingerprint.{Crypto}

-- The crates p256 and base64; `none` where they return an error.
pub record KeyCrates (Key : Type 0) : Type 0 where
  pub base64_decode : Text → Option (List ℕ)
  pub key_from_der : List ℕ → Option Key
  -- `to_sec1_point(false)`
  pub point : Key → List ℕ
  pub signature_from_slice : List ℕ → Option (List ℕ)
  pub verify_p256_sha256 : Key → List ℕ → List ℕ → Bool

pub record TrustedKey (Key : Type 0) : Type 0 where
  pub name : Text
  pub kid : List ℕ
  pub key : Key

abbrev pub KeyMap : Type 0 → Type 0
KeyMap Key = List (List ℕ × TrustedKey Key)

pub record ScittKeyStore (Key : Type 0) : Type 0 where
  pub keys : KeyMap Key
  pub trust_scope : List ℕ

abbrev pub max_spki_base64_len : ℕ
max_spki_base64_len = 1024

abbrev pub take {ℓ} : {A : Type ℓ} → ℕ → List A → List A
take zero xs = []
take (suc n) [] = []
take (suc n) (x ∷ xs) = x ∷ take n xs

-- The order of byte arrays.
unfoldable pub bytes_lt : List ℕ → List ℕ → Bool
bytes_lt xs [] = false
bytes_lt [] (y ∷ ys) = true
bytes_lt (x ∷ xs) (y ∷ ys) =
    let rest = bytes_lt xs ys in if ltb x y then true else if x == y then rest else false

-- `to_be_bytes`, in so many bytes.
abbrev pub be_bytes : ℕ → ℕ → List ℕ
be_bytes zero n = []
be_bytes (suc w) n = be_bytes w (n / 256) ++ (n % 256) ∷ []

-- The type byte of a signed note is dropped.
abbrev pub strip_type : List ℕ → List ℕ
strip_type [] = []
strip_type (b ∷ []) = b ∷ []
strip_type (b ∷ x ∷ rest) = if b == 2 then x ∷ rest else b ∷ x ∷ rest

abbrev pub three_parts : List Text → Option (Text × (Text × Text))
three_parts (name ∷ hash ∷ spki ∷ []) = some (name, (hash, spki))
three_parts _ = none

module _ {Key : Type 0} (c : Crypto) (crates : KeyCrates Key) where
  unfoldable pub parse_c2sp_key : Text → Result ScittError (TrustedKey Key)
  parse_c2sp_key key_string = do
    parts ← ok_or invalid_key_format (three_parts (splitn 3 b'+' key_string))
    _ ← fail_if (is_empty parts.0) invalid_key_format
    kid ← ok_or invalid_key_format (c.hex_decode parts.1.0)
    _ ← fail_if (not (length kid == 4)) invalid_key_format
    _ ← fail_if (ltb max_spki_base64_len (byte_len parts.1.1)) invalid_key_format
    decoded ← ok_or invalid_key_format (crates.base64_decode parts.1.1)
    _ ← fail_if (not (take 4 (c.sha256 (strip_type decoded)) =t kid)) key_hash_mismatch
    key ← ok_or invalid_public_key (crates.key_from_der (strip_type decoded))
    ok (record { name = parts.0; kid = kid; key = key })

  abbrev pub key_bytes : TrustedKey Key → List ℕ
  key_bytes k = k.kid ++ (be_bytes 8 (length k.name) ++ (k.name ++ crates.point k.key))

  abbrev pub concat_keys : List (TrustedKey Key) → List ℕ
  concat_keys [] = []
  concat_keys (k ∷ ks) = key_bytes k ++ concat_keys ks

  abbrev pub kid_lt : TrustedKey Key → TrustedKey Key → Bool
  kid_lt a b = bytes_lt a.kid b.kid

  abbrev pub ordered : KeyMap Key → List (TrustedKey Key)
  ordered keys = sort_by kid_lt (map (λ e. e.1) keys)

  -- What the scope is the digest of. Its label ends with a zero byte.
  abbrev pub scope_input : KeyMap Key → List ℕ
  scope_input keys = codes "ANS-6 trusted key store" ++ 0 ∷ concat_keys (ordered keys)

  unfoldable pub from_keys : KeyMap Key → ScittKeyStore Key
  from_keys keys = record { keys = keys; trust_scope = c.sha256 (scope_input keys) }

  abbrev pub add_parsed : Result ScittError (TrustedKey Key) → KeyMap Key → KeyMap Key
  add_parsed (ok k) keys = insert k.kid k keys
  add_parsed (err e) keys = keys

  unfoldable pub read_keys : List Text → KeyMap Key → KeyMap Key
  read_keys [] keys = keys
  read_keys (t ∷ ts) keys = read_keys ts (add_parsed (parse_c2sp_key t) keys)

  unfoldable pub from_c2sp_keys : List Text → Result ScittError (ScittKeyStore Key)
  unfolding from_keys read_keys
  from_c2sp_keys key_strings =
      let keys = read_keys key_strings [] in
      if is_empty keys then err invalid_key_format else ok (from_keys keys)

  unfoldable pub artifact_cache_key : ScittKeyStore Key → List ℕ → List ℕ
  artifact_cache_key store b = c.sha256 (store.trust_scope ++ b)

  unfoldable pub get_key : ScittKeyStore Key → List ℕ → Result ScittError (TrustedKey Key)
  get_key store kid = ok_or (unknown_key_id kid) (lookup kid store.keys)

  -- An occupied entry is kept.
  abbrev pub merge_one : Option (TrustedKey Key) → TrustedKey Key → KeyMap Key → KeyMap Key
  merge_one (some existing) k keys = keys
  merge_one none k keys = insert k.kid k keys

  abbrev pub merge_parsed : Result ScittError (TrustedKey Key) → KeyMap Key → KeyMap Key
  merge_parsed (ok k) keys = merge_one (lookup k.kid keys) k keys
  merge_parsed (err e) keys = keys

  unfoldable pub merge_keys : List Text → KeyMap Key → KeyMap Key
  merge_keys [] keys = keys
  merge_keys (t ∷ ts) keys = merge_keys ts (merge_parsed (parse_c2sp_key t) keys)

  unfoldable pub merge_from : ScittKeyStore Key → List Text → ScittKeyStore Key
  unfolding from_keys merge_keys
  merge_from store additional_key_strings = from_keys (merge_keys additional_key_strings store.keys)
