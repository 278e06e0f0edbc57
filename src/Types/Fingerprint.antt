-- ===== src/Types/Fingerprint.antt =====
-- crates/ans-types/src/fingerprint.rs: SHA-256 fingerprints in their `SHA256:<hex>` form.
-- The hashes and the hex codec are other crates: a record of functions.
use ans_sdk_rust.Prelude.{ℕ, Bool, true, false, List, ◌++◌, Option, none, some, ◌==◌}
use ans_sdk_rust.Prelude.{◌≡◌, ◌=t◌, =t_iff, Option-cases, inl, inr, if◌then◌else◌, length, arith}
use ans_sdk_rust.Text.{Text, codes, strip_prefix}

pub record Crypto : Type 0 where
  pub sha256 : List ℕ → List ℕ
  pub sha512 : List ℕ → List ℕ
  pub hex_decode : Text → Option (List ℕ)
  pub hex_encode : List ℕ → Text

-- What is documented of `hex`: decoding inverts encoding.
pub record HexLaws (c : Crypto) : Type 0 where
  pub decode_encode : (b : List ℕ) → c.hex_decode (c.hex_encode b) ≡ some b

pub record CertFingerprint : Type 0 where
  pub bytes : List ℕ

-- `==`, in constant time in the source
abbrev pub fp_eq : CertFingerprint → CertFingerprint → Bool
fp_eq a b = a.bytes =t b.bytes

-- `strip_prefix("SHA256:").or_else(|| strip_prefix("sha256:"))`
strip_label : Text → Option Text
unfolding strip_prefix
strip_label s = elim (strip_prefix (codes "SHA256:") s) [
  | some rest ↦ some rest
  | none ↦ strip_prefix (codes "sha256:") s
]

abbrev sized : Option (List ℕ) → Option CertFingerprint
sized none = none
sized (some bytes) = if length bytes == 32 then some (record { bytes = bytes }) else none

module _ (c : Crypto) where
  unfoldable pub from_der : List ℕ → CertFingerprint
  from_der der = record { bytes = c.sha256 der }

  -- `none` is `CryptoError::InvalidFingerprint`.
  unfoldable pub parse : Text → Option CertFingerprint
  unfolding strip_label
  parse s = elim (strip_label s) [ none ↦ none | some hex ↦ sized (c.hex_decode hex) ]

  -- `Display`
  unfoldable pub to_string : CertFingerprint → Text
  to_string fp = codes "SHA256:" ++ c.hex_encode fp.bytes

  unfoldable pub matches : CertFingerprint → Text → Bool
  matches fp other = elim (parse other) [ none ↦ false | some parsed ↦ fp_eq fp parsed ]

  -- A fingerprint of 32 bytes is parsed back from its text.
  pub fingerprint_parse-to_string :
      HexLaws c → (fp : CertFingerprint) → length fp.bytes ≡ 32 → parse (to_string fp) ≡ some fp
  unfolding parse to_string
  fingerprint_parse-to_string laws fp h = ground (arith, laws.decode_encode fp.bytes)

  pub matches_sound :
      (fp : CertFingerprint) (other : Text) → matches fp other ≡ true → parse other ≡ some fp
  unfolding matches
  matches_sound fp other h = elim (Option-cases (parse other)) [
    | inl bad ↦ absurd (ground arith)
    | inr (parsed, good) ↦ ground (arith, =t_iff fp.bytes parsed.bytes)
  ]

  pub matches_complete :
      (fp : CertFingerprint) (other : Text) → parse other ≡ some fp → matches fp other ≡ true
  unfolding matches
  matches_complete fp other h = ground (arith, =t_iff fp.bytes fp.bytes)
