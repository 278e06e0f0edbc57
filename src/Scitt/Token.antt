-- ===== src/Scitt/Token.antt =====
-- crates/ans-types/src/scitt.rs: the data of a verified status token and its tiers.
use ans_sdk_rust.Prelude.{ℕ, Bool, true, false, List, any}
use ans_sdk_rust.Prelude.Int.{ℤ}
use ans_sdk_rust.Text.{Text}
use ans_sdk_rust.Types.AnsName.{AnsName}
use ans_sdk_rust.Types.Badge.{BadgeStatus}
use ans_sdk_rust.Types.Fingerprint.{CertFingerprint, fp_eq}

pub data VerificationTier : Type 0 where
  badge_only status_token_verified full_scitt : VerificationTier

abbrev pub has_receipt : VerificationTier → Bool
has_receipt full_scitt = true
has_receipt _ = false

-- The certificate type is a label: kept as its text.
pub record CertEntry : Type 0 where
  pub fingerprint : CertFingerprint
  pub cert_type : Text

pub record StatusTokenPayload : Type 0 where
  pub agent_id : Text
  pub status : BadgeStatus
  pub iat : ℤ
  pub exp : ℤ
  pub ans_name : AnsName
  pub valid_identity_certs : List CertEntry
  pub valid_server_certs : List CertEntry
  pub metadata_hashes : List (Text × Text)

pub record VerifiedStatusToken : Type 0 where
  pub payload : StatusTokenPayload
  pub key_id : List ℕ

unfoldable pub matches_server_cert : StatusTokenPayload → CertFingerprint → Bool
matches_server_cert p fp = any (λ entry. fp_eq entry.fingerprint fp) p.valid_server_certs

unfoldable pub matches_identity_cert : StatusTokenPayload → CertFingerprint → Bool
matches_identity_cert p fp = any (λ entry. fp_eq entry.fingerprint fp) p.valid_identity_certs
