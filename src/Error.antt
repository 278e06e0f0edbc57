-- ===== src/Error.antt =====
-- crates/ans-verify/src/error.rs, crates/ans-types/src/error.rs: the errors, and results.
-- A message that only explains an error is left out; a field that names a host, a value or a
-- status is kept.
use ans_sdk_rust.Prelude.{ℕ, Bool, true, false, List, ◌≡◌, refl, ◌⊎◌, inl, inr}
use ans_sdk_rust.Prelude.Int.{ℤ}
use ans_sdk_rust.Text.{Text}
use ans_sdk_rust.Types.Badge.{BadgeStatus}

pub data Result {ℓ κ} (E : Type ℓ) (A : Type κ) : Type (ℓ ⊔ κ) where
  ok : A → Result E A
  err : E → Result E A

infixl 5 ◌>>=◌
abbrev pub ◌>>=◌ {ℓ κ μ} :
    {E : Type ℓ} {A : Type κ} {B : Type μ} → Result E A → (A → Result E B) → Result E B
ok a >>= f = f a
err e >>= f = err e

pub data ParseError : Type 0 where
  invalid_fqdn invalid_version invalid_ans_name invalid_url missing_field bad_record : ParseError

pub data CryptoError : Type 0 where
  invalid_der parse_failed no_common_name no_uri_san : CryptoError
  invalid_fingerprint missing_extension : Text → CryptoError

pub data DnsError : Type 0 where
  not_found lookup_failed timeout dnssec_failed : Text → DnsError
  invalid_format resolver_error : DnsError

pub data TlogError : Type 0 where
  http_error service_unavailable status_unknown : TlogError
  url_not_found : Text → TlogError
  invalid_response invalid_tl_url invalid_header : TlogError
  untrusted_domain : Text → List Text → TlogError

pub data DaneError : Type 0 where
  no_tlsa_records : Text → ℕ → DaneError
  fingerprint_mismatch : DaneError
  dnssec_validation_failed dnssec_not_present : Text → DaneError
  invalid_record : DaneError
  dns : DnsError → DaneError

-- `is_unavailable`: the failures that say nothing about the agent.
abbrev pub dns_unavailable : DnsError → Bool
dns_unavailable (lookup_failed _) = true
dns_unavailable (timeout _) = true
dns_unavailable _ = false

abbrev pub tlog_unavailable : TlogError → Bool
tlog_unavailable http_error = true
tlog_unavailable service_unavailable = true
tlog_unavailable status_unknown = true
tlog_unavailable _ = false

pub data VerificationError : Type 0 where
  invalid_status : BadgeStatus → VerificationError
  cert_fingerprint_mismatch hostname_mismatch ans_name_mismatch : Text → Text → VerificationError
  no_matching_badge : Text → VerificationError
  untrusted_certificate : VerificationError
  dane_verification_failed : DaneError → VerificationError
  configuration : VerificationError

-- crates/ans-verify/src/scitt/error.rs
pub data ScittError : Type 0 where
  oversized_input invalid_array_length invalid_signature_length : ℕ → ScittError
  not_a_cose_sign1 cbor_decode_error invalid_protected_header unsupported_algorithm : ScittError
  missing_kid signature_invalid invalid_receipt_identity identity_binding : ScittError
  invalid_merkle_proof merkle_root_mismatch missing_token_field : ScittError
  unknown_key_id : List ℕ → ScittError
  issuer_mismatch host_mismatch : Text → Text → ScittError
  token_expired : ℤ → ℤ → ScittError
  terminal_status : BadgeStatus → ScittError
  invalid_key_format key_hash_mismatch invalid_public_key scitt_invalid_url : ScittError
  untrusted_key_domain : Text → List Text → ScittError
  unexpected_http_status : ℕ → Text → ScittError
  scitt_http_error base64_decode : ScittError
  agent_not_found agent_terminal not_supported : Text → ScittError

abbrev pub is_terminal_status : ScittError → Bool
is_terminal_status (terminal_status _) = true
is_terminal_status (agent_terminal _) = true
is_terminal_status _ = false

pub data AnsError : Type 0 where
  dns_failed : DnsError → AnsError
  transparency_log : TlogError → AnsError
  certificate : CryptoError → AnsError
  verification : VerificationError → AnsError
  parse : ParseError → AnsError
  scitt : ScittError → AnsError

pub Result-cases {ℓ κ} :
    {E : Type ℓ} {A : Type κ} (r : Result E A) → ((a : A) × (r ≡ ok a)) ⊎ ((e : E) × (r ≡ err e))
Result-cases (ok a) = inl (a, refl)
Result-cases (err e) = inr (e, refl)
