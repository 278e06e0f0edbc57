-- ===== src/Dane.antt =====
-- crates/ans-verify/src/dane.rs: DANE policies, TLSA records, and the check of a certificate
-- against them. Texts in errors are left out where they only explain.
pub mod Soundness
use ans_sdk_rust.Prelude.{
  ℕ, zero, suc, Bool, true, false, not, List, [], ◌∷◌, Option, none, some, ◌==◌,
}
use ans_sdk_rust.Prelude.{◌≡◌, refl, ◌=t◌, ltb, if◌then◌else◌, length, ◌&&◌}
use ans_sdk_rust.Text.{Text}
use ans_sdk_rust.Types.Fingerprint.{Crypto, CertFingerprint}
use ans_sdk_rust.Types.Fqdn.{Fqdn}
use ans_sdk_rust.Cert.{CertIdentity}
use ans_sdk_rust.Error.{DnsError, DaneError, no_tlsa_records, fingerprint_mismatch, invalid_record}
use ans_sdk_rust.Error.{Result, ok, err, ◌>>=◌}

pub data DanePolicy : Type 0 where
  disabled validate_if_present required : DanePolicy

abbrev pub should_verify : DanePolicy → Bool
should_verify disabled = false
should_verify _ = true

abbrev pub is_required : DanePolicy → Bool
is_required required = true
is_required _ = false

pub data TlsaUsage : Type 0 where
  ca_constraint service_certificate_constraint trust_anchor_assertion : TlsaUsage
  domain_issued_certificate : TlsaUsage

pub data TlsaSelector : Type 0 where
  full_certificate subject_public_key_info : TlsaSelector

pub data TlsaMatchingType : Type 0 where
  no_hash sha_256 sha_512 : TlsaMatchingType

-- The three `TryFrom<u8>`.
unfoldable pub usage_of : ℕ → Result DaneError TlsaUsage
usage_of zero = ok ca_constraint
usage_of (suc zero) = ok service_certificate_constraint
usage_of (suc (suc zero)) = ok trust_anchor_assertion
usage_of (suc (suc (suc zero))) = ok domain_issued_certificate
usage_of _ = err invalid_record

unfoldable pub selector_of : ℕ → Result DaneError TlsaSelector
selector_of zero = ok full_certificate
selector_of (suc zero) = ok subject_public_key_info
selector_of _ = err invalid_record

unfoldable pub matching_type_of : ℕ → Result DaneError TlsaMatchingType
matching_type_of zero = ok no_hash
matching_type_of (suc zero) = ok sha_256
matching_type_of (suc (suc zero)) = ok sha_512
matching_type_of _ = err invalid_record

pub record TlsaRecord : Type 0 where
  pub usage : TlsaUsage
  pub selector : TlsaSelector
  pub matching_type : TlsaMatchingType
  pub certificate_data : List ℕ

-- Three header bytes and at least one byte of data.
unfoldable pub from_rdata : List ℕ → Result DaneError TlsaRecord
unfolding usage_of selector_of matching_type_of
from_rdata (u ∷ s ∷ m ∷ d ∷ rest) = do
  usage ← usage_of u
  selector ← selector_of s
  matching_type ← matching_type_of m
  ok (record {
    usage = usage;
    selector = selector;
    matching_type = matching_type;
    certificate_data = d ∷ rest;
  })
from_rdata _ = err invalid_record

abbrev pub is_dane_ee : TlsaUsage → Bool
is_dane_ee domain_issued_certificate = true
is_dane_ee _ = false

abbrev pub is_full : TlsaSelector → Bool
is_full full_certificate = true
is_full subject_public_key_info = false

abbrev pub is_sha_256 : TlsaMatchingType → Bool
is_sha_256 sha_256 = true
is_sha_256 _ = false

abbrev pub is_evaluable : TlsaRecord → Bool
is_evaluable r = is_dane_ee r.usage

abbrev pub is_verifiable : TlsaRecord → Bool
is_verifiable r = is_dane_ee r.usage && is_full r.selector && is_sha_256 r.matching_type

unfoldable pub matches_fingerprint : TlsaRecord → CertFingerprint → Option Bool
matches_fingerprint r fp =
    if not (is_dane_ee r.usage)
    then none
    else if not (is_full r.selector)
    then none
    else if not (is_sha_256 r.matching_type)
    then none
    else some ((length r.certificate_data == length fp.bytes) && (r.certificate_data =t fp.bytes))

module _ (c : Crypto) where
  abbrev pub selected : TlsaSelector → List ℕ → List ℕ → List ℕ
  selected full_certificate raw_der spki_der = raw_der
  selected subject_public_key_info raw_der spki_der = spki_der

  abbrev pub association : TlsaMatchingType → List ℕ → List ℕ
  association no_hash bytes = bytes
  association sha_256 bytes = c.sha256 bytes
  association sha_512 bytes = c.sha512 bytes

  abbrev pub matches_data : TlsaRecord → List ℕ → Bool
  matches_data r expected =
      (length r.certificate_data == length expected) && (r.certificate_data =t expected)

  abbrev matches_der :
      TlsaRecord → CertFingerprint → Option (List ℕ) → Option (List ℕ) → Option Bool
  matches_der r fp (some raw_der) (some spki_der) =
      if not (is_dane_ee r.usage)
      then none
      else some
          (matches_data r (association r.matching_type (selected r.selector raw_der spki_der)))
  matches_der r fp _ _ = matches_fingerprint r fp

  unfoldable pub matches_cert : TlsaRecord → CertIdentity → Option Bool
  matches_cert r cert = matches_der r cert.fingerprint cert.raw_der cert.spki_der

pub data DaneVerificationResult : Type 0 where
  verified : TlsaRecord → DaneVerificationResult
  no_records : DaneVerificationResult
  mismatch : ℕ → DaneVerificationResult
  dnssec_failed : DaneVerificationResult
  skipped : DaneVerificationResult

abbrev pub is_acceptable : DaneVerificationResult → DanePolicy → Bool
is_acceptable (verified r) policy = true
is_acceptable skipped policy = true
is_acceptable no_records policy = not (is_required policy)
is_acceptable (mismatch n) policy = false
is_acceptable dnssec_failed policy = false

module _ (matches : TlsaRecord → Option Bool) where
  -- The loop over the records; the flag is `has_unsupported`.
  check_records : Bool → List TlsaRecord → Result DaneError DaneVerificationResult
  check_records unsupported [] =
      if unsupported then err invalid_record else err fingerprint_mismatch
  check_records unsupported (r ∷ rs) = elim (matches r) [
    | some true ↦ ok (verified r)
    | some false ↦ check_records unsupported rs
    | none ↦ check_records true rs
  ]

  unfoldable pub verify_dane_with :
      List TlsaRecord → DanePolicy → Fqdn → ℕ → Result DaneError DaneVerificationResult
  unfolding check_records
  verify_dane_with records policy fqdn port =
      if not (should_verify policy) then ok skipped else elim records [
        | [] ↦ if is_required policy then err (no_tlsa_records fqdn.name port) else ok no_records
        | r ∷ rs ↦ check_records false (r ∷ rs)
      ]

unfoldable pub verify_dane :
    List TlsaRecord
    → CertFingerprint
    → DanePolicy
    → Fqdn
    → ℕ
    → Result DaneError DaneVerificationResult
verify_dane records fp = verify_dane_with (λ r. matches_fingerprint r fp) records

unfoldable pub verify_dane_cert :
    Crypto
    → List TlsaRecord
    → CertIdentity
    → DanePolicy
    → Fqdn
    → ℕ
    → Result DaneError DaneVerificationResult
verify_dane_cert c records cert = verify_dane_with (λ r. matches_cert c r cert) records
