-- ===== src/Dane/Soundness.antt =====
-- What an accepted certificate has matched, and the TLSA wire form.
use ans_sdk_rust.Prelude.{
  ℕ, zero, suc, Bool, true, false, List, [], ◌∷◌, Option, none, some, arith, ◌≡◌, refl,
}
use ans_sdk_rust.Prelude.{Any, here, there, ◌≢◌, =t_iff, ◌↔◌, ◌⊎◌, inl, inr}
use ans_sdk_rust.Types.Fingerprint.{Crypto, from_der}
use ans_sdk_rust.Types.Fqdn.{Fqdn}
use ans_sdk_rust.Cert.{CertIdentity}
use ans_sdk_rust.Error.{DaneError, Result, ok, err}
use ans_sdk_rust.Dane.{
  DanePolicy, disabled, validate_if_present, required, TlsaUsage, ca_constraint,
  service_certificate_constraint, trust_anchor_assertion, domain_issued_certificate, TlsaSelector,
  full_certificate, subject_public_key_info, TlsaMatchingType, no_hash, sha_256, sha_512,
  TlsaRecord, usage_of, selector_of, matching_type_of, from_rdata, matches_fingerprint, selected,
  association, matches_cert, DaneVerificationResult, is_acceptable, check_records, verify_dane_with,
  verify_dane_cert, is_verifiable,
}

-- `Ok(result)` with `result.is_acceptable(policy)`: what `enforce_dane` lets pass.
abbrev pub accepts : DanePolicy → Result DaneError DaneVerificationResult → Bool
accepts policy (ok r) = is_acceptable r policy
accepts policy (err e) = false

Verdict-cases : (o : Option Bool) → (o ≡ some true) ⊎ ((o ≡ some false) ⊎ (o ≡ none))
Verdict-cases (some true) = inl refl
Verdict-cases (some false) = inr (inl refl)
Verdict-cases none = inr (inr refl)

module _ (matches : TlsaRecord → Option Bool) where
  check_records_sound :
      (unsupported : Bool) (policy : DanePolicy) (records : List TlsaRecord)
      → accepts policy (check_records matches unsupported records) ≡ true
      → Any (λ r. matches r ≡ some true) records
  unfolding check_records
  check_records_sound unsupported policy [] h = absurd (ground arith)
  check_records_sound unsupported policy (r ∷ rs) h = elim (Verdict-cases (matches r)) [
    | inl hit ↦ here hit
    | inr (inl miss) ↦
        there (check_records_sound unsupported policy rs (rw (miss, check_records) at h))
    | inr (inr odd) ↦ there (check_records_sound true policy rs (rw (odd, check_records) at h))
  ]

  check_records_complete :
      (unsupported : Bool) (policy : DanePolicy) (records : List TlsaRecord)
      → Any (λ r. matches r ≡ some true) records
      → accepts policy (check_records matches unsupported records) ≡ true
  unfolding check_records
  check_records_complete unsupported policy [] h = elim h [ ]
  check_records_complete unsupported policy (r ∷ rs) (here h) = rw (h, check_records)
  check_records_complete unsupported policy (r ∷ rs) (there h) = elim (Verdict-cases (matches r)) [
    | inl hit ↦ rw (hit, check_records)
    | inr (inl miss) ↦ rw (miss, check_records) (check_records_complete unsupported policy rs h)
    | inr (inr odd) ↦ rw (odd, check_records) (check_records_complete true policy rs h)
  ]

  -- When a policy lets the connection proceed.
  abbrev pub Admits : DanePolicy → List TlsaRecord → Type 0
  Admits disabled records = Unit
  Admits validate_if_present [] = Unit
  Admits validate_if_present (r ∷ rs) = Any (λ r. matches r ≡ some true) (r ∷ rs)
  Admits required records = Any (λ r. matches r ≡ some true) records

  verify_dane_with_sound :
      (records : List TlsaRecord) (policy : DanePolicy) (fqdn : Fqdn) (port : ℕ)
      → accepts policy (verify_dane_with matches records policy fqdn port) ≡ true
      → Admits policy records
  unfolding verify_dane_with
  verify_dane_with_sound records disabled fqdn port h = tt
  verify_dane_with_sound [] validate_if_present fqdn port h = tt
  verify_dane_with_sound (r ∷ rs) validate_if_present fqdn port h =
      check_records_sound false validate_if_present (r ∷ rs) h
  verify_dane_with_sound [] required fqdn port h = absurd (ground arith)
  verify_dane_with_sound (r ∷ rs) required fqdn port h =
      check_records_sound false required (r ∷ rs) h

  verify_dane_with_complete :
      (records : List TlsaRecord) (policy : DanePolicy) (fqdn : Fqdn) (port : ℕ)
      → Admits policy records
      → accepts policy (verify_dane_with matches records policy fqdn port) ≡ true
  unfolding verify_dane_with
  verify_dane_with_complete records disabled fqdn port h = refl
  verify_dane_with_complete [] validate_if_present fqdn port h = refl
  verify_dane_with_complete (r ∷ rs) validate_if_present fqdn port h =
      check_records_complete false validate_if_present (r ∷ rs) h
  verify_dane_with_complete [] required fqdn port h = elim h [ ]
  verify_dane_with_complete (r ∷ rs) required fqdn port h =
      check_records_complete false required (r ∷ rs) h

-- A DANE check of a certificate lets the connection proceed exactly when the policy is disabled,
-- or it is validate-if-present and there is no TLSA record, or some record matches the
-- certificate: neither the order of the records nor unsupported ones beside it matter.
pub verify_dane_cert_iff :
    (c : Crypto) (records : List TlsaRecord) (cert : CertIdentity) (policy : DanePolicy)
    (fqdn : Fqdn) (port : ℕ)
    → (accepts policy (verify_dane_cert c records cert policy fqdn port) ≡ true)
      ↔ Admits (λ r. matches_cert c r cert) policy records
unfolding verify_dane_cert
verify_dane_cert_iff c records cert policy fqdn port = (
  verify_dane_with_sound (λ r. matches_cert c r cert) records policy fqdn port,
  verify_dane_with_complete (λ r. matches_cert c r cert) records policy fqdn port,
)

-- For a certificate whose DER is known, a record matches exactly when it is a DANE-EE record
-- whose data is the selected part of the certificate under the record's own matching type.
pub matches_cert_iff :
    (c : Crypto) (r : TlsaRecord) (cert : CertIdentity) (der spki : List ℕ)
    → cert.raw_der ≡ some der
    → cert.spki_der ≡ some spki
    → (matches_cert c r cert ≡ some true) ↔ (
        (r.usage ≡ domain_issued_certificate)
        × (r.certificate_data ≡ association c r.matching_type (selected c r.selector der spki)))
unfolding matches_cert
matches_cert_iff c r cert der spki hd hs =
    let expected = association c r.matching_type (selected c r.selector der spki) in
    ground (arith, =t_iff r.certificate_data expected)

-- On a record of the `3 0 1` form, the comparison by DER and the comparison by fingerprint
-- agree, for a certificate whose fingerprint is computed from its DER.
pub matches_cert-eq-matches_fingerprint :
    (c : Crypto) (r : TlsaRecord) (cert : CertIdentity) (der spki : List ℕ)
    → cert.raw_der ≡ some der
    → cert.spki_der ≡ some spki
    → cert.fingerprint ≡ from_der c der
    → is_verifiable r ≡ true
    → matches_cert c r cert ≡ matches_fingerprint r cert.fingerprint
unfolding matches_cert matches_fingerprint from_der
matches_cert-eq-matches_fingerprint c r cert der spki hd hs hf hv = ground arith

-- The wire form of a record.
usage_code : TlsaUsage → ℕ
usage_code ca_constraint = 0
usage_code service_certificate_constraint = 1
usage_code trust_anchor_assertion = 2
usage_code domain_issued_certificate = 3

selector_code : TlsaSelector → ℕ
selector_code full_certificate = 0
selector_code subject_public_key_info = 1

matching_type_code : TlsaMatchingType → ℕ
matching_type_code no_hash = 0
matching_type_code sha_256 = 1
matching_type_code sha_512 = 2

pub to_rdata : TlsaRecord → List ℕ
unfolding usage_code selector_code matching_type_code
to_rdata r =
    usage_code r.usage
    ∷ selector_code r.selector
    ∷ matching_type_code r.matching_type
    ∷ r.certificate_data

usage_of_code : (u : ℕ) {x : TlsaUsage} → usage_of u ≡ ok x → usage_code x ≡ u
unfolding usage_of usage_code
usage_of_code zero h = ground arith
usage_of_code (suc zero) h = ground arith
usage_of_code (suc (suc zero)) h = ground arith
usage_of_code (suc (suc (suc zero))) h = ground arith
usage_of_code (suc (suc (suc (suc n)))) h = absurd (ground arith)

selector_of_code : (s : ℕ) {x : TlsaSelector} → selector_of s ≡ ok x → selector_code x ≡ s
unfolding selector_of selector_code
selector_of_code zero h = ground arith
selector_of_code (suc zero) h = ground arith
selector_of_code (suc (suc n)) h = absurd (ground arith)

matching_type_of_code :
    (m : ℕ) {x : TlsaMatchingType} → matching_type_of m ≡ ok x → matching_type_code x ≡ m
unfolding matching_type_of matching_type_code
matching_type_of_code zero h = ground arith
matching_type_of_code (suc zero) h = ground arith
matching_type_of_code (suc (suc zero)) h = ground arith
matching_type_of_code (suc (suc (suc n))) h = absurd (ground arith)

from_rdata_sound :
    (d : List ℕ) (r : TlsaRecord)
    → from_rdata d ≡ ok r
    → (to_rdata r ≡ d) × (r.certificate_data ≢ [])
unfolding from_rdata to_rdata
from_rdata_sound (u ∷ s ∷ m ∷ d ∷ rest) r h =
    ground (arith, usage_of_code u, selector_of_code s, matching_type_of_code m)
from_rdata_sound _ r h = absurd (ground arith)

from_rdata_complete : (r : TlsaRecord) → r.certificate_data ≢ [] → from_rdata (to_rdata r) ≡ ok r
unfolding from_rdata to_rdata
from_rdata_complete r h = ground arith

-- A TLSA record is decoded exactly from its wire form with at least one byte of data: usage,
-- selector and matching type in range, then the data.
pub from_rdata_iff :
    (d : List ℕ) (r : TlsaRecord)
    → (from_rdata d ≡ ok r) ↔ ((to_rdata r ≡ d) × (r.certificate_data ≢ []))
from_rdata_iff d r = (from_rdata_sound d r, λ (e, h). rw (← e) (from_rdata_complete r h))
