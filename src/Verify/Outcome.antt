-- ===== src/Verify/Outcome.antt =====
-- crates/ans-verify/src/verify.rs: `VerificationOutcome`, and the check of a certificate against
-- one badge.
pub mod Results
use ans_sdk_rust.Prelude.{Bool, true, false, not, [], Option, none, some, any, if◌then◌else◌, ◌=t◌}
use ans_sdk_rust.Text.{Text, eq_ignore_ascii_case}
use ans_sdk_rust.Error.{
  Result, ok, err, ParseError, CryptoError, DnsError, not_found, TlogError, DaneError, ScittError,
  is_terminal_status, AnsError, dns_failed, transparency_log, certificate, verification, parse,
  scitt, invalid_status, cert_fingerprint_mismatch, hostname_mismatch, ans_name_mismatch,
  dane_verification_failed, configuration,
}
use ans_sdk_rust.Cert.{CertIdentity, cert_fqdn}
use ans_sdk_rust.Types.Badge.{
  Badge, BadgeStatus, is_valid_for_connection, should_reject, server_cert_fingerprints,
  identity_cert_fingerprints, server_cert_fingerprint, identity_cert_fingerprint, agent_host,
  agent_name,
}
use ans_sdk_rust.Types.AnsName
use ans_sdk_rust.Types.AnsName.{AnsName}
use ans_sdk_rust.Types.Fingerprint
use ans_sdk_rust.Types.Fingerprint.{Crypto, CertFingerprint, matches}
use ans_sdk_rust.Types.Fqdn.{Fqdn}
use ans_sdk_rust.Scitt.Token.{VerifiedStatusToken, VerificationTier}

pub data VerificationOutcome : Type 0 where
  verified : Badge → CertFingerprint → VerificationOutcome
  not_ans_agent : Text → VerificationOutcome
  bad_status : BadgeStatus → Badge → VerificationOutcome
  -- expected, actual
  wrong_fingerprint wrong_hostname wrong_ans_name : Text → Text → Badge → VerificationOutcome
  dns_error : DnsError → VerificationOutcome
  tlog_error : TlogError → VerificationOutcome
  cert_error : CryptoError → VerificationOutcome
  parse_error : ParseError → VerificationOutcome
  dane_error : DaneError → VerificationOutcome
  scitt_verified :
      VerifiedStatusToken → VerificationTier → CertFingerprint → Option Badge → VerificationOutcome
  scitt_error : ScittError → VerificationOutcome

abbrev pub is_success : VerificationOutcome → Bool
is_success (verified _ _) = true
is_success (scitt_verified _ _ _ _) = true
is_success _ = false

-- `is_terminal_status`
abbrev pub is_terminal : VerificationOutcome → Bool
is_terminal (bad_status status _) = should_reject status
is_terminal (scitt_error e) = is_terminal_status e
is_terminal _ = false

-- `badge`
abbrev pub badge_of : VerificationOutcome → Option Badge
badge_of (verified b _) = some b
badge_of (bad_status _ b) = some b
badge_of (wrong_fingerprint _ _ b) = some b
badge_of (wrong_hostname _ _ b) = some b
badge_of (wrong_ans_name _ _ b) = some b
badge_of (scitt_verified _ _ _ b) = b
badge_of _ = none

unfoldable pub into_result : VerificationOutcome → Result AnsError Badge
into_result (verified b _) = ok b
into_result (not_ans_agent fqdn) = err (dns_failed (not_found fqdn))
into_result (bad_status status _) = err (verification (invalid_status status))
into_result (wrong_fingerprint e a _) = err (verification (cert_fingerprint_mismatch e a))
into_result (wrong_hostname e a _) = err (verification (hostname_mismatch e a))
into_result (wrong_ans_name e a _) = err (verification (ans_name_mismatch e a))
into_result (dns_error e) = err (dns_failed e)
into_result (tlog_error e) = err (transparency_log e)
into_result (cert_error e) = err (certificate e)
into_result (parse_error e) = err (parse e)
into_result (dane_error e) = err (verification (dane_verification_failed e))
into_result (scitt_verified _ _ _ (some b)) = ok b
into_result (scitt_verified _ _ _ none) = err (verification configuration)
into_result (scitt_error e) = err (scitt e)

abbrev map_some : Result AnsError Badge → Result AnsError (Option Badge)
map_some (ok b) = ok (some b)
map_some (err e) = err e

unfoldable pub into_scitt_result : VerificationOutcome → Result AnsError (Option Badge)
unfolding into_result
into_scitt_result (verified b _) = ok (some b)
into_scitt_result (scitt_verified _ _ _ b) = ok b
into_scitt_result other = map_some (into_result other)

-- `cert.fqdn().unwrap_or("")`
abbrev pub text_or_empty : Option Text → Text
text_or_empty none = []
text_or_empty (some t) = t

module _ (c : Crypto) where
  unfoldable pub verify_against_badge : Badge → CertIdentity → Fqdn → Bool → VerificationOutcome
  verify_against_badge badge cert dialed is_server =
      if not (is_valid_for_connection badge.status)
      then bad_status badge.status badge
      else let expected =
          if is_server then server_cert_fingerprint badge else identity_cert_fingerprint badge in
        let fingerprint_matches = any (matches c cert.fingerprint) (
          if is_server then server_cert_fingerprints badge else identity_cert_fingerprints badge) in
        let cert_host = text_or_empty (cert_fqdn cert) in
        if not fingerprint_matches
        then wrong_fingerprint expected (Fingerprint.to_string c cert.fingerprint) badge
        else if not (eq_ignore_ascii_case (agent_host badge) dialed.name)
        then wrong_hostname dialed.name (agent_host badge) badge
        else if not (eq_ignore_ascii_case cert_host dialed.name)
        then wrong_hostname dialed.name cert_host badge
        else verified badge cert.fingerprint

  unfoldable pub verify_client_against_badge : Badge → CertIdentity → AnsName → VerificationOutcome
  verify_client_against_badge badge cert ans_name =
      let actual_host = text_or_empty (cert_fqdn cert) in
      if not (is_valid_for_connection badge.status)
      then bad_status badge.status badge
      else if not (any (matches c cert.fingerprint) (identity_cert_fingerprints badge))
      then wrong_fingerprint (identity_cert_fingerprint badge)
          (Fingerprint.to_string c cert.fingerprint) badge
      else if not (eq_ignore_ascii_case actual_host (agent_host badge))
      then wrong_hostname (agent_host badge) actual_host badge
      else if not (AnsName.to_string ans_name =t agent_name badge)
      then wrong_ans_name (agent_name badge) (AnsName.to_string ans_name) badge
      else verified badge cert.fingerprint
