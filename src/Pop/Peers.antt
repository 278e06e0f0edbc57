-- ===== src/Pop/Peers.antt =====
-- crates/ans-verify/src/pop/caller.rs: who a caller is, the options of its authentication, and the
-- checks of hosts and authorities.
use ans_sdk_rust.Prelude.{ℕ, Bool, true, not, List, [], ◌∷◌, Option, none, some, ◌=t◌, any}
use ans_sdk_rust.Prelude.Int.{ℤ}
use ans_sdk_rust.Text.{Text, codes, trim, to_lowercase, eq_ignore_ascii_case, strip_suffix}
use ans_sdk_rust.Error.{Result, ok, err, ScittError, ParseError, identity_binding}
use ans_sdk_rust.Results.{fail_if}
use ans_sdk_rust.Types.AnsName
use ans_sdk_rust.Types.AnsName.{AnsName}
use ans_sdk_rust.Types.Fingerprint.{CertFingerprint}
use ans_sdk_rust.Pop.Errors.{PopErrorKind, receipt_invalid, binding_failed, expected_peer_mismatch}

pub record CallerIdentity : Type 0 where
  pub ans_name : AnsName
  pub agent_id : Text
  pub fingerprint : CertFingerprint
  pub jkt : Text

-- Without the cache, which is part of the state. Durations are in whole seconds.
pub record VerifyCallerOptions : Type 0 where
  pub require_receipt : Bool
  pub allowed_ans_names : List Text
  pub trusted_authorities : List Text
  pub pop_skew : Option ℕ
  pub status_skew : Option ℕ
  pub now : Option ℤ
  pub access_token : Option Text
  pub content_sha256 : Option (List ℕ)

abbrev pub default_options : VerifyCallerOptions
default_options = record {
  require_receipt = true;
  allowed_ans_names = [];
  trusted_authorities = [];
  pop_skew = none;
  status_skew = none;
  now = none;
  access_token = none;
  content_sha256 = none;
}

abbrev pub default_status_skew : ℕ
default_status_skew = 60

-- crates/ans-verify/src/pop/proof.rs
abbrev or_stripped : Option Text → Text → Text
or_stripped none s = s
or_stripped (some stripped) s = stripped

abbrev without_port : Text → Text
without_port host =
    or_stripped (strip_suffix (codes ":443") host)
      (or_stripped (strip_suffix (codes ":80") host) host)

unfoldable pub normalize_authority : Text → Text
normalize_authority host = without_port (to_lowercase (trim host))

abbrev host_or_text : Text → Result ParseError AnsName → Text
host_or_text n (ok ans) = to_lowercase ans.fqdn.name
host_or_text n (err e) = to_lowercase (trim n)

unfoldable pub allowed_host : Text → Text
allowed_host n = host_or_text n (AnsName.parse n)

-- The certificate names an agent of this host.
unfoldable pub check_cert_host : Option AnsName → Text → Result PopErrorKind (Unit {0})
check_cert_host none host = err binding_failed
check_cert_host (some cert_ans) host =
    fail_if (not (eq_ignore_ascii_case cert_ans.fqdn.name host)) binding_failed

unfoldable pub check_allowed : List Text → Text → Result PopErrorKind (Unit {0})
check_allowed [] host = ok tt
check_allowed (n ∷ names) host =
    fail_if (not (any (λ m. allowed_host m =t to_lowercase host) (n ∷ names)))
      expected_peer_mismatch

abbrev pub binding_error : ScittError → PopErrorKind
binding_error identity_binding = binding_failed
binding_error _ = receipt_invalid
