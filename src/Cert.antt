-- ===== src/Cert.antt =====
-- crates/ans-verify/src/verify.rs: `CertIdentity`, what a verifier reads of a certificate.
-- The X.509 parser is another crate: the fields it extracts are given.
use ans_sdk_rust.Prelude.{ℕ, Bool, true, false, List, [], ◌∷◌, Option, none, some, if◌then◌else◌}
use ans_sdk_rust.Text.{Text, codes, strip_prefix}
use ans_sdk_rust.Error.{Result, ok, err, ParseError}
use ans_sdk_rust.Types.AnsName
use ans_sdk_rust.Types.AnsName.{AnsName}
use ans_sdk_rust.Types.Fingerprint.{CertFingerprint}

pub record CertIdentity : Type 0 where
  pub common_name : Option Text
  pub dns_sans : List Text
  pub uri_sans : List Text
  pub fingerprint : CertFingerprint
  pub raw_der : Option (List ℕ)
  pub spki_der : Option (List ℕ)

-- `CertIdentity::new`
abbrev pub new : Option Text → List Text → List Text → CertFingerprint → CertIdentity
new common_name dns_sans uri_sans fingerprint = record {
  common_name = common_name;
  dns_sans = dns_sans;
  uri_sans = uri_sans;
  fingerprint = fingerprint;
  raw_der = none;
  spki_der = none;
}

abbrev pub from_fingerprint_and_cn : CertFingerprint → Text → CertIdentity
from_fingerprint_and_cn fingerprint cn = new (some cn) (cn ∷ []) [] fingerprint

abbrev first_or : List Text → Option Text → Option Text
first_or [] d = d
first_or (t ∷ ts) d = some t

-- `fqdn`: the first DNS name, or the common name.
unfoldable pub cert_fqdn : CertIdentity → Option Text
cert_fqdn cert = first_or cert.dns_sans cert.common_name

-- `uri.starts_with("ans://")`
abbrev is_some {ℓ} : {A : Type ℓ} → Option A → Bool
is_some none = false
is_some (some a) = true

abbrev or_next : Result ParseError AnsName → Option AnsName → Option AnsName
or_next (ok name) later = some name
or_next (err e) later = later

-- The first of the URI names that parses.
abbrev first_ans_name : List Text → Option AnsName
first_ans_name [] = none
first_ans_name (uri ∷ uris) =
    let later = first_ans_name uris in
    if is_some (strip_prefix (codes "ans://") uri) then or_next (AnsName.parse uri) later else later

-- `ans_name`
unfoldable pub cert_ans_name : CertIdentity → Option AnsName
cert_ans_name cert = first_ans_name cert.uri_sans
