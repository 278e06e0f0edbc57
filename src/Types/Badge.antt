-- ===== src/Types/Badge.antt =====
-- crates/ans-types/src/badge.rs: the badge that the transparency log serves.
use ans_sdk_rust.Prelude.{Bool, true, false, List, [], ◌∷◌, ◌++◌, map, Option, none, some}
use ans_sdk_rust.Prelude.{◌=t◌, if◌then◌else◌, ◌||◌, ◌&&◌}
use ans_sdk_rust.Text.{Text, codes, is_empty}

pub data BadgeStatus : Type 0 where
  active warning deprecated expired revoked unknown : BadgeStatus

abbrev pub is_valid_for_connection : BadgeStatus → Bool
is_valid_for_connection active = true
is_valid_for_connection warning = true
is_valid_for_connection deprecated = true
is_valid_for_connection _ = false

abbrev pub is_active : BadgeStatus → Bool
is_active active = true
is_active warning = true
is_active _ = false

abbrev pub should_reject : BadgeStatus → Bool
should_reject expired = true
should_reject revoked = true
should_reject _ = false

-- `status == BadgeStatus::Unknown` and `== BadgeStatus::Deprecated`
abbrev pub is_unknown : BadgeStatus → Bool
is_unknown unknown = true
is_unknown _ = false

abbrev pub is_deprecated : BadgeStatus → Bool
is_deprecated deprecated = true
is_deprecated _ = false

pub record CertAttestation : Type 0 where
  pub fingerprint : Text
  pub cert_type : Text

pub record Attestations : Type 0 where
  pub domain_validation : Option Text
  pub identity_cert : Option CertAttestation
  pub server_cert : Option CertAttestation
  pub identity_certs : List CertAttestation
  pub server_certs : List CertAttestation

pub record AgentInfo : Type 0 where
  pub host : Text
  pub name : Text
  pub version : Text

-- The event type, the dates and the registration authority's id are not read by a verifier.
pub record AgentEvent : Type 0 where
  pub ans_id : Text
  pub ans_name : Text
  pub agent : AgentInfo
  pub attestations : Attestations

pub record Producer : Type 0 where
  pub event : AgentEvent
  pub key_id : Text
  pub signature : Text

pub record BadgePayload : Type 0 where
  pub log_id : Text
  pub producer : Producer

pub record Badge : Type 0 where
  pub status : BadgeStatus
  pub payload : BadgePayload
  pub schema_version : Text

abbrev pub agent_name : Badge → Text
agent_name b = b.payload.producer.event.ans_name

abbrev pub agent_host : Badge → Text
agent_host b = b.payload.producer.event.agent.host

abbrev pub agent_version : Badge → Text
agent_version b = b.payload.producer.event.agent.version

abbrev pub option_list {ℓ} : {A : Type ℓ} → Option A → List A
option_list none = []
option_list (some a) = a ∷ []

-- `cert_fingerprints`: by schema; only a V1 badge with no array uses the singular field.
unfoldable pub cert_fingerprints : Text → List CertAttestation → Option CertAttestation → List Text
cert_fingerprints schema certificates legacy =
    if (schema =t codes "V1") && is_empty certificates
    then map (λ c. c.fingerprint) (certificates ++ option_list legacy)
    else if (schema =t codes "V1") || (schema =t codes "V2")
    then map (λ c. c.fingerprint) certificates
    else []

abbrev pub server_cert_fingerprints : Badge → List Text
server_cert_fingerprints b =
    cert_fingerprints b.schema_version b.payload.producer.event.attestations.server_certs
      b.payload.producer.event.attestations.server_cert

abbrev pub identity_cert_fingerprints : Badge → List Text
identity_cert_fingerprints b =
    cert_fingerprints b.schema_version b.payload.producer.event.attestations.identity_certs
      b.payload.producer.event.attestations.identity_cert

abbrev first_or_empty : List Text → Text
first_or_empty [] = []
first_or_empty (t ∷ ts) = t

abbrev pub server_cert_fingerprint : Badge → Text
server_cert_fingerprint b = first_or_empty (server_cert_fingerprints b)

abbrev pub identity_cert_fingerprint : Badge → Text
identity_cert_fingerprint b = first_or_empty (identity_cert_fingerprints b)
