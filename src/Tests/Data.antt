-- ===== src/Tests/Data.antt =====
-- Shared test data: an agent, its badge and certificates, and an environment that serves them.
use ans_sdk_rust.Prelude.{ℕ, zero, suc, refl, List, [], ◌∷◌, none, some}
use ans_sdk_rust.Text.{codes}
use ans_sdk_rust.Error.{Result, ok, err, DnsError, timeout, TlogError, service_unavailable}
use ans_sdk_rust.Cert
use ans_sdk_rust.Cert.{CertIdentity}
use ans_sdk_rust.Types.Badge.{Badge, active}
use ans_sdk_rust.Types.Fingerprint.{Crypto, HexLaws, CertFingerprint}
use ans_sdk_rust.Types.Fqdn.{Fqdn}
use ans_sdk_rust.Types.Version.{Version}
use ans_sdk_rust.Dane.{TlsaRecord, domain_issued_certificate, full_certificate, sha_256, required}
use ans_sdk_rust.Cache.{BadgeCache, default_config, insert_for_fqdn_version}
use ans_sdk_rust.Verify.Env.{Env, BadgeRecord, DnsLookupResult, found, not_found}
use ans_sdk_rust.Verify.Policy.{fail_open_with_cache}
use ans_sdk_rust.Verify.Client.{ClientVerifier}
use ans_sdk_rust.Verify.Server.{ServerVerifier, State}
use ans_sdk_rust.Tests.Store.{list_store}

-- Hashes and the hex codec that keep their input.
abbrev pub plain : Crypto
plain = record { sha256 = λ b. b; sha512 = λ b. b; hex_decode = λ t. some t; hex_encode = λ b. b }

pub plain-laws : HexLaws plain
plain-laws = record { decode_encode = λ b. refl }

abbrev pub digest : List ℕ
digest = codes "0123456789abcdef0123456789abcdef"

abbrev pub fp : CertFingerprint
fp = record { bytes = digest }

abbrev pub host : Fqdn
host = record { name = codes "agent.example.com" }

abbrev pub cert : CertIdentity
cert = record (Cert.from_fingerprint_and_cn fp (codes "Agent.example.com")) {
  raw_der = some digest;
  spki_der = some (codes "key");
}

abbrev pub v1 : Version
v1 = record { major = 1; minor = 0; patch = 0 }

abbrev pub badge : Badge
badge = record {
  status = active;
  schema_version = codes "V2";
  payload = record {
    log_id = codes "log";
    producer = record {
      key_id = codes "k";
      signature = codes "s";
      event = record {
        ans_id = codes "id";
        ans_name = codes "ans://v1.0.0.agent.example.com";
        agent = record {
          host = codes "agent.example.com";
          name = codes "agent";
          version = codes "1.0.0";
        };
        attestations = record {
          domain_validation = none;
          identity_cert = none;
          server_cert = none;
          identity_certs =
              record {
                fingerprint = codes "SHA256:0123456789abcdef0123456789abcdef";
                cert_type = codes "X509-OV-CLIENT";
              }
              ∷ [];
          server_certs =
              record {
                fingerprint = codes "SHA256:0123456789abcdef0123456789abcdef";
                cert_type = codes "X509-DV-SERVER";
              }
              ∷ [];
        };
      };
    };
  };
}

abbrev pub badge_record : BadgeRecord
badge_record = record {
  format_version = codes "ans-badge1";
  version = some v1;
  url = codes "https://tl.example.com/b";
}

abbrev pub tlsa : TlsaRecord
tlsa = record {
  usage = domain_issued_certificate;
  selector = full_certificate;
  matching_type = sha_256;
  certificate_data = digest;
}

-- The world counts down: from round 1 on the network is down.
abbrev answer {ℓ} : {A : Type ℓ} → ℕ → A → Result DnsError A
answer zero a = ok a
answer (suc n) a = err (timeout (codes "agent.example.com"))

abbrev serve : ℕ → Result TlogError Badge
serve zero = ok badge
serve (suc n) = err service_unavailable

-- A network by what the resolver and the log answer in each round.
abbrev pub network :
    (ℕ → Result DnsError (DnsLookupResult BadgeRecord)) → (ℕ → Result TlogError Badge) → Env
network records badges = record {
  World = ℕ;
  now = λ w. w;
  parse_url =
      λ url. some (record { scheme = codes "https"; host_str = some (codes "tl.example.com") });
  lookup_badge = λ f w. (records w, w);
  lookup_tlsa = λ f p w. (ok (found (tlsa ∷ [])), w);
  fetch_badge = λ url w. (badges w, w);
}

abbrev pub net : Env
net = network (λ w. answer w (found (badge_record ∷ []))) serve

-- The badge records are gone, and from round 1 on the network is down.
abbrev pub gone : Env
gone = network (λ w. answer w not_found) serve

-- The network is up at all times.
abbrev pub steady : Env
steady = network (λ w. ok (found (badge_record ∷ []))) (λ w. ok badge)

abbrev pub verifier : ServerVerifier
verifier = record {
  failure_policy = fail_open_with_cache 100;
  dane_policy = required;
  dane_port = 443;
  trusted_ra_domains = some (codes "tl.example.com" ∷ []);
}

abbrev pub empty_cache : BadgeCache list_store
empty_cache = record { cache = []; config = default_config; version_index = [] }

abbrev pub start : State list_store net
start = record { world = 0; cache = some empty_cache }

abbrev pub patient : ServerVerifier
patient = record verifier { failure_policy = fail_open_with_cache 1000 }

abbrev pub warm : BadgeCache list_store
warm = insert_for_fqdn_version list_store 0 host v1 badge empty_cache

abbrev pub client_verifier : ClientVerifier
client_verifier = record {
  failure_policy = fail_open_with_cache 100;
  trusted_ra_domains = some (codes "tl.example.com" ∷ []);
}

abbrev pub identity_cert : CertIdentity
identity_cert =
    Cert.new (some (codes "agent.example.com")) [] (codes "ans://v1.0.0.agent.example.com" ∷ []) fp
