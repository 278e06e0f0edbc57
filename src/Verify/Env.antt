-- ===== src/Verify/Env.antt =====
-- What a verifier calls and does not implement: the DNS resolver, the transparency log client,
-- the URL parser and the clock. Their answers may change from call to call: each takes the state
-- of the world and returns the next.
use ans_sdk_rust.Prelude.{ℕ, List, Option}
use ans_sdk_rust.Text.{Text}
use ans_sdk_rust.Error.{Result, DnsError, TlogError}
use ans_sdk_rust.Types.Badge.{Badge}
use ans_sdk_rust.Types.Fqdn.{Fqdn}
use ans_sdk_rust.Types.Version.{Version}
use ans_sdk_rust.Dane.{TlsaRecord}

-- crates/ans-verify/src/dns.rs
pub record BadgeRecord : Type 0 where
  pub format_version : Text
  pub version : Option Version
  pub url : Text

pub data DnsLookupResult {ℓ} (T : Type ℓ) : Type ℓ where
  found : List T → DnsLookupResult T
  not_found : DnsLookupResult T

-- The scheme and host of an absolute URL (crate url).
pub record ParsedUrl : Type 0 where
  pub scheme : Text
  pub host_str : Option Text

pub record Env : Type 1 where
  pub World : Type 0
  pub now : World → ℕ
  pub parse_url : Text → Option ParsedUrl
  pub lookup_badge : Fqdn → World → Result DnsError (DnsLookupResult BadgeRecord) × World
  pub lookup_tlsa : Fqdn → ℕ → World → Result DnsError (DnsLookupResult TlsaRecord) × World
  pub fetch_badge : Text → World → Result TlogError Badge × World
