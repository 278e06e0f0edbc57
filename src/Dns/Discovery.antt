-- ===== src/Dns/Discovery.antt =====
-- crates/ans-verify/src/dns.rs: discovery records of both profiles and their autodiscovery.
use ans_sdk_rust.Prelude.{ℕ, List, map, Option, none, ◌==◌}
use ans_sdk_rust.Text.{Text, codes, is_empty}
use ans_sdk_rust.Error.{Result, ok, err, ◌>>=◌, ParseError, missing_field, bad_record, DnsError}
use ans_sdk_rust.Error as Error
use ans_sdk_rust.Results.{fail_if}
use ans_sdk_rust.Types.Fqdn.{Fqdn}
use ans_sdk_rust.Verify.Env.{DnsLookupResult, found, not_found}
use ans_sdk_rust.Dns.Txt.{TxtDiscoveryRecord, AgentProtocol, from_token}

pub record SvcbDiscoveryRecord : Type 0 where
  pub priority : ℕ
  pub target_name : Text
  pub protocol_token : Text
  pub port : Option ℕ
  pub metadata_url : Option Text
  pub metadata_sha256 : Option (List ℕ)
  pub well_known : Option Text

-- `SvcbDiscoveryRecord::from_parts`
unfoldable pub from_parts : ℕ → Text → Text → Option ℕ → Result ParseError SvcbDiscoveryRecord
from_parts priority target_name protocol_token port = do
  _ ← fail_if (priority == 0) bad_record
  _ ← fail_if (is_empty protocol_token) missing_field
  ok (record {
    priority = priority;
    target_name = target_name;
    protocol_token = protocol_token;
    port = port;
    metadata_url = none;
    metadata_sha256 = none;
    well_known = none;
  })

pub data DiscoveryRecord : Type 0 where
  svcb : SvcbDiscoveryRecord → DiscoveryRecord
  txt : TxtDiscoveryRecord → DiscoveryRecord

abbrev pub protocol_token_of : DiscoveryRecord → Text
protocol_token_of (svcb r) = r.protocol_token
protocol_token_of (txt r) = r.protocol_token

abbrev pub protocol_of : DiscoveryRecord → AgentProtocol
protocol_of r = from_token (protocol_token_of r)

abbrev pub profile_id : DiscoveryRecord → Text
profile_id (svcb r) = codes "ANS_DNSAID"
profile_id (txt r) = codes "ANS_TXT"

-- A resolver's two lookups.
pub record DiscoveryLookups (World : Type 0) : Type 0 where
  pub lookup_svcb_discovery :
      Fqdn → World → Result DnsError (DnsLookupResult SvcbDiscoveryRecord) × World
  pub lookup_txt_discovery :
      Fqdn → World → Result DnsError (DnsLookupResult TxtDiscoveryRecord) × World

module _ {World : Type 0} (lookups : DiscoveryLookups World) where
  abbrev pub of_txt :
      Result DnsError (DnsLookupResult TxtDiscoveryRecord)
      → Result DnsError (DnsLookupResult DiscoveryRecord)
  of_txt (err e) = err e
  of_txt (ok (found rs)) = ok (found (map txt rs))
  of_txt (ok not_found) = ok not_found

  abbrev pub or_txt :
      Fqdn
      → Result DnsError (DnsLookupResult SvcbDiscoveryRecord) × World
      → Result DnsError (DnsLookupResult DiscoveryRecord) × World
  or_txt fqdn (err e, w) = (err e, w)
  or_txt fqdn (ok (found rs), w) = (ok (found (map svcb rs)), w)
  or_txt fqdn (ok not_found, w) =
      let (answer, w') = lookups.lookup_txt_discovery fqdn w in (of_txt answer, w')

  -- `DnsResolver::lookup_discovery`
  unfoldable pub lookup_discovery :
      Fqdn → World → Result DnsError (DnsLookupResult DiscoveryRecord) × World
  lookup_discovery fqdn w = or_txt fqdn (lookups.lookup_svcb_discovery fqdn w)

  abbrev pub records_or_error :
      Fqdn → DnsLookupResult DiscoveryRecord → Result DnsError (List DiscoveryRecord)
  records_or_error fqdn (found rs) = ok rs
  records_or_error fqdn not_found = err (Error.not_found fqdn.name)

  -- `DnsResolver::get_discovery_records`
  unfoldable pub get_discovery_records :
      Fqdn → World → Result DnsError (List DiscoveryRecord) × World
  unfolding lookup_discovery
  get_discovery_records fqdn w =
      let (answer, w') = lookup_discovery fqdn w in (answer >>= records_or_error fqdn, w')
