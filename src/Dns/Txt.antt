-- ===== src/Dns/Txt.antt =====
-- crates/ans-verify/src/dns.rs: the text of badge records and of discovery records. The crate url says
-- which texts are URLs.
use ans_sdk_rust.Prelude.{Bool, not, ◌||◌, List, [], ◌∷◌, Option, none, some, if◌then◌else◌, ◌=t◌}
use ans_sdk_rust.Text.{trim, Text, codes, strip_prefix, split}
use ans_sdk_rust.Error.{Result, ok, err, ◌>>=◌, ParseError, invalid_url, missing_field}
use ans_sdk_rust.Results.{ok_or, fail_if}
use ans_sdk_rust.Types.Version
use ans_sdk_rust.Types.Version.{Version}
use ans_sdk_rust.Verify.Env.{BadgeRecord}

abbrev ok_of {ℓ κ} : {E : Type ℓ} {A : Type κ} → Result E A → Option A
ok_of (ok a) = some a
ok_of (err e) = none

-- The variables of the loop over the parts of a record.
pub record TxtFields : Type 0 where
  pub format_version : Option Text
  pub version : Option Version
  pub protocol_token : Option Text
  pub mode : Option Text
  pub url : Option Text

abbrev no_fields : TxtFields
no_fields = record {
  format_version = none;
  version = none;
  protocol_token = none;
  mode = none;
  url = none;
}

pub record TxtDiscoveryRecord : Type 0 where
  pub format_version : Text
  pub version : Option Version
  pub protocol_token : Text
  pub mode : Option Text
  pub url : Text

pub data AgentProtocol : Type 0 where
  a2a mcp http_api : AgentProtocol
  other : Text → AgentProtocol

-- `AgentProtocol::from_token`
unfoldable pub from_token : Text → AgentProtocol
from_token token =
    if token =t codes "a2a"
    then a2a
    else if token =t codes "mcp"
    then mcp
    else if (token =t codes "http-api") || (token =t codes "x-http")
    then http_api
    else other token

module _ (is_url : Text → Bool) where
  abbrev read_url : Text → TxtFields → Result ParseError TxtFields
  read_url u f = do _ ← fail_if (not (is_url u)) invalid_url; ok (record f { url = some u })

  abbrev read_url_part : Text → TxtFields → Result ParseError TxtFields
  read_url_part part f = elim (strip_prefix (codes "url=") part) [
    | some u ↦ read_url u f
    | none ↦ ok f
  ]

  abbrev read_version_part :
      (Text → TxtFields → Result ParseError TxtFields)
      → Text
      → TxtFields
      → Result ParseError TxtFields
  read_version_part next part f = elim (strip_prefix (codes "version=") part) [
    | some v ↦ ok (record f { version = ok_of (Version.parse v) })
    | none ↦ next part f
  ]

  -- One part of a badge record; a later one overrides an earlier one.
  abbrev pub read_badge_part : Text → TxtFields → Result ParseError TxtFields
  read_badge_part part f = elim (strip_prefix (codes "v=") part) [
    | some v ↦ ok (record f { format_version = some v })
    | none ↦ read_version_part read_url_part part f
  ]

  abbrev read_mode_part : Text → TxtFields → Result ParseError TxtFields
  read_mode_part part f = elim (strip_prefix (codes "mode=") part) [
    | some m ↦ ok (record f { mode = some m })
    | none ↦ read_url_part part f
  ]

  abbrev read_protocol_part : Text → TxtFields → Result ParseError TxtFields
  read_protocol_part part f = elim (strip_prefix (codes "p=") part) [
    | some p ↦ ok (record f { protocol_token = some p })
    | none ↦ read_mode_part part f
  ]

  abbrev pub read_discovery_part : Text → TxtFields → Result ParseError TxtFields
  read_discovery_part part f = elim (strip_prefix (codes "v=") part) [
    | some v ↦ ok (record f { format_version = some v })
    | none ↦ read_version_part read_protocol_part part f
  ]

  unfoldable pub read_parts :
      (Text → TxtFields → Result ParseError TxtFields)
      → List Text
      → TxtFields
      → Result ParseError TxtFields
  read_parts read [] f = ok f
  read_parts read (part ∷ rest) f = do f' ← read (trim part) f; read_parts read rest f'

  -- `BadgeRecord::parse`
  unfoldable pub parse_badge_record : Text → Result ParseError BadgeRecord
  unfolding read_parts
  parse_badge_record txt = do
    f ← read_parts read_badge_part (split b';' txt) no_fields
    format_version ← ok_or missing_field f.format_version
    url ← ok_or missing_field f.url
    ok (record { format_version = format_version; version = f.version; url = url })

  -- `TxtDiscoveryRecord::parse`
  unfoldable pub parse_discovery_record : Text → Result ParseError TxtDiscoveryRecord
  unfolding read_parts
  parse_discovery_record txt = do
    f ← read_parts read_discovery_part (split b';' txt) no_fields
    format_version ← ok_or missing_field f.format_version
    protocol_token ← ok_or missing_field f.protocol_token
    url ← ok_or missing_field f.url
    ok (record {
      format_version = format_version;
      version = f.version;
      protocol_token = protocol_token;
      mode = f.mode;
      url = url;
    })
