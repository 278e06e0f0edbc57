-- ===== src/Tests/Client.antt =====
-- The client verifier on a small network.
use ans_sdk_rust.Prelude.{◌≡◌, ◌↔◌, ap, refl, some, lookup, contains, ◌=t◌}
use ans_sdk_rust.Text.{eq_ignore_ascii_case}
use ans_sdk_rust.Cert.{cert_fqdn, cert_ans_name}
use ans_sdk_rust.Types.AnsName
use ans_sdk_rust.Types.AnsName.{AnsName}
use ans_sdk_rust.Types.Fingerprint.{matches}
use ans_sdk_rust.Types.Badge.{cert_fingerprints}
use ans_sdk_rust.Verify.Match.{MatchedClient, verify_client_against_badge_iff}
use ans_sdk_rust.Verify.Outcome.{verified, is_success, verify_client_against_badge}
use ans_sdk_rust.Verify.Client.{verify_client}
use ans_sdk_rust.Verify.Client.Sound.{NamedAccepted, verify_client_sound}
use ans_sdk_rust.Verify.Server.{State}
use ans_sdk_rust.Tests.Server.{Known}
use ans_sdk_rust.Tests.Data.{
  plain, fp, host, identity_cert, v1, badge, steady, client_verifier, empty_cache,
}
use ans_sdk_rust.Tests.Store.{list_store, list_store-laws}

abbrev cold : State list_store steady
cold = record { world = 0; cache = some empty_cache }

abbrev agent : AnsName
agent = record { version = v1; fqdn = host }

verify_client_against_badge_iff_example :
    (verify_client_against_badge plain badge identity_cert agent ≡ verified badge fp)
    ↔ MatchedClient plain badge identity_cert agent
verify_client_against_badge_iff_example =
    verify_client_against_badge_iff plain badge identity_cert agent

client_run : Unit {0}
unfolding verify_client cert_fqdn ans_sdk_rust.Types.Fqdn.new ans_sdk_rust.Text.split
    ans_sdk_rust.Text.trim_end ans_sdk_rust.Types.Fqdn.label_ok cert_ans_name
    ans_sdk_rust.Text.strip_prefix AnsName.parse ans_sdk_rust.Text.splitn ans_sdk_rust.Text.break_at
    ans_sdk_rust.Types.Version.parse ans_sdk_rust.Types.Version.parse_u32 ans_sdk_rust.Cache.get
    lookup ans_sdk_rust.Verify.Records.find_badge_for_version ◌=t◌ contains eq_ignore_ascii_case
    AnsName.to_string cert_fingerprints matches ans_sdk_rust.Types.Fingerprint.parse
    ans_sdk_rust.Types.Version.show_u32 ans_sdk_rust.Types.Version.show_numbers
    ans_sdk_rust.Types.Version.to_string ans_sdk_rust.Verify.Client.fetch_record
    ans_sdk_rust.Verify.Client.verify_named verify_client_against_badge
    ans_sdk_rust.Verify.Policy.validate_badge_domain ans_sdk_rust.Verify.Records.find_version
client_run = tt

cold_run :
    (verify_client list_store steady plain client_verifier identity_cert cold).0 ≡ verified badge fp
unfolding client_run
cold_run = refl

verify_client_sound_example :
    NamedAccepted list_store list_store-laws steady plain Known client_verifier
      (λ url w b trusted fetched known. known)
      identity_cert
      (verify_client list_store steady plain client_verifier identity_cert cold).0
unfolding lookup
verify_client_sound_example =
    verify_client_sound list_store list_store-laws steady plain Known client_verifier
      (λ url w b trusted fetched known. known) identity_cert cold (λ t k w e. cc e)
      (ap is_success cold_run)
