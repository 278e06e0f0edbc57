-- ===== src/Tests/Server.antt =====
-- The server verifier on a small network.
use ans_sdk_rust.Prelude.{
  ◌≡◌, ◌↔◌, ◌⊎◌, refl, true, false, some, [], ◌∷◌, here, insert, lookup, contains, ◌=t◌,
}
use ans_sdk_rust.Text.{eq_ignore_ascii_case}
use ans_sdk_rust.Cert.{cert_fqdn}
use ans_sdk_rust.Dane.{verify_dane_cert, verify_dane_with, matches_cert}
use ans_sdk_rust.Cache.{collect_for_fqdn}
use ans_sdk_rust.Types.Fingerprint.{matches, parse}
use ans_sdk_rust.Types.Badge.{Badge, is_unknown, cert_fingerprints}
use ans_sdk_rust.Verify.Outcome.{verified, verify_against_badge}
use ans_sdk_rust.Verify.Server.{
  verify, verify_badge, enforce_dane, verify_against_records, fetch_one, check_dane,
}
use ans_sdk_rust.Verify.Server.Binding.{DaneMet}
use ans_sdk_rust.Verify.Server.Kept.{Good, StateHolds}
use ans_sdk_rust.Verify.Server.Sound.{verify_sound}
use ans_sdk_rust.Verify.Server.{first_match, handle_dns_error}
use ans_sdk_rust.Verify.Server.Outage.{
  AcceptedFrom, AcceptedStale, fresh_badges, outage_accepts_only_cached, rejection_sticks,
}
use ans_sdk_rust.Verify.Server.Complete.{verify_badge_complete}
use ans_sdk_rust.Verify.Server.Prefetch.{UsableResult, prefetch, prefetch_sound}
use ans_sdk_rust.Verify.Match.{Matched, verify_against_badge_iff}
use ans_sdk_rust.Verify.Outcome.{is_success, dns_error}
use ans_sdk_rust.Cache.{is_valid, insert_for_fqdn_version}
use ans_sdk_rust.Error.{ok, timeout, dns_unavailable}
use ans_sdk_rust.Text.{codes}
use ans_sdk_rust.Tests.Data.{
  gone, steady, warm, patient, empty_cache, badge_record, plain, fp, host, cert, badge, net,
  verifier, start,
}
use ans_sdk_rust.Tests.Store.{list_store, key_eq, list_store-laws}

-- A badge whose status is known.
abbrev pub Known : Badge → Type 0
Known b = is_unknown b.status ≡ false

program : Unit {0}
unfolding verify verify_badge enforce_dane verify_against_badge lookup collect_for_fqdn
    verify_against_records fetch_one ◌=t◌ contains cert_fingerprints matches parse
    eq_ignore_ascii_case cert_fqdn check_dane verify_dane_cert verify_dane_with matches_cert
program = tt

start_run : (verify list_store net plain verifier host cert start).0 ≡ verified badge fp
unfolding program
start_run = refl

verify_sound_example :
    Good list_store list_store-laws net plain Known host cert
      (verify list_store net plain verifier host cert start).0
    × DaneMet list_store net plain verifier host cert
unfolding program
verify_sound_example =
    verify_sound list_store list_store-laws net plain Known host cert verifier start
      (λ url w b trusted fetched known. known) (λ t k w e. cc e) refl

rejection_sticks_example :
    (is_success
        (verify_badge list_store gone plain verifier host cert
          (record { world = 0; cache = some empty_cache })).0
      ≡ false)
    × ((verify_badge list_store gone plain verifier host cert
          (record (verify_badge list_store gone plain verifier host cert
            (record { world = 0; cache = some empty_cache })).1 { world = 1 })).0
        ≡ dns_error (timeout (codes "agent.example.com")))
unfolding first_match collect_for_fqdn lookup
rejection_sticks_example =
    rejection_sticks list_store gone plain host verifier
      (record { world = 0; cache = some empty_cache }) cert cert 1
      (timeout (codes "agent.example.com")) refl tt refl

verify_badge_complete_example :
    is_success
      (verify_badge list_store steady plain verifier host cert
        (record { world = 0; cache = some empty_cache })).0
    ≡ true
unfolding program
verify_badge_complete_example =
    verify_badge_complete list_store steady plain verifier host cert (λ r. ok badge)
      (record { world = 0; cache = some empty_cache }) (badge_record ∷ []) (λ r w. refl) refl
      (refl, tt) (here (badge, (refl, (verify_against_badge_iff plain badge cert host).0 refl)))

outage_accepts_only_cached_example :
    AcceptedFrom list_store net plain host cert
      (λ w. is_valid 310 w ≡ true)
      (verify_badge list_store net plain patient host cert
        (record { world = 310; cache = some warm })).0
      (fresh_badges list_store net plain host cert (record { world = 310; cache = some warm }))
    ⊎ ((dns_unavailable (timeout (codes "agent.example.com")) ≡ true)
        × AcceptedStale list_store net plain host cert patient
            (verify_badge list_store net plain patient host cert
              (record { world = 310; cache = some warm })).0
            (record { world = 310; cache = some warm }))
unfolding program insert_for_fqdn_version insert key_eq handle_dns_error
outage_accepts_only_cached_example =
    outage_accepts_only_cached list_store net plain host cert patient
      (record { world = 310; cache = some warm }) (timeout (codes "agent.example.com")) refl refl

prefetch_sound_example :
    UsableResult Known
      (prefetch list_store steady plain verifier host
        (record { world = 0; cache = some empty_cache })).0
    × StateHolds list_store list_store-laws steady plain Known
        (prefetch list_store steady plain verifier host
          (record { world = 0; cache = some empty_cache })).1
unfolding program
prefetch_sound_example =
    prefetch_sound list_store list_store-laws steady plain Known host verifier
      (record { world = 0; cache = some empty_cache }) (λ url w b trusted fetched known. known)
      (λ t k w e. cc e)

prefetch_run :
    (prefetch list_store steady plain verifier host
      (record { world = 0; cache = some empty_cache })).0
    ≡ ok badge
unfolding program prefetch
prefetch_run = refl

verify_against_badge_iff_example :
    (verify_against_badge plain badge cert host true ≡ verified badge fp)
    ↔ Matched plain badge cert host
verify_against_badge_iff_example = verify_against_badge_iff plain badge cert host
