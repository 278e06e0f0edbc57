-- ===== src/Tests/Ans.antt =====
-- The verifier that uses artifacts, on a concrete setup.
use ans_sdk_rust.Prelude.{
  ℕ, ◌≡◌, inl, inr, refl, Bool, true, false, [], ◌∷◌, Option, none, some, lookup, insert, text_eq,
}
use ans_sdk_rust.Text.{eq_ignore_ascii_case}
use ans_sdk_rust.Error.{ok}
use ans_sdk_rust.Cert.{cert_fqdn, cert_ans_name}
use ans_sdk_rust.Scitt.KeyStore.{initial}
use ans_sdk_rust.Types.AnsName
use ans_sdk_rust.Scitt.Certificate.{check_scitt_certificate}
use ans_sdk_rust.Scitt.Token.{matches_server_cert, matches_identity_cert}
use ans_sdk_rust.Scitt.Identity.{bind_receipt_to_status}
use ans_sdk_rust.Scitt.Keys.{artifact_cache_key}
use ans_sdk_rust.Scitt.VerificationCache.{
  get_outcome, insert_outcome, get_verified_token, insert_verified_token, get_verified_receipt,
  insert_verified_receipt,
}
use ans_sdk_rust.Verify.Scitt.{ScittSetup, ScittState, try_scitt_verification}
use ans_sdk_rust.Types.Version
use ans_sdk_rust.Verify.Server.{enforce_dane, check_dane}
use ans_sdk_rust.Dane.{verify_dane_cert, verify_dane_with, matches_cert}
use ans_sdk_rust.Scitt.Keys.{ScittKeyStore}
use ans_sdk_rust.Scitt.Reuse.{Fits}
use ans_sdk_rust.Verify.Scitt.Caches.{ScittLaws, Seen, Holds}
use ans_sdk_rust.Verify.Scitt.Refines.{try_scitt_verification_refines}
use ans_sdk_rust.Verify.Env.{Env, found}
use ans_sdk_rust.Verify.Outcome.{VerificationOutcome, is_success}
use ans_sdk_rust.Verify.Ans.{
  AnsCrates, setup_of, AnsVerifier, AnsState, ScittConfig, require_scitt, default_config,
  verify_server_with_scitt, verify_client_with_scitt, verify_client_badge,
}
use ans_sdk_rust.Verify.Ans.Accepted.{CratesLaws, laws_of, ByScitt}
use ans_sdk_rust.Verify.Ans.Sound.{
  ServerByScitt, verify_server_with_scitt_sound, verify_client_with_scitt_sound,
}
use ans_sdk_rust.Tests.Store.{list_store}
use ans_sdk_rust.Tests.Data.{
  net, tlsa, verifier, client_verifier, cert, identity_cert, host, digest, empty_cache,
}
use ans_sdk_rust.Tests.Scitt.{read_leaf}
use ans_sdk_rust.Tests.Artifacts.{
  lists, lists-laws, nothing_verified, framed, AnyArtifact, framed-NoCollisions, key_crates-laws,
  scitt_crates, store, store-StoreFits, scitt_env, scitt_env-laws, key_config, artifacts,
}
use ans_sdk_rust.Tests.Verified.{receipts}

abbrev accepted : Option VerificationOutcome → Bool
accepted none = false
accepted (some o) = is_success o

abbrev framed_net : Env
framed_net = record net {
  lookup_tlsa =
      λ f p w. (ok (found (record tlsa { certificate_data = framed.sha256 digest } ∷ [])), w);
}

abbrev crates : AnsCrates ℕ
crates = record {
  m = list_store;
  stores = lists;
  crates = scitt_crates;
  env = framed_net;
  scitt = scitt_env;
  parse_leaf = read_leaf;
  key_config = key_config;
}

abbrev crates-laws : CratesLaws crates
crates-laws = record {
  stores = lists-laws;
  Occurs = AnyArtifact;
  collisions = framed-NoCollisions;
  points = key_crates-laws;
  clock = scitt_env-laws;
}

abbrev ans_verifier : AnsVerifier
ans_verifier = record {
  server_verifier = verifier;
  client_verifier = client_verifier;
  scitt_config = some default_config;
}

abbrev state : AnsState crates
state = record {
  badges = record { world = 0; cache = some empty_cache };
  scitt_key_store = some (initial store);
  scitt_verification_cache = some nothing_verified;
}

unfoldable pub program : Unit {0}
unfolding receipts AnsName.to_string Version.to_string Version.show_numbers Version.show_u32
    try_scitt_verification get_outcome insert_outcome get_verified_token insert_verified_token
    get_verified_receipt insert_verified_receipt check_scitt_certificate matches_server_cert
    matches_identity_cert eq_ignore_ascii_case bind_receipt_to_status insert artifact_cache_key
    cert_fqdn
program = tt

abbrev setup : ScittSetup ℕ ℕ
setup = setup_of crates default_config

abbrev setup-laws : ScittLaws setup
setup-laws = laws_of crates crates-laws default_config

abbrev scitt_start : ScittState setup
scitt_start = record { world = 0; keys = initial store; cache = some nothing_verified }

try_run :
    accepted (try_scitt_verification setup cert artifacts true (some host.name) scitt_start).0
    ≡ true
unfolding program
try_run = refl

server_run :
    is_success (verify_server_with_scitt crates ans_verifier host.name cert artifacts state).0
    ≡ true
unfolding program verify_server_with_scitt enforce_dane check_dane verify_dane_cert verify_dane_with
    matches_cert
server_run = refl

nothing_verified-Holds : Holds setup setup-laws (some nothing_verified)
unfolding lookup
nothing_verified-Holds = record {
  tokens = λ t k vt e. cc e;
  receipts = λ t k r e. cc e;
  outcomes = λ t k o e. cc e;
}

-- No artifact is left out.
artifacts-Seen : (snapshot : ScittKeyStore ℕ) → Seen setup setup-laws artifacts snapshot
artifacts-Seen snapshot = ((λ b e. tt), (λ b e. tt))

verify_server_with_scitt_sound_example :
    ServerByScitt crates crates-laws ans_verifier default_config
      (initial store)
      cert
      artifacts
      state
      host.name
      (verify_server_with_scitt crates ans_verifier host.name cert artifacts state)
verify_server_with_scitt_sound_example =
    verify_server_with_scitt_sound crates crates-laws ans_verifier default_config (initial store)
      cert artifacts state host.name refl refl (inl refl)
      (λ fqdn. record {
        trusted = store-StoreFits;
        seen = artifacts-Seen store;
        caches = nothing_verified-Holds;
      })
      server_run

-- A verifier that demands artifacts.
abbrev strict : ScittConfig
strict = record default_config { tier_policy = require_scitt }

abbrev strict_verifier : AnsVerifier
strict_verifier = record ans_verifier { scitt_config = some strict }

client_run :
    is_success (verify_client_with_scitt crates strict_verifier identity_cert artifacts state).0
    ≡ true
unfolding program cert_ans_name verify_client_with_scitt
client_run = refl

bare_run :
    is_success
      (verify_client_with_scitt crates strict_verifier identity_cert
        (record { receipt = none; status_token = none })
        state).0
    ≡ false
unfolding verify_client_with_scitt
bare_run = refl

verify_client_with_scitt_sound_example :
    ByScitt crates crates-laws strict
      (initial store)
      identity_cert
      artifacts
      false
      none
      (verify_client_badge crates strict_verifier identity_cert state)
      state
      (verify_client_with_scitt crates strict_verifier identity_cert artifacts state)
verify_client_with_scitt_sound_example =
    verify_client_with_scitt_sound crates crates-laws strict_verifier strict (initial store)
      identity_cert artifacts state
      (record {
        trusted = store-StoreFits;
        seen = artifacts-Seen store;
        caches = nothing_verified-Holds;
      })
      refl refl (inr refl) client_run

-- After a first verification its outcome is in the caches.
abbrev served : ScittState setup
served = (try_scitt_verification setup cert artifacts true (some host.name) scitt_start).1

served-Fits : Fits scitt_crates served.keys.snapshot
unfolding program
served-Fits = store-StoreFits

served-Holds : Holds setup setup-laws served.cache
served-Holds =
    (try_scitt_verification_refines setup setup-laws cert artifacts true (some host.name)
      scitt_start tt store-StoreFits (artifacts-Seen store) nothing_verified-Holds).1.1

try_scitt_verification_refines_example :
    ((try_scitt_verification setup cert artifacts true (some host.name) served).0
      ≡ (try_scitt_verification setup cert artifacts true
          (some host.name)
          (record served { cache = none })).0)
    × ((record (try_scitt_verification setup cert artifacts true (some host.name) served).1 {
      cache = none;
    }
          ≡ (try_scitt_verification setup cert artifacts true
              (some host.name)
              (record served { cache = none })).1)
        × Holds setup setup-laws
            (try_scitt_verification setup cert artifacts true (some host.name) served).1.cache)
try_scitt_verification_refines_example =
    try_scitt_verification_refines setup setup-laws cert artifacts true (some host.name) served tt
      served-Fits (artifacts-Seen served.keys.snapshot) served-Holds
