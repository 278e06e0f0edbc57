-- ===== src/Verify/Ans.antt =====
-- crates/ans-verify/src/verify.rs: `AnsVerifier`, which verifies servers and clients by the artifacts
-- of a request or by their badges. The badge cache is shared, as the builder makes it.
pub mod Accepted
pub mod Sound
use ans_sdk_rust.Prelude.{ℕ, Bool, true, false, not, List, Option, none, some, if◌then◌else◌, ◌||◌}
use ans_sdk_rust.Text.{Text}
use ans_sdk_rust.Error.{
  Result, ok, err, ParseError, ScittError, missing_token_field, AnsError, parse,
}
use ans_sdk_rust.Cert.{CertIdentity}
use ans_sdk_rust.Cache.{Moka, BadgeCache}
use ans_sdk_rust.Types.Badge.{Badge}
use ans_sdk_rust.Types.Fqdn
use ans_sdk_rust.Types.Fqdn.{Fqdn}
use ans_sdk_rust.Scitt.Headers.{ScittHeaders, is_empty}
use ans_sdk_rust.Scitt.Identity.{ReceiptLeaf}
use ans_sdk_rust.Scitt.KeyStore.{KeyStoreState, KeyStoreConfig, ScittEnv}
use ans_sdk_rust.Scitt.Status.{ScittCrates}
use ans_sdk_rust.Scitt.VerificationCache.{Stores, ScittVerificationCache}
use ans_sdk_rust.Verify.Env.{Env}
use ans_sdk_rust.Verify.Outcome.{
  VerificationOutcome, parse_error, scitt_verified, scitt_error, is_success, badge_of,
}
use ans_sdk_rust.Verify.Server.{ServerVerifier, State, verify, enforce_dane}
use ans_sdk_rust.Verify.Server.Prefetch.{prefetch}
use ans_sdk_rust.Verify.Client.{ClientVerifier, verify_client}
use ans_sdk_rust.Verify.Scitt.{ScittSetup, ScittState, try_scitt_verification}

pub data ScittTierPolicy : Type 0 where
  scitt_with_badge_fallback require_scitt badge_with_scitt_enhancement : ScittTierPolicy

-- The tolerance in seconds.
pub record ScittConfig : Type 0 where
  pub tier_policy : ScittTierPolicy
  pub clock_skew_tolerance : ℕ

-- `ScittConfig::default`
abbrev pub default_config : ScittConfig
default_config = record { tier_policy = scitt_with_badge_fallback; clock_skew_tolerance = 60 }

pub record AnsVerifier : Type 0 where
  pub server_verifier : ServerVerifier
  pub client_verifier : ClientVerifier
  pub scitt_config : Option ScittConfig

-- What a verifier uses and does not implement.
pub record AnsCrates (Key : Type 0) : Type 1 where
  pub m : Moka
  pub stores : Stores
  pub crates : ScittCrates Key
  pub env : Env
  pub scitt : ScittEnv env.World
  pub parse_leaf : Text → Option ReceiptLeaf
  pub key_config : KeyStoreConfig

pub record AnsState {Key : Type 0} (d : AnsCrates Key) : Type 0 where
  pub badges : State d.m d.env
  pub scitt_key_store : Option (KeyStoreState Key)
  pub scitt_verification_cache : Option (ScittVerificationCache d.stores)

abbrev pub setup_of : {Key : Type 0} (d : AnsCrates Key) → ScittConfig → ScittSetup Key d.env.World
setup_of d config = record {
  m = d.stores;
  crates = d.crates;
  env = d.scitt;
  parse_leaf = d.parse_leaf;
  key_config = d.key_config;
  skew = config.clock_skew_tolerance;
}

module _ {Key : Type 0} (d : AnsCrates Key) where
  abbrev pub St : Type 0
  St = AnsState d

  -- A call of the badge verifiers, which share the world and the badge cache.
  abbrev pub with_badges : {A : Type 0} → (State d.m d.env → A × State d.m d.env) → St → A × St
  with_badges run s = let (a, badges) = run s.badges in (a, record s { badges = badges })

  abbrev pub scitt_state :
      (config : ScittConfig) → KeyStoreState Key → St → ScittState (setup_of d config)
  scitt_state config keys s = record {
    world = s.badges.world;
    keys = keys;
    cache = s.scitt_verification_cache;
  }

  abbrev pub after_scitt :
      (config : ScittConfig)
      → St
      → Option VerificationOutcome × ScittState (setup_of d config)
      → Option VerificationOutcome × St
  after_scitt config s (outcome, t) = (
    outcome,
    record {
      badges = record s.badges { world = t.world };
      scitt_key_store = some t.keys;
      scitt_verification_cache = t.cache;
    },
  )

  abbrev pub try_scitt :
      ScittConfig
      → KeyStoreState Key
      → CertIdentity
      → ScittHeaders
      → Bool
      → Option Text
      → St
      → Option VerificationOutcome × St
  try_scitt config keys cert headers is_server dialed s = after_scitt config s (
      try_scitt_verification (setup_of d config) cert headers is_server dialed
        (scitt_state config keys s))

  -- Artifacts without a status token are refused.
  abbrev pub or_missing : Option VerificationOutcome → VerificationOutcome
  or_missing none = scitt_error missing_token_field
  or_missing (some outcome) = outcome

  -- The badge of the first outcome is carried into the second.
  abbrev pub with_badge : Option Badge → VerificationOutcome → VerificationOutcome
  with_badge badge (scitt_verified vt tier fp _) = scitt_verified vt tier fp badge
  with_badge badge outcome = outcome

  -- The outcome of the badge, raised to that of the artifacts where there are any. The keys are
  -- those that the badge's verification leaves as they are.
  abbrev pub enhance :
      (St → Option VerificationOutcome × St)
      → ScittHeaders
      → VerificationOutcome × St
      → VerificationOutcome × St
  enhance try headers (badge_outcome, s) =
      if not (is_success badge_outcome) || is_empty headers
      then (badge_outcome, s)
      else let (outcome, s') = try s in
        (with_badge (badge_of badge_outcome) (or_missing outcome), s')

  module _ (v : AnsVerifier) where
    abbrev pub verify_server_badge : Fqdn → CertIdentity → St → VerificationOutcome × St
    verify_server_badge fqdn cert =
        with_badges (verify d.m d.env d.crates.crypto v.server_verifier fqdn cert)

    abbrev pub verify_client_badge : CertIdentity → St → VerificationOutcome × St
    verify_client_badge cert =
        with_badges (verify_client d.m d.env d.crates.crypto v.client_verifier cert)

    abbrev pub with_fqdn :
        {A : Type 0}
        → (ParseError → A)
        → (Fqdn → St → A × St)
        → Result ParseError Fqdn
        → St
        → A × St
    with_fqdn failed run (err e) s = (failed e, s)
    with_fqdn failed run (ok fqdn) s = run fqdn s

    -- `AnsVerifier::verify_server`
    unfoldable pub verify_server : Text → CertIdentity → St → VerificationOutcome × St
    verify_server fqdn cert =
        with_fqdn parse_error (λ f. verify_server_badge f cert) (Fqdn.new fqdn)

    -- `AnsVerifier::prefetch`
    unfoldable pub prefetch_badge : Text → St → Result AnsError Badge × St
    prefetch_badge fqdn =
        with_fqdn (λ e. err (parse e))
          (λ f. with_badges (prefetch d.m d.env d.crates.crypto v.server_verifier f))
          (Fqdn.new fqdn)

    abbrev pub enforce :
        Fqdn → CertIdentity → Option VerificationOutcome × St → VerificationOutcome × St
    enforce fqdn cert (outcome, s) =
        with_badges
          (enforce_dane d.m d.env d.crates.crypto v.server_verifier fqdn cert (or_missing outcome))
          s

    unfoldable pub verify_scitt_first :
        ScittConfig
        → KeyStoreState Key
        → Fqdn
        → CertIdentity
        → ScittHeaders
        → Bool
        → St
        → VerificationOutcome × St
    verify_scitt_first config keys fqdn cert headers allow_badge_fallback s =
        if is_empty headers
        then (if allow_badge_fallback
            then verify_server_badge fqdn cert s
            else (scitt_error missing_token_field, s))
        else enforce fqdn cert (try_scitt config keys cert headers true (some fqdn.name) s)

    abbrev pub refused_if_missing : Option VerificationOutcome × St → VerificationOutcome × St
    refused_if_missing (outcome, s) = (or_missing outcome, s)

    unfoldable pub verify_client_scitt_first :
        ScittConfig
        → KeyStoreState Key
        → CertIdentity
        → ScittHeaders
        → Bool
        → St
        → VerificationOutcome × St
    verify_client_scitt_first config keys cert headers allow_badge_fallback s =
        if is_empty headers
        then (if allow_badge_fallback
            then verify_client_badge cert s
            else (scitt_error missing_token_field, s))
        else refused_if_missing (try_scitt config keys cert headers false none s)

    abbrev pub by_policy :
        ScittTierPolicy
        → ScittConfig
        → KeyStoreState Key
        → Fqdn
        → CertIdentity
        → ScittHeaders
        → St
        → VerificationOutcome × St
    by_policy scitt_with_badge_fallback config keys fqdn cert headers s =
        verify_scitt_first config keys fqdn cert headers true s
    by_policy require_scitt config keys fqdn cert headers s =
        verify_scitt_first config keys fqdn cert headers false s
    by_policy badge_with_scitt_enhancement config keys fqdn cert headers s =
        enhance (try_scitt config keys cert headers true (some fqdn.name)) headers
          (verify_server_badge fqdn cert s)

    abbrev pub server_with :
        Option ScittConfig
        → Option (KeyStoreState Key)
        → Fqdn
        → CertIdentity
        → ScittHeaders
        → St
        → VerificationOutcome × St
    server_with (some config) (some keys) fqdn cert headers s =
        by_policy config.tier_policy config keys fqdn cert headers s
    server_with (some config) none fqdn cert headers s = verify_server_badge fqdn cert s
    server_with none keys fqdn cert headers s = verify_server_badge fqdn cert s

    -- `AnsVerifier::verify_server_with_scitt`
    unfoldable pub verify_server_with_scitt :
        Text → CertIdentity → ScittHeaders → St → VerificationOutcome × St
    unfolding verify_scitt_first
    verify_server_with_scitt fqdn cert headers =
        with_fqdn parse_error (λ f s. server_with v.scitt_config s.scitt_key_store f cert headers s)
          (Fqdn.new fqdn)

    abbrev pub client_by_policy :
        ScittTierPolicy
        → ScittConfig
        → KeyStoreState Key
        → CertIdentity
        → ScittHeaders
        → St
        → VerificationOutcome × St
    client_by_policy scitt_with_badge_fallback config keys cert headers s =
        verify_client_scitt_first config keys cert headers true s
    client_by_policy require_scitt config keys cert headers s =
        verify_client_scitt_first config keys cert headers false s
    client_by_policy badge_with_scitt_enhancement config keys cert headers s =
        enhance (try_scitt config keys cert headers false none) headers (verify_client_badge cert s)

    abbrev pub client_with :
        Option ScittConfig
        → Option (KeyStoreState Key)
        → CertIdentity
        → ScittHeaders
        → St
        → VerificationOutcome × St
    client_with (some config) (some keys) cert headers s =
        client_by_policy config.tier_policy config keys cert headers s
    client_with (some config) none cert headers s = verify_client_badge cert s
    client_with none keys cert headers s = verify_client_badge cert s

    -- `AnsVerifier::verify_client_with_scitt`
    unfoldable pub verify_client_with_scitt :
        CertIdentity → ScittHeaders → St → VerificationOutcome × St
    unfolding verify_client_scitt_first
    verify_client_with_scitt cert headers s =
        client_with v.scitt_config s.scitt_key_store cert headers s
