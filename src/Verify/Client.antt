-- ===== src/Verify/Client.antt =====
-- crates/ans-verify/src/verify.rs: `ClientVerifier`, for mTLS clients.
pub mod Accepted
pub mod Sound
use ans_sdk_rust.Prelude.{ℕ, Bool, true, not, List, [], ◌∷◌, Option, none, some, if◌then◌else◌, ltb}
use ans_sdk_rust.Text.{Text}
use ans_sdk_rust.Error.{
  Result, ok, err, ParseError, no_common_name, no_uri_san, DnsError, dns_unavailable, TlogError,
  tlog_unavailable,
}
use ans_sdk_rust.Cert.{CertIdentity, cert_fqdn, cert_ans_name}
use ans_sdk_rust.Types.AnsName.{AnsName}
use ans_sdk_rust.Types.Badge.{Badge}
use ans_sdk_rust.Types.Fingerprint.{Crypto}
use ans_sdk_rust.Types.Fqdn
use ans_sdk_rust.Types.Fqdn.{Fqdn}
use ans_sdk_rust.Types.Version.{Version}
use ans_sdk_rust.Cache.{
  Moka, BadgeCache, CachedBadge, elapsed, key_of, get_by_fqdn_version,
  get_by_fqdn_version_allow_stale, invalidate, invalidate_fqdn, insert_for_fqdn_version,
}
use ans_sdk_rust.Verify.Env.{Env, BadgeRecord}
use ans_sdk_rust.Verify.Policy.{
  FailurePolicy, fail_closed, fail_open_with_cache, validate_badge_domain,
  require_known_badge_status,
}
use ans_sdk_rust.Verify.Records.{find_badge_for_version, find_preferred_badge}
use ans_sdk_rust.Verify.Outcome.{
  VerificationOutcome, not_ans_agent, wrong_fingerprint, dns_error, tlog_error, cert_error,
  parse_error, verify_client_against_badge,
}
use ans_sdk_rust.Verify.Server.{State, with_cache}

pub record ClientVerifier : Type 0 where
  pub failure_policy : FailurePolicy
  pub trusted_ra_domains : Option (List Text)

module _ (m : Moka) (env : Env) (c : Crypto) (v : ClientVerifier) where
  abbrev St : Type 0
  St = State m env

  abbrev read_cache :
      (BadgeCache m → Option CachedBadge) → Option (BadgeCache m) → Option CachedBadge
  read_cache read none = none
  read_cache read (some cache) = read cache

  abbrev fresh_badge : Fqdn → Version → St → Option CachedBadge
  fresh_badge fqdn version s =
      read_cache (get_by_fqdn_version m (env.now s.world) fqdn version) s.cache

  abbrev stale_badge : Fqdn → Version → St → Option CachedBadge
  stale_badge fqdn version s =
      read_cache (get_by_fqdn_version_allow_stale m (env.now s.world) fqdn version) s.cache

  -- The host and the ANS name are those of the certificate.
  module _ (fqdn : Fqdn) (cert : CertIdentity) (name : AnsName) where
    abbrev version : Version
    version = name.version

    abbrev use_stale : Option CachedBadge → ℕ → VerificationOutcome → St → VerificationOutcome
    use_stale none max_staleness fallback s = fallback
    use_stale (some cached) max_staleness fallback s =
        if ltb (elapsed (env.now s.world) cached) max_staleness
        then verify_client_against_badge c cached.badge cert name
        else fallback

    abbrev stale_or : FailurePolicy → VerificationOutcome → St → VerificationOutcome × St
    stale_or fail_closed fallback s = (fallback, s)
    stale_or (fail_open_with_cache max_staleness) fallback s =
        (use_stale (stale_badge fqdn version s) max_staleness fallback s, s)

    unfoldable pub handle_dns_error : DnsError → St → VerificationOutcome × St
    handle_dns_error error s =
        if not (dns_unavailable error)
        then (dns_error error, with_cache m env c (invalidate_fqdn m fqdn) s)
        else stale_or v.failure_policy (dns_error error) s

    unfoldable pub handle_tlog_error : TlogError → St → VerificationOutcome × St
    handle_tlog_error error s =
        if not (tlog_unavailable error)
        then (tlog_error error, with_cache m env c (invalidate_fqdn m fqdn) s)
        else stale_or v.failure_policy (tlog_error error) s

    -- The URL's domain is validated, and the badge fetched.
    unfoldable pub fetch_record : BadgeRecord → env.World → Result TlogError Badge × env.World
    unfolding validate_badge_domain
    fetch_record r w = elim (validate_badge_domain env v.trusted_ra_domains r.url) [
      | err e ↦ (err e, w)
      | ok _ ↦ let (result, w') = env.fetch_badge r.url w in (require_known_badge_status result, w')
    ]

    abbrev cache_badge : Badge → St → St
    cache_badge badge s =
        with_cache m env c (insert_for_fqdn_version m (env.now s.world) fqdn version badge) s

    abbrev forget_version : St → St
    forget_version s = with_cache m env c (invalidate m (key_of fqdn version)) s

    -- The last step of the refresh: its answer is final.
    abbrev refreshed : Result TlogError Badge → St → VerificationOutcome × St
    refreshed (err e) s = (tlog_error e, s)
    refreshed (ok badge) s = (verify_client_against_badge c badge cert name, cache_badge badge s)

    abbrev refresh_record : BadgeRecord → St → VerificationOutcome × St
    refresh_record r s =
        let (result, w) = fetch_record r s.world in refreshed result (record s { world = w })

    abbrev refresh_preferred : Result DnsError (Option BadgeRecord) → St → VerificationOutcome × St
    refresh_preferred (ok (some r)) s = refresh_record r s
    refresh_preferred (ok none) s = (not_ans_agent fqdn.name, s)
    refresh_preferred (err e) s = (dns_error e, s)

    abbrev refresh_found : Result DnsError (Option BadgeRecord) → St → VerificationOutcome × St
    refresh_found (ok (some r)) s = refresh_record r s
    refresh_found (ok none) s =
        let (answer, w) = find_preferred_badge env fqdn s.world in
        refresh_preferred answer (record s { world = w })
    refresh_found (err e) s = (dns_error e, s)

    unfoldable pub verify_client_with_refresh : St → VerificationOutcome × St
    unfolding fetch_record
    verify_client_with_refresh s =
        let s' = forget_version s in
        let (answer, w) = find_badge_for_version env fqdn version s'.world in
        refresh_found answer (record s' { world = w })

    -- A fingerprint mismatch is looked into once more.
    abbrev or_refresh : VerificationOutcome → St → VerificationOutcome × St
    or_refresh (wrong_fingerprint e a b) s = verify_client_with_refresh s
    or_refresh outcome s = (outcome, s)

    abbrev fetched : Result TlogError Badge → St → VerificationOutcome × St
    fetched (err e) s = handle_tlog_error e s
    fetched (ok badge) s =
        or_refresh (verify_client_against_badge c badge cert name) (cache_badge badge s)

    abbrev try_record : BadgeRecord → St → VerificationOutcome × St
    try_record r s =
        let (result, w) = fetch_record r s.world in fetched result (record s { world = w })

    abbrev try_preferred : Result DnsError (Option BadgeRecord) → St → VerificationOutcome × St
    try_preferred (ok (some r)) s = try_record r s
    try_preferred (ok none) s =
        (not_ans_agent fqdn.name, with_cache m env c (invalidate_fqdn m fqdn) s)
    try_preferred (err e) s = handle_dns_error e s

    abbrev try_found : Result DnsError (Option BadgeRecord) → St → VerificationOutcome × St
    try_found (ok (some r)) s = try_record r s
    try_found (ok none) s =
        let s' = forget_version s in
        let (answer, w) = find_preferred_badge env fqdn s'.world in
        try_preferred answer (record s' { world = w })
    try_found (err e) s = handle_dns_error e s

    abbrev try_cached : Option CachedBadge → St → VerificationOutcome × St
    try_cached (some cached) s = or_refresh (verify_client_against_badge c cached.badge cert name) s
    try_cached none s =
        let (answer, w) = find_badge_for_version env fqdn version s.world in
        try_found answer (record s { world = w })

    unfoldable pub verify_named : St → VerificationOutcome × St
    unfolding verify_client_with_refresh handle_tlog_error handle_dns_error
    verify_named s = try_cached (fresh_badge fqdn version s) s

  abbrev with_name : Option AnsName → Fqdn → CertIdentity → St → VerificationOutcome × St
  with_name none fqdn cert s = (cert_error no_uri_san, s)
  with_name (some name) fqdn cert s = verify_named fqdn cert name s

  abbrev with_fqdn : Result ParseError Fqdn → CertIdentity → St → VerificationOutcome × St
  with_fqdn (err e) cert s = (parse_error e, s)
  with_fqdn (ok fqdn) cert s = with_name (cert_ans_name cert) fqdn cert s

  abbrev with_host : Option Text → CertIdentity → St → VerificationOutcome × St
  with_host none cert s = (cert_error no_common_name, s)
  with_host (some host) cert s = with_fqdn (Fqdn.new host) cert s

  -- `ClientVerifier::verify`
  unfoldable pub verify_client : CertIdentity → St → VerificationOutcome × St
  unfolding verify_named
  verify_client cert s = with_host (cert_fqdn cert) cert s
