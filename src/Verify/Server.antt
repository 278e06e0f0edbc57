-- ===== src/Verify/Server.antt =====
-- crates/ans-verify/src/verify.rs: `ServerVerifier`. The state is the world and the badge cache,
-- where there is one. `join_all` runs the fetches at once; the model makes them in order, which
-- an environment whose answers depend on the world in any way cannot be told from.
pub mod Binding
pub mod Kept
pub mod Loop
pub mod Sound
pub mod Outage
pub mod Complete
pub mod Prefetch
use ans_sdk_rust.Prelude.{
  ℕ, Bool, true, not, ◌&&◌, List, [], ◌∷◌, Option, none, some, if◌then◌else◌, ltb, text_eq,
}
use ans_sdk_rust.Text.{Text, is_empty}
use ans_sdk_rust.Error.{
  Result, ok, err, DnsError, dns_unavailable, TlogError, tlog_unavailable, DaneError,
  fingerprint_mismatch, dns, AnsError,
}
use ans_sdk_rust.Cert.{CertIdentity}
use ans_sdk_rust.Types.Badge.{Badge}
use ans_sdk_rust.Types.Fingerprint.{Crypto}
use ans_sdk_rust.Types.Fqdn.{Fqdn}
use ans_sdk_rust.Types.Version.{Version}
use ans_sdk_rust.Dane.{
  DanePolicy, should_verify, TlsaRecord, DaneVerificationResult, is_acceptable, verify_dane_cert,
}
use ans_sdk_rust.Cache.{
  Moka, BadgeCache, CachedBadge, elapsed, get_all_for_fqdn, get_all_for_fqdn_allow_stale,
  invalidate_fqdn, set_version_index, insert_for_fqdn_version,
}
use ans_sdk_rust.Verify.Env.{Env, BadgeRecord, DnsLookupResult, found, not_found}
use ans_sdk_rust.Verify.Policy.{
  FailurePolicy, fail_closed, fail_open_with_cache, validate_badge_domain,
  require_known_badge_status, record_tlog_error, may_use_stale, outcome_of_error,
}
use ans_sdk_rust.Verify.Order.{sort_newest, versions_of, version_for}
use ans_sdk_rust.Verify.Outcome.{
  VerificationOutcome, not_ans_agent, wrong_fingerprint, dns_error, dane_error, is_success,
  verify_against_badge,
}

pub record ServerVerifier : Type 0 where
  pub failure_policy : FailurePolicy
  pub dane_policy : DanePolicy
  pub dane_port : ℕ
  pub trusted_ra_domains : Option (List Text)

pub record State (m : Moka) (env : Env) : Type 0 where
  pub world : env.World
  pub cache : Option (BadgeCache m)

-- How the loop over the fetched badges ends: with an outcome, or with the last mismatch and error.
pub data LoopEnd (m : Moka) (env : Env) : Type 0 where
  returned : VerificationOutcome → State m env → LoopEnd m env
  exhausted : Option VerificationOutcome → Option AnsError → State m env → LoopEnd m env

module _ (m : Moka) (env : Env) (c : Crypto) where
  abbrev pub St : Type 0
  St = State m env

  abbrev pub map_cache :
      (BadgeCache m → BadgeCache m) → Option (BadgeCache m) → Option (BadgeCache m)
  map_cache f none = none
  map_cache f (some cache) = some (f cache)

  -- `if let Some(cache) = &self.cache { … }`
  abbrev pub with_cache : (BadgeCache m → BadgeCache m) → St → St
  with_cache f s = record s { cache = map_cache f s.cache }

  abbrev scan_cache : (BadgeCache m → List CachedBadge) → Option (BadgeCache m) → List CachedBadge
  scan_cache scan none = []
  scan_cache scan (some cache) = scan cache

  abbrev cached_badges : (ℕ → BadgeCache m → List CachedBadge) → St → List CachedBadge
  cached_badges scan s = scan_cache (scan (env.now s.world)) s.cache

  -- The scans for the first cached badge that the certificate matches.
  unfoldable pub first_match :
      (CachedBadge → Bool) → Fqdn → CertIdentity → List CachedBadge → Option VerificationOutcome
  first_match fits fqdn cert [] = none
  first_match fits fqdn cert (cached ∷ rest) =
      let later = first_match fits fqdn cert rest in
      let outcome = verify_against_badge c cached.badge cert fqdn true in
      if fits cached && is_success outcome then some outcome else later

  module _ (v : ServerVerifier) where
    -- The stale badges that `FailOpenWithCache` accepts.
    abbrev stale_match : ℕ → Fqdn → CertIdentity → St → Option VerificationOutcome
    stale_match max_staleness fqdn cert s =
        first_match (λ cached. ltb (elapsed (env.now s.world) cached) max_staleness) fqdn cert
          (cached_badges (λ now. get_all_for_fqdn_allow_stale m now fqdn) s)

    abbrev or_else : VerificationOutcome → Option VerificationOutcome → VerificationOutcome
    or_else fallback none = fallback
    or_else fallback (some outcome) = outcome

    -- The `match self.failure_policy` of both handlers.
    abbrev stale_or :
        FailurePolicy → VerificationOutcome → Fqdn → CertIdentity → St → VerificationOutcome × St
    stale_or fail_closed fallback fqdn cert s = (fallback, s)
    stale_or (fail_open_with_cache max_staleness) fallback fqdn cert s =
        (or_else fallback (stale_match max_staleness fqdn cert s), s)

    unfoldable pub handle_dns_error : DnsError → Fqdn → CertIdentity → St → VerificationOutcome × St
    unfolding first_match
    handle_dns_error error fqdn cert s =
        if not (dns_unavailable error)
        then (dns_error error, with_cache (invalidate_fqdn m fqdn) s)
        else stale_or v.failure_policy (dns_error error) fqdn cert s

    unfoldable pub handle_ans_error : AnsError → Fqdn → CertIdentity → St → VerificationOutcome × St
    unfolding first_match
    handle_ans_error error fqdn cert s =
        if not (may_use_stale error)
        then (outcome_of_error fqdn error, with_cache (invalidate_fqdn m fqdn) s)
        else stale_or v.failure_policy (outcome_of_error fqdn error) fqdn cert s

    -- One request of `fetch_badges_parallel`.
    unfoldable pub fetch_one : BadgeRecord → env.World → Result TlogError Badge × env.World
    unfolding validate_badge_domain
    fetch_one r w = elim (validate_badge_domain env v.trusted_ra_domains r.url) [
      | err e ↦ (err e, w)
      | ok _ ↦ let (result, w') = env.fetch_badge r.url w in (require_known_badge_status result, w')
    ]

    unfoldable pub fetch_all :
        List BadgeRecord → env.World → List (BadgeRecord × Result TlogError Badge) × env.World
    fetch_all [] w = ([], w)
    fetch_all (r ∷ rs) w =
        let (result, w') = fetch_one r w in
        let (rest, w'') = fetch_all rs w' in ((r, result) ∷ rest, w'')

    abbrev cache_under : Option Version → Fqdn → Badge → St → St
    cache_under none fqdn badge s = s
    cache_under (some version) fqdn badge s =
        with_cache (insert_for_fqdn_version m (env.now s.world) fqdn version badge) s

    abbrev cache_badge : Fqdn → BadgeRecord → Badge → St → St
    cache_badge fqdn r badge s = cache_under (version_for r badge) fqdn badge s

    -- Only a fingerprint mismatch goes on to the next record.
    abbrev on_outcome :
        VerificationOutcome → (VerificationOutcome → LoopEnd m env) → St → LoopEnd m env
    on_outcome (wrong_fingerprint e a b) continue s = continue (wrong_fingerprint e a b)
    on_outcome outcome continue s = returned outcome s

    -- The loop over the fetched badges.
    unfoldable pub check_results :
        Fqdn
        → CertIdentity
        → Option VerificationOutcome
        → Option AnsError
        → List (BadgeRecord × Result TlogError Badge)
        → St
        → LoopEnd m env
    check_results fqdn cert last_mismatch last_error [] s = exhausted last_mismatch last_error s
    check_results fqdn cert last_mismatch last_error ((r, err e) ∷ rest) s =
        check_results fqdn cert last_mismatch (record_tlog_error last_error e) rest
          (if tlog_unavailable e then s else with_cache (invalidate_fqdn m fqdn) s)
    check_results fqdn cert last_mismatch last_error ((r, ok badge) ∷ rest) s =
        let s' = cache_badge fqdn r badge s in
        on_outcome (verify_against_badge c badge cert fqdn true)
          (λ mismatch. check_results fqdn cert (some mismatch) last_error rest s') s'

    -- `set_version_index`, unless no record carries a version.
    abbrev index_versions : Fqdn → List Version → St → St
    index_versions fqdn [] s = s
    index_versions fqdn (version ∷ rest) s =
        with_cache (set_version_index m fqdn (version ∷ rest)) s

    -- What both passes do up to the loop's end.
    unfoldable pub fetch_and_check : List BadgeRecord → Fqdn → CertIdentity → St → LoopEnd m env
    unfolding check_results fetch_all sort_newest
    fetch_and_check records fqdn cert s =
        let sorted = sort_newest records in
        let s' = index_versions fqdn (versions_of sorted) s in
        let (results, w) = fetch_all sorted s'.world in
        check_results fqdn cert none none results (record s' { world = w })

    abbrev finish_final : Fqdn → CertIdentity → LoopEnd m env → VerificationOutcome × St
    finish_final fqdn cert (returned outcome s) = (outcome, s)
    finish_final fqdn cert (exhausted (some mismatch) _ s) = (mismatch, s)
    finish_final fqdn cert (exhausted none (some e) s) = handle_ans_error e fqdn cert s
    finish_final fqdn cert (exhausted none none s) = (not_ans_agent fqdn.name, s)

    unfoldable pub verify_against_records_final :
        List BadgeRecord → Fqdn → CertIdentity → St → VerificationOutcome × St
    unfolding fetch_and_check
    verify_against_records_final records fqdn cert s =
        finish_final fqdn cert (fetch_and_check records fqdn cert s)

    abbrev after_refresh :
        Result DnsError (DnsLookupResult BadgeRecord)
        → Fqdn
        → CertIdentity
        → St
        → VerificationOutcome × St
    after_refresh (ok (found records)) fqdn cert s =
        verify_against_records_final records fqdn cert s
    after_refresh (ok not_found) fqdn cert s = (not_ans_agent fqdn.name, s)
    after_refresh (err e) fqdn cert s = (dns_error e, s)

    unfoldable pub verify_with_refresh : Fqdn → CertIdentity → St → VerificationOutcome × St
    verify_with_refresh fqdn cert s =
        let s' = with_cache (invalidate_fqdn m fqdn) s in
        let (answer, w) = env.lookup_badge fqdn s'.world in
        after_refresh answer fqdn cert (record s' { world = w })

    abbrev finish : Fqdn → CertIdentity → LoopEnd m env → VerificationOutcome × St
    finish fqdn cert (returned outcome s) = (outcome, s)
    finish fqdn cert (exhausted (some mismatch) _ s) = verify_with_refresh fqdn cert s
    finish fqdn cert (exhausted none (some e) s) = handle_ans_error e fqdn cert s
    finish fqdn cert (exhausted none none s) = (not_ans_agent fqdn.name, s)

    unfoldable pub verify_against_records :
        List BadgeRecord → Fqdn → CertIdentity → St → VerificationOutcome × St
    unfolding fetch_and_check
    verify_against_records records fqdn cert s =
        finish fqdn cert (fetch_and_check records fqdn cert s)

    abbrev after_lookup :
        Result DnsError (DnsLookupResult BadgeRecord)
        → Fqdn
        → CertIdentity
        → St
        → VerificationOutcome × St
    after_lookup (ok (found records)) fqdn cert s = verify_against_records records fqdn cert s
    after_lookup (ok not_found) fqdn cert s =
        (not_ans_agent fqdn.name, with_cache (invalidate_fqdn m fqdn) s)
    after_lookup (err e) fqdn cert s = handle_dns_error e fqdn cert s

    abbrev or_fresh :
        Option VerificationOutcome → Fqdn → CertIdentity → St → VerificationOutcome × St
    or_fresh (some outcome) fqdn cert s = (outcome, s)
    or_fresh none fqdn cert s =
        let (answer, w) = env.lookup_badge fqdn s.world in
        after_lookup answer fqdn cert (record s { world = w })

    unfoldable pub verify_badge : Fqdn → CertIdentity → St → VerificationOutcome × St
    unfolding first_match
    verify_badge fqdn cert s =
        or_fresh
          (first_match (λ _. true) fqdn cert (cached_badges (λ now. get_all_for_fqdn m now fqdn) s))
          fqdn cert s

    abbrev tlsa_list :
        Result DnsError (DnsLookupResult TlsaRecord) → Result DaneError (List TlsaRecord)
    tlsa_list (ok (found records)) = ok records
    tlsa_list (ok not_found) = ok []
    tlsa_list (err e) = err (dns e)

    abbrev check_tlsa :
        Result DaneError (List TlsaRecord)
        → Fqdn
        → CertIdentity
        → Result DaneError DaneVerificationResult
    check_tlsa (ok records) fqdn cert =
        verify_dane_cert c records cert v.dane_policy fqdn v.dane_port
    check_tlsa (err e) fqdn cert = err e

    -- `verify_dane`
    unfoldable pub check_dane :
        Fqdn → CertIdentity → env.World → Result DaneError DaneVerificationResult × env.World
    check_dane fqdn cert w =
        let (answer, w') = env.lookup_tlsa fqdn v.dane_port w in
        (check_tlsa (tlsa_list answer) fqdn cert, w')

    abbrev dane_outcome :
        VerificationOutcome → Result DaneError DaneVerificationResult → VerificationOutcome
    dane_outcome outcome (ok result) =
        if is_acceptable result v.dane_policy then outcome else dane_error fingerprint_mismatch
    dane_outcome outcome (err e) = dane_error e

    unfoldable pub enforce_dane :
        Fqdn → CertIdentity → VerificationOutcome → St → VerificationOutcome × St
    enforce_dane fqdn cert outcome s =
        if not (is_success outcome)
        then (outcome, s)
        else if not (should_verify v.dane_policy)
        then (outcome, s)
        else let (result, w) = check_dane fqdn cert s.world in
          (dane_outcome outcome result, record s { world = w })

    -- `ServerVerifier::verify`
    unfoldable pub verify : Fqdn → CertIdentity → St → VerificationOutcome × St
    verify fqdn cert s =
        let (outcome, s') = verify_badge fqdn cert s in enforce_dane fqdn cert outcome s'
