-- ===== src/Verify/Client/Accepted.antt =====
-- What the parts of a client's verification keep: the cached badges, the fallbacks and the fetches.
use ans_sdk_rust.Prelude.{
  ℕ, ◌≡◌, refl, inl, inr, true, false, Option, none, some, Option-cases, Bool-cases, arith, ltb,
}
use ans_sdk_rust.Error.{ok, Result-cases, DnsError, dns_unavailable, TlogError, tlog_unavailable}
use ans_sdk_rust.Cert.{CertIdentity}
use ans_sdk_rust.Types.AnsName.{AnsName}
use ans_sdk_rust.Types.Badge.{Badge}
use ans_sdk_rust.Types.Fingerprint.{Crypto}
use ans_sdk_rust.Types.Fqdn.{Fqdn}
use ans_sdk_rust.Types.Version.{Version}
use ans_sdk_rust.Cache.{
  Moka, MokaLaws, BadgeCache, CachedBadge, key_of, elapsed, get, get_allow_stale, invalidate,
  insert_for_fqdn_version,
}
use ans_sdk_rust.Cache.Holds.{Holds-invalidate, Holds-insert_for_fqdn_version, get-Holds}
use ans_sdk_rust.Verify.Env.{Env, BadgeRecord}
use ans_sdk_rust.Verify.Policy.{
  FailurePolicy, fail_closed, fail_open_with_cache, validate_badge_domain,
}
use ans_sdk_rust.Verify.Outcome.{
  VerificationOutcome, verified, dns_error, tlog_error, is_success, verify_client_against_badge,
}
use ans_sdk_rust.Verify.Match.{MatchedClient, client_success-Matched}
use ans_sdk_rust.Verify.Server.{State}
use ans_sdk_rust.Verify.Server.Kept.{Source, CacheHolds, StateHolds, map_cache-Holds, forget-Holds}
use ans_sdk_rust.Verify.Server.Loop.{require_known-ok}
use ans_sdk_rust.Verify.Client.{
  ClientVerifier, read_cache, fresh_badge, stale_badge, stale_or, use_stale, handle_dns_error,
  handle_tlog_error, fetch_record, cache_badge, forget_version,
}

module _ (m : Moka) (laws : MokaLaws m) (env : Env) (c : Crypto) (P : Badge → Type 0) where
  abbrev pub Holding : State m env → Type 0
  Holding s = StateHolds m laws env c P s

  module _ (v : ClientVerifier) (source : Source env v.trusted_ra_domains P) where
    pub fresh_badge-Holds :
        (fqdn : Fqdn) (version : Version) (s : State m env) (cached : CachedBadge)
        → Holding s
        → fresh_badge m env c v fqdn version s ≡ some cached
        → P cached.badge
    fresh_badge-Holds fqdn version s cached h e = go s.cache h e
      where
        go :
            (cache : Option (BadgeCache m))
            → CacheHolds m laws env c P cache
            → read_cache m env c v (get m (env.now s.world) (key_of fqdn version)) cache
              ≡ some cached
            → P cached.badge
        go none h e = absurd (cc e)
        go (some cache) h e =
            get-Holds m laws P (env.now s.world) (key_of fqdn version) cache cached h e

    stale_badge-Holds :
        (fqdn : Fqdn) (version : Version) (s : State m env) (cached : CachedBadge)
        → Holding s
        → stale_badge m env c v fqdn version s ≡ some cached
        → P cached.badge
    unfolding get_allow_stale
    stale_badge-Holds fqdn version s cached h e = go s.cache h e
      where
        go :
            (cache : Option (BadgeCache m))
            → CacheHolds m laws env c P cache
            → read_cache m env c v (get_allow_stale m (env.now s.world) (key_of fqdn version)) cache
              ≡ some cached
            → P cached.badge
        go none h e = absurd (cc e)
        go (some cache) h e = h (env.now s.world) (key_of fqdn version) cached e

    module _ (fqdn : Fqdn) (cert : CertIdentity) (name : AnsName) where
      -- An accepting outcome carries a badge with `P` that the certificate matches under the name.
      pub record Accepted (o : VerificationOutcome) : Type 0 where
        pub badge : Badge
        pub outcome : o ≡ verified badge cert.fingerprint
        pub matched : MatchedClient c badge cert name
        pub property : P badge

      abbrev pub Sound : VerificationOutcome → Type 0
      Sound o = is_success o ≡ true → Accepted o

      abbrev pub Safe : VerificationOutcome × State m env → Type 0
      Safe r = Sound r.0 × Holding r.1

      pub checked-Sound :
          (badge : Badge) → P badge → Sound (verify_client_against_badge c badge cert name)
      checked-Sound badge p good =
          let (same, matched) = client_success-Matched c badge cert name good in
          record { badge = badge; outcome = same; matched = matched; property = p }

      pub failed-Sound : (o : VerificationOutcome) → is_success o ≡ false → Sound o
      failed-Sound o bad good = absurd (cc (bad, good))

      use_stale-Sound :
          (max_staleness : ℕ) (fallback : VerificationOutcome) (s : State m env)
          → is_success fallback ≡ false
          → Holding s
          → Sound (
              use_stale m env c v fqdn cert name
                (stale_badge m env c v fqdn name.version s)
                max_staleness
                fallback
                s)
      use_stale-Sound n fallback s bad h =
          elim (Option-cases (stale_badge m env c v fqdn name.version s)) [
            | inl miss ↦ rw miss (failed-Sound fallback bad)
            | inr (cached, hit) ↦
                let p = stale_badge-Holds fqdn name.version s cached h hit in
                rw hit (elim (Bool-cases (ltb (elapsed (env.now s.world) cached) n)) [
                  | inl recent ↦ rw recent (checked-Sound cached.badge p)
                  | inr old ↦ rw old (failed-Sound fallback bad)
                ])
          ]

      stale_or-Safe :
          (policy : FailurePolicy) (fallback : VerificationOutcome) (s : State m env)
          → is_success fallback ≡ false
          → Holding s
          → Safe (stale_or m env c v fqdn cert name policy fallback s)
      stale_or-Safe fail_closed fallback s bad h = (failed-Sound fallback bad, h)
      stale_or-Safe (fail_open_with_cache n) fallback s bad h =
          (use_stale-Sound n fallback s bad h, h)

      pub handle_dns_error-Safe :
          (e : DnsError) (s : State m env)
          → Holding s
          → Safe (handle_dns_error m env c v fqdn cert name e s)
      unfolding handle_dns_error
      handle_dns_error-Safe e s h = elim (Bool-cases (dns_unavailable e)) [
        | inl outage ↦
            rw (outage, handle_dns_error) (stale_or-Safe v.failure_policy (dns_error e) s refl h)
        | inr settled ↦
            rw (settled, handle_dns_error)
              (failed-Sound (dns_error e) refl, forget-Holds m laws env c P fqdn s h)
      ]

      pub handle_tlog_error-Safe :
          (e : TlogError) (s : State m env)
          → Holding s
          → Safe (handle_tlog_error m env c v fqdn cert name e s)
      unfolding handle_tlog_error
      handle_tlog_error-Safe e s h = elim (Bool-cases (tlog_unavailable e)) [
        | inl outage ↦
            rw (outage, handle_tlog_error) (stale_or-Safe v.failure_policy (tlog_error e) s refl h)
        | inr settled ↦
            rw (settled, handle_tlog_error)
              (failed-Sound (tlog_error e) refl, forget-Holds m laws env c P fqdn s h)
      ]

      pub fetch_record-Holds :
          (r : BadgeRecord) (w : env.World) (badge : Badge)
          → (fetch_record m env c v fqdn cert name r w).0 ≡ ok badge
          → P badge
      unfolding fetch_record
      fetch_record-Holds r w badge e =
          elim (Result-cases (validate_badge_domain env v.trusted_ra_domains r.url)) [
            | inl (u, good) ↦
                let (answered, known) =
                  require_known-ok (env.fetch_badge r.url w).0 badge
                    (rw (good, fetch_record) at e) in
                source r.url w badge good answered known
            | inr (x, bad) ↦ absurd (ground arith)
          ]

      pub cache_badge-Safe :
          (badge : Badge) (s : State m env)
          → P badge
          → Holding s
          → Holding (cache_badge m env c v fqdn cert name badge s)
      cache_badge-Safe badge s p h =
          map_cache-Holds m laws env c P
            (insert_for_fqdn_version m (env.now s.world) fqdn name.version badge) s.cache
            (λ cache.
              Holds-insert_for_fqdn_version m laws P (env.now s.world) fqdn name.version badge cache
                p)
            h

      pub forget_version-Safe :
          (s : State m env) → Holding s → Holding (forget_version m env c v fqdn cert name s)
      forget_version-Safe s h =
          map_cache-Holds m laws env c P (invalidate m (key_of fqdn name.version)) s.cache
            (Holds-invalidate m laws P (key_of fqdn name.version)) h
