-- ===== src/Verify/Server/Kept.antt =====
-- What every badge of the cache has is kept, and the outcomes taken from the cache are sound.
use ans_sdk_rust.Prelude.{
  ℕ, ◌≡◌, refl, inl, inr, Bool, true, false, ◌&&◌, List, [], ◌∷◌, Option, none, some, All,
  Option-cases, Bool-cases, arith, ltb,
}
use mathlib.Core.Path.{subst}
use ans_sdk_rust.Text.{Text}
use ans_sdk_rust.Error.{ok, DnsError, dns_unavailable, AnsError}
use ans_sdk_rust.Cert.{CertIdentity}
use ans_sdk_rust.Types.Badge.{Badge, is_unknown}
use ans_sdk_rust.Types.Fingerprint.{Crypto}
use ans_sdk_rust.Types.Fqdn.{Fqdn}
use ans_sdk_rust.Cache.{
  Moka, MokaLaws, BadgeCache, CachedBadge, elapsed, collect_for_fqdn, invalidate_fqdn,
}
use ans_sdk_rust.Cache.Holds.{Holds, Holds-invalidate_fqdn, collect_for_fqdn-All}
use ans_sdk_rust.Verify.Env.{Env}
use ans_sdk_rust.Verify.Policy.{
  FailurePolicy, fail_closed, fail_open_with_cache, validate_badge_domain, may_use_stale,
  outcome_of_error,
}
use ans_sdk_rust.Verify.Outcome.{
  VerificationOutcome, verified, dns_error, is_success, verify_against_badge,
}
use ans_sdk_rust.Verify.Match.{Matched, success-Matched}
use ans_sdk_rust.Verify.Server.{
  ServerVerifier, State, with_cache, map_cache, scan_cache, first_match, stale_match, stale_or,
  handle_dns_error, handle_ans_error,
}

-- Every badge that the log returns for a URL of a trusted domain, with a known status, has `P`.
abbrev pub Source : Env → Option (List Text) → (Badge → Type 0) → Type 0
Source env trusted P =
    (url : Text) (w : env.World) (badge : Badge)
    → validate_badge_domain env trusted url ≡ ok tt
    → (env.fetch_badge url w).0 ≡ ok badge
    → is_unknown badge.status ≡ false
    → P badge

module _ (m : Moka) (laws : MokaLaws m) (env : Env) (c : Crypto) (P : Badge → Type 0) where
  -- Every badge of the verifier's cache has `P`.
  abbrev pub CacheHolds : Option (BadgeCache m) → Type 0
  CacheHolds none = Unit
  CacheHolds (some cache) = Holds m laws P cache

  abbrev pub StateHolds : State m env → Type 0
  StateHolds s = CacheHolds s.cache

  pub map_cache-Holds :
      (f : BadgeCache m → BadgeCache m) (cache : Option (BadgeCache m))
      → ((cache : BadgeCache m) → Holds m laws P cache → Holds m laws P (f cache))
      → CacheHolds cache
      → CacheHolds (map_cache m env c f cache)
  map_cache-Holds f none keep h = tt
  map_cache-Holds f (some cache) keep h = keep cache h

  pub scan_cache-All :
      (now : ℕ) (stale : Bool) (fqdn : Fqdn) (cache : Option (BadgeCache m))
      → CacheHolds cache
      → All (λ w. P w.badge) (scan_cache m env c (collect_for_fqdn m now fqdn stale) cache)
  scan_cache-All now stale fqdn none h = tt
  scan_cache-All now stale fqdn (some cache) h =
      collect_for_fqdn-All m laws P now fqdn stale cache h

  pub forget-Holds :
      (fqdn : Fqdn) (s : State m env)
      → StateHolds s
      → StateHolds (with_cache m env c (invalidate_fqdn m fqdn) s)
  forget-Holds fqdn s h =
      map_cache-Holds (invalidate_fqdn m fqdn) s.cache (Holds-invalidate_fqdn m laws P fqdn) h

  module _ (fqdn : Fqdn) (cert : CertIdentity) where
    -- An accepting outcome carries a badge with `P` that the certificate matches, and the
    -- certificate's own fingerprint.
    pub record Good (o : VerificationOutcome) : Type 0 where
      pub badge : Badge
      pub outcome : o ≡ verified badge cert.fingerprint
      pub matched : Matched c badge cert fqdn
      pub property : P badge

    abbrev pub Sound : VerificationOutcome → Type 0
    Sound o = is_success o ≡ true → Good o

    pub checked-Sound :
        (badge : Badge) → P badge → Sound (verify_against_badge c badge cert fqdn true)
    checked-Sound badge p h =
        let (same, matched) = success-Matched c badge cert fqdn h in
        record { badge = badge; outcome = same; matched = matched; property = p }

    pub first_match-Sound :
        (fits : CachedBadge → Bool) (ws : List CachedBadge) (o : VerificationOutcome)
        → All (λ w. P w.badge) ws
        → first_match m env c fits fqdn cert ws ≡ some o
        → Sound o
    unfolding first_match
    first_match-Sound fits [] o h e = absurd (ground arith)
    first_match-Sound fits (w ∷ ws) o (p, h) e =
        elim (Bool-cases (fits w && is_success (verify_against_badge c w.badge cert fqdn true))) [
          | inl hit ↦
              let same : verify_against_badge c w.badge cert fqdn true ≡ o = ground arith in
              subst Sound same (checked-Sound w.badge p)
          | inr miss ↦ first_match-Sound fits ws o h (rw miss at e)
        ]

    stale_match-Sound :
        (v : ServerVerifier) (max_staleness : ℕ) (s : State m env) (o : VerificationOutcome)
        → StateHolds s
        → stale_match m env c v max_staleness fqdn cert s ≡ some o
        → Sound o
    stale_match-Sound v max_staleness s o h e =
        first_match-Sound (λ cached. ltb (elapsed (env.now s.world) cached) max_staleness) _ o
          (scan_cache-All (env.now s.world) true fqdn s.cache h) e

    module _ (v : ServerVerifier) (source : Source env v.trusted_ra_domains P) where
      -- A result whose outcome is sound and whose cache has `P`.
      abbrev pub Safe : VerificationOutcome × State m env → Type 0
      Safe r = Sound r.0 × StateHolds r.1

      stale_or-Safe :
          (policy : FailurePolicy) (fallback : VerificationOutcome) (s : State m env)
          → is_success fallback ≡ false
          → StateHolds s
          → Safe (stale_or m env c v policy fallback fqdn cert s)
      stale_or-Safe fail_closed fallback s bad h = (λ e. absurd (cc (e, bad)), h)
      stale_or-Safe (fail_open_with_cache n) fallback s bad h =
          elim (Option-cases (stale_match m env c v n fqdn cert s)) [
            | inl none_fits ↦ rw none_fits ((λ e. absurd (cc (e, bad))), h)
            | inr (o, fits) ↦ rw fits (stale_match-Sound v n s o h fits, h)
          ]

      pub handle_dns_error-Safe :
          (e : DnsError) (s : State m env)
          → StateHolds s
          → Safe (handle_dns_error m env c v e fqdn cert s)
      unfolding handle_dns_error
      handle_dns_error-Safe e s h = elim (Bool-cases (dns_unavailable e)) [
        | inl outage ↦
            rw (outage, handle_dns_error) (stale_or-Safe v.failure_policy (dns_error e) s refl h)
        | inr settled ↦ rw (settled, handle_dns_error) ((λ e. absurd (cc e)), forget-Holds fqdn s h)
      ]

      failed : (e : AnsError) → is_success (outcome_of_error fqdn e) ≡ false
      failed e = ground arith

      pub handle_ans_error-Safe :
          (e : AnsError) (s : State m env)
          → StateHolds s
          → Safe (handle_ans_error m env c v e fqdn cert s)
      unfolding handle_ans_error
      handle_ans_error-Safe e s h = elim (Bool-cases (may_use_stale e)) [
        | inl outage ↦
            rw (outage, handle_ans_error)
              (stale_or-Safe v.failure_policy (outcome_of_error fqdn e) s (failed e) h)
        | inr settled ↦
            rw (settled, handle_ans_error)
              ((λ good. absurd (cc (good, failed e))), forget-Holds fqdn s h)
      ]
