-- ===== src/Verify/Server/Outage.antt =====
-- What a failing resolver leads to: the stale badges that the policy admits, and no others.
use ans_sdk_rust.Prelude.{
  ℕ, ◌≡◌, refl, sym, ap, ◌∙◌, ◌⊎◌, inl, inr, Bool, true, false, ◌&&◌, List, [], ◌∷◌, Option, none,
  some, Any, here, there, Option-cases, Bool-cases, arith, ltb, ltb→lt, ◌<◌, All,
}
use ans_sdk_rust.Error.{Result, ok, err, DnsError, dns_unavailable}
use ans_sdk_rust.Cert.{CertIdentity}
use ans_sdk_rust.Types.Fingerprint.{Crypto}
use ans_sdk_rust.Types.Fqdn.{Fqdn}
use ans_sdk_rust.Cache.{
  Moka, BadgeCache, CachedBadge, elapsed, is_valid, get_all_for_fqdn, get_all_for_fqdn_allow_stale,
  collect_for_fqdn, invalidate_fqdn,
}
use ans_sdk_rust.Cache.Invalidation.{scan_invalidated}
use ans_sdk_rust.Cache.Holds.{collect_for_fqdn-is_valid}
use ans_sdk_rust.Verify.Env.{Env, BadgeRecord, DnsLookupResult, found, not_found}
use ans_sdk_rust.Verify.Policy.{FailurePolicy, fail_closed, fail_open_with_cache}
use ans_sdk_rust.Verify.Outcome.{
  VerificationOutcome, verified, dns_error, is_success, verify_against_badge,
}
use ans_sdk_rust.Verify.Match.{Matched, success-Matched}
use ans_sdk_rust.Verify.Server.{
  ServerVerifier, State, map_cache, scan_cache, cached_badges, first_match, stale_match, stale_or,
  handle_dns_error, after_lookup, verify_badge,
}

module _ (m : Moka) (env : Env) (c : Crypto) (fqdn : Fqdn) (cert : CertIdentity) where
  -- The outcome accepts the certificate, matched against a listed badge that is admitted.
  abbrev pub AcceptedFrom : (CachedBadge → Type 0) → VerificationOutcome → List CachedBadge → Type 0
  AcceptedFrom Admitted o badges =
      Any (λ w. Admitted w × (o ≡ verified w.badge cert.fingerprint) × Matched c w.badge cert fqdn)
        badges

  first_match-finds :
      (Admitted : CachedBadge → Type 0) (fits : CachedBadge → Bool) (ws : List CachedBadge)
      (o : VerificationOutcome)
      → All (λ w. fits w ≡ true → Admitted w) ws
      → first_match m env c fits fqdn cert ws ≡ some o
      → AcceptedFrom Admitted o ws
  unfolding first_match
  first_match-finds Admitted fits [] o h e = absurd (ground arith)
  first_match-finds Admitted fits (w ∷ ws) o (p, h) e =
      elim (Bool-cases (fits w && is_success (verify_against_badge c w.badge cert fqdn true))) [
        | inl hit ↦
            let good : is_success (verify_against_badge c w.badge cert fqdn true) ≡ true =
              ground arith in
            let same : verify_against_badge c w.badge cert fqdn true ≡ o = ground arith in
            let (outcome, matched) = success-Matched c w.badge cert fqdn good in
            here (p (ground arith), sym same ∙ outcome, matched)
        | inr miss ↦ there (first_match-finds Admitted fits ws o h (rw miss at e))
      ]

  every_fit :
      (Admitted : CachedBadge → Type 0) (fits : CachedBadge → Bool) (ws : List CachedBadge)
      → ((w : CachedBadge) → fits w ≡ true → Admitted w)
      → All (λ w. fits w ≡ true → Admitted w) ws
  every_fit Admitted fits [] h = tt
  every_fit Admitted fits (w ∷ ws) h = (h w, every_fit Admitted fits ws h)

  scan_fresh :
      (now : ℕ) (cache : Option (BadgeCache m))
      → All
          (λ w. true ≡ true → is_valid now w ≡ true)
          (scan_cache m env c (get_all_for_fqdn m now fqdn) cache)
  scan_fresh now none = tt
  scan_fresh now (some cache) = collect_for_fqdn-is_valid m now fqdn cache

  abbrev pub fresh_badges : State m env → List CachedBadge
  fresh_badges s = cached_badges m env c (λ now. get_all_for_fqdn m now fqdn) s

  abbrev pub stale_badges : State m env → List CachedBadge
  stale_badges s = cached_badges m env c (λ now. get_all_for_fqdn_allow_stale m now fqdn) s

  module _ (v : ServerVerifier) where
    -- The policy admits stale badges, and one of age below its limit is matched.
    abbrev pub AcceptedStale : VerificationOutcome → State m env → Type 0
    AcceptedStale o s =
        (max_staleness : ℕ) × ((v.failure_policy ≡ fail_open_with_cache max_staleness)
          × AcceptedFrom (λ w. elapsed (env.now s.world) w < max_staleness) o (stale_badges s))

    stale_or-finds :
        (policy : FailurePolicy) (e : DnsError) (s : State m env)
        → v.failure_policy ≡ policy
        → is_success (stale_or m env c v policy (dns_error e) fqdn cert s).0 ≡ true
        → AcceptedStale (stale_or m env c v policy (dns_error e) fqdn cert s).0 s
    stale_or-finds fail_closed e s same good = absurd (cc good)
    stale_or-finds (fail_open_with_cache n) e s same good =
        elim (Option-cases (stale_match m env c v n fqdn cert s)) [
          | inl miss ↦ absurd (ground arith)
          | inr (o, hit) ↦ rw hit (
            n,
            (
              same,
              first_match-finds _ (λ w. ltb (elapsed (env.now s.world) w) n) (stale_badges s) o
                  (every_fit _ _ (stale_badges s) (λ w. ltb→lt (elapsed (env.now s.world) w) n))
                  hit,
            ),
          )
        ]

    after_failure :
        (e : DnsError) (s : State m env)
        → is_success (handle_dns_error m env c v e fqdn cert s).0 ≡ true
        → (dns_unavailable e ≡ true) × AcceptedStale (handle_dns_error m env c v e fqdn cert s).0 s
    unfolding handle_dns_error
    after_failure e s good = elim (Bool-cases (dns_unavailable e)) [
      | inl outage ↦
          let same : handle_dns_error m env c v e fqdn cert s
              ≡ stale_or m env c v v.failure_policy (dns_error e) fqdn cert s =
            rw (outage, handle_dns_error) refl in
          (
            outage,
            rw same (
                stale_or-finds v.failure_policy e s refl
                  (sym (ap (λ r. is_success r.0) same) ∙ good)),
          )
      | inr settled ↦ absurd (ground arith)
    ]

    -- When the lookup of the badge records fails, a server is accepted only under a cached badge
    -- that it matches: one whose time to live has not run out, or else, if the failure is an
    -- outage and the policy is to fail open, one that was fetched less than the policy's limit ago.
    pub outage_accepts_only_cached :
        (s : State m env) (e : DnsError)
        → (env.lookup_badge fqdn s.world).0 ≡ err e
        → is_success (verify_badge m env c v fqdn cert s).0 ≡ true
        → AcceptedFrom
            (λ w. is_valid (env.now s.world) w ≡ true)
            (verify_badge m env c v fqdn cert s).0
            (fresh_badges s)
          ⊎ ((dns_unavailable e ≡ true)
              × AcceptedStale
                  (verify_badge m env c v fqdn cert s).0
                  (record s { world = (env.lookup_badge fqdn s.world).1 }))
    unfolding verify_badge
    outage_accepts_only_cached s e fails good =
        elim (Option-cases (first_match m env c (λ _. true) fqdn cert (fresh_badges s))) [
          | inl miss ↦
              let s' : State m env = record s { world = (env.lookup_badge fqdn s.world).1 } in
              let same : verify_badge m env c v fqdn cert s
                  ≡ handle_dns_error m env c v e fqdn cert s' =
                rw (miss, fails, verify_badge) refl in
              inr (rw same (after_failure e s' (sym (ap (λ r. is_success r.0) same) ∙ good)))
          | inr (o, hit) ↦
              let same : (verify_badge m env c v fqdn cert s).0 ≡ o = rw (hit, verify_badge) refl in
              inl (
                rw same (
                  first_match-finds _ (λ _. true) (fresh_badges s) o
                    (scan_fresh (env.now s.world) s.cache) hit))
        ]

    forgotten :
        (cache : Option (BadgeCache m)) (now : ℕ) (stale : Bool)
        → scan_cache m env c
            (collect_for_fqdn m now fqdn stale)
            (map_cache m env c (invalidate_fqdn m fqdn) cache)
          ≡ []
    forgotten none now stale = refl
    forgotten (some cache) now stale = scan_invalidated m fqdn cache now stale

    -- The badge records of a host are gone or wrong: the resolver says that there are none, or it
    -- answers with an error that is no outage.
    abbrev pub Settled : Result DnsError (DnsLookupResult BadgeRecord) → Type 0
    Settled (ok (found records)) = ⊥
    Settled (ok not_found) = Unit
    Settled (err e) = dns_unavailable e ≡ false

    -- No badge of the host is cached.
    abbrev Forgotten : State m env → Type 0
    Forgotten s =
        (now : ℕ) (stale : Bool)
        → scan_cache m env c (collect_for_fqdn m now fqdn stale) s.cache ≡ []

    stale_or_none :
        (policy : FailurePolicy) (e : DnsError) (s : State m env)
        → Forgotten s
        → (stale_or m env c v policy (dns_error e) fqdn cert s).0 ≡ dns_error e
    unfolding first_match
    stale_or_none fail_closed e s none_left = refl
    stale_or_none (fail_open_with_cache n) e s none_left =
        rw (none_left (env.now s.world) true) refl

    Forgotten-fails :
        (s : State m env) (e : DnsError)
        → Forgotten s
        → (env.lookup_badge fqdn s.world).0 ≡ err e
        → (verify_badge m env c v fqdn cert s).0 ≡ dns_error e
    unfolding verify_badge handle_dns_error first_match
    Forgotten-fails s e none_left fails =
        let s' : State m env = record s { world = (env.lookup_badge fqdn s.world).1 } in
        let none_later : Forgotten s' = none_left in
        rw (none_left (env.now s.world) false, fails)
          (elim (Bool-cases (dns_unavailable e)) [
            | inl outage ↦ rw outage (stale_or_none v.failure_policy e s' none_later)
            | inr settled ↦ rw settled refl
          ])

    after-Settled :
        (answer : Result DnsError (DnsLookupResult BadgeRecord)) (s : State m env)
        → Settled answer
        → (is_success (after_lookup m env c v answer fqdn cert s).0 ≡ false)
          × Forgotten (after_lookup m env c v answer fqdn cert s).1
    unfolding handle_dns_error
    after-Settled (ok (found records)) s settled = absurd settled
    after-Settled (ok not_found) s settled = (refl, forgotten s.cache)
    after-Settled (err e) s settled = rw settled (refl, forgotten s.cache)

    Settled-forgets :
        (s : State m env)
        → first_match m env c (λ _. true) fqdn cert (fresh_badges s) ≡ none
        → Settled (env.lookup_badge fqdn s.world).0
        → (is_success (verify_badge m env c v fqdn cert s).0 ≡ false)
          × Forgotten (verify_badge m env c v fqdn cert s).1
    unfolding verify_badge
    Settled-forgets s miss settled =
        let s' : State m env = record s { world = (env.lookup_badge fqdn s.world).1 } in
        rw (miss, verify_badge) (after-Settled (env.lookup_badge fqdn s.world).0 s' settled)

module _ (m : Moka) (env : Env) (c : Crypto) (fqdn : Fqdn) (v : ServerVerifier) where
  -- A host that is rejected because it has no badge records, or because the lookup fails with an
  -- error that is no outage, stays rejected through a later outage: whatever the cache held, the
  -- policy and the certificate that is presented then, the answer is the resolver's error.
  pub rejection_sticks :
      (s : State m env) (cert cert' : CertIdentity) (later : env.World) (e : DnsError)
      → first_match m env c (λ _. true) fqdn cert (fresh_badges m env c fqdn cert s) ≡ none
      → Settled m env c fqdn cert v (env.lookup_badge fqdn s.world).0
      → (env.lookup_badge fqdn later).0 ≡ err e
      → (is_success (verify_badge m env c v fqdn cert s).0 ≡ false)
        × ((verify_badge m env c v fqdn cert'
              (record (verify_badge m env c v fqdn cert s).1 { world = later })).0
            ≡ dns_error e)
  rejection_sticks s cert cert' later e miss settled fails =
      let (rejected, none_left) = Settled-forgets m env c fqdn cert v s miss settled in
      (rejected, Forgotten-fails m env c fqdn cert' v _ e none_left fails)
