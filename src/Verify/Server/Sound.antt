-- ===== src/Verify/Server/Sound.antt =====
-- What a verified server has shown, whatever the resolver and the log answer.
use ans_sdk_rust.Prelude.{◌≡◌, ap, sym, ◌∙◌, inl, inr, true, false, none, some, Option-cases}
use mathlib.Core.Path.{subst}
use ans_sdk_rust.Error.{Result, ok, err, DnsError}
use ans_sdk_rust.Cert.{CertIdentity}
use ans_sdk_rust.Types.Badge.{Badge}
use ans_sdk_rust.Types.Fingerprint.{Crypto}
use ans_sdk_rust.Types.Fqdn.{Fqdn}
use ans_sdk_rust.Cache.{Moka, MokaLaws, get_all_for_fqdn}
use ans_sdk_rust.Verify.Env.{Env, BadgeRecord, DnsLookupResult, found, not_found}
use ans_sdk_rust.Verify.Outcome.{is_success}
use ans_sdk_rust.Verify.Server.Binding.{DaneMet, enforce_dane-met, enforce_dane-cache}
use ans_sdk_rust.Verify.Server.{
  ServerVerifier, State, LoopEnd, returned, exhausted, cached_badges, first_match, fetch_and_check,
  finish_final, after_refresh, finish, after_lookup, verify_against_records_final,
  verify_with_refresh, verify_against_records, verify_badge, verify,
}
use ans_sdk_rust.Verify.Server.Kept.{
  Source, StateHolds, scan_cache-All, forget-Holds, Good, first_match-Sound, Safe,
  handle_dns_error-Safe, handle_ans_error-Safe,
}
use ans_sdk_rust.Verify.Server.Loop.{EndSafe, fetch_and_check-EndSafe}

module _ (m : Moka) (laws : MokaLaws m) (env : Env) (c : Crypto) (P : Badge → Type 0) where
  module _ (fqdn : Fqdn) (cert : CertIdentity) where
    module _ (v : ServerVerifier) (source : Source env v.trusted_ra_domains P) where
      finish_final-Safe :
          (end : LoopEnd m env)
          → EndSafe m laws env c P fqdn cert v source end
          → Safe m laws env c P fqdn cert v source (finish_final m env c v fqdn cert end)
      finish_final-Safe (returned o s) h = h
      finish_final-Safe (exhausted none none s) h = ((λ e. absurd (cc e)), h)
      finish_final-Safe (exhausted none (some e) s) h =
          handle_ans_error-Safe m laws env c P fqdn cert v source e s h
      finish_final-Safe (exhausted (some o) e s) (bad, h) = ((λ good. absurd (cc (good, bad))), h)

      after_refresh-Safe :
          (answer : Result DnsError (DnsLookupResult BadgeRecord)) (s : State m env)
          → StateHolds m laws env c P s
          → Safe m laws env c P fqdn cert v source (after_refresh m env c v answer fqdn cert s)
      unfolding verify_against_records_final
      after_refresh-Safe (ok (found records)) s h =
          finish_final-Safe (fetch_and_check m env c v records fqdn cert s)
            (fetch_and_check-EndSafe m laws env c P fqdn cert v source records s h)
      after_refresh-Safe (ok not_found) s h = ((λ e. absurd (cc e)), h)
      after_refresh-Safe (err x) s h = ((λ e. absurd (cc e)), h)

      finish-Safe :
          (end : LoopEnd m env)
          → EndSafe m laws env c P fqdn cert v source end
          → Safe m laws env c P fqdn cert v source (finish m env c v fqdn cert end)
      unfolding verify_with_refresh
      finish-Safe (returned o s) h = h
      finish-Safe (exhausted none none s) h = ((λ e. absurd (cc e)), h)
      finish-Safe (exhausted none (some e) s) h =
          handle_ans_error-Safe m laws env c P fqdn cert v source e s h
      finish-Safe (exhausted (some o) e s) (bad, h) =
          after_refresh-Safe (env.lookup_badge fqdn s.world).0 _
            (forget-Holds m laws env c P fqdn s h)

      after_lookup-Safe :
          (answer : Result DnsError (DnsLookupResult BadgeRecord)) (s : State m env)
          → StateHolds m laws env c P s
          → Safe m laws env c P fqdn cert v source (after_lookup m env c v answer fqdn cert s)
      unfolding verify_against_records
      after_lookup-Safe (ok (found records)) s h =
          finish-Safe (fetch_and_check m env c v records fqdn cert s)
            (fetch_and_check-EndSafe m laws env c P fqdn cert v source records s h)
      after_lookup-Safe (ok not_found) s h =
          ((λ e. absurd (cc e)), forget-Holds m laws env c P fqdn s h)
      after_lookup-Safe (err x) s h = handle_dns_error-Safe m laws env c P fqdn cert v source x s h

      verify_badge-Safe :
          (s : State m env)
          → StateHolds m laws env c P s
          → Safe m laws env c P fqdn cert v source (verify_badge m env c v fqdn cert s)
      unfolding verify_badge
      verify_badge-Safe s h =
          let badges = cached_badges m env c (λ now. get_all_for_fqdn m now fqdn) s in
          elim (Option-cases (first_match m env c (λ _. true) fqdn cert badges)) [
            | inl miss ↦
                rw (miss, verify_badge)
                  (after_lookup-Safe (env.lookup_badge fqdn s.world).0
                    (record s { world = (env.lookup_badge fqdn s.world).1 }) h)
            | inr (o, hit) ↦
                rw (hit, verify_badge)
                  (
                    first_match-Sound m laws env c P fqdn cert (λ _. true) badges o
                        (scan_cache-All m laws env c P (env.now s.world) false fqdn s.cache h) hit,
                    h,
                  )
          ]

    -- Whatever the resolver, the log and the clock answer: a server that is verified was matched
    -- against a badge whose status allows connections, by a server fingerprint of that badge, at
    -- the host that was dialed, and the outcome carries that badge and the certificate's own
    -- fingerprint; that badge came from the cache or was fetched with a known status for a URL of a
    -- trusted domain (it has every property `P` that these have); and the DANE policy is met.
    pub verify_sound :
        (v : ServerVerifier) (s : State m env)
        → Source env v.trusted_ra_domains P
        → StateHolds m laws env c P s
        → is_success (verify m env c v fqdn cert s).0 ≡ true
        → Good m laws env c P fqdn cert (verify m env c v fqdn cert s).0
          × DaneMet m env c v fqdn cert
    unfolding verify
    verify_sound v s source h good =
        let r = verify_badge m env c v fqdn cert s in
        let (met, same) = enforce_dane-met m env c v fqdn cert r.0 r.1 good in
        (
          subst (Good m laws env c P fqdn cert) (sym same)
              ((verify_badge-Safe v source s h).0 (sym (ap is_success same) ∙ good)),
          met,
        )

    -- Whatever the outcome, errors and rejections included, the cache after a verification holds
    -- only badges with the properties that its badges had before and that every badge fetched with
    -- a known status for a URL of a trusted domain has.
    pub verify_keeps :
        (v : ServerVerifier) (s : State m env)
        → Source env v.trusted_ra_domains P
        → StateHolds m laws env c P s
        → StateHolds m laws env c P (verify m env c v fqdn cert s).1
    unfolding verify
    verify_keeps v s source h =
        let r = verify_badge m env c v fqdn cert s in
        rw (enforce_dane-cache m env c v fqdn cert r.0 r.1) (verify_badge-Safe v source s h).1
