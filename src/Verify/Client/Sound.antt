-- ===== src/Verify/Client/Sound.antt =====
-- What a verified client has shown, whatever the resolver and the log answer.
use ans_sdk_rust.Prelude.{◌≡◌, refl, inl, inr, true, Option, none, some, Option-cases}
use ans_sdk_rust.Text.{Text}
use ans_sdk_rust.Error.{Result, ok, err, ParseError, DnsError, TlogError}
use ans_sdk_rust.Cert.{CertIdentity, cert_fqdn, cert_ans_name}
use ans_sdk_rust.Types.AnsName.{AnsName}
use ans_sdk_rust.Types.Badge.{Badge}
use ans_sdk_rust.Types.Fingerprint.{Crypto}
use ans_sdk_rust.Types.Fqdn
use ans_sdk_rust.Types.Fqdn.{Fqdn}
use ans_sdk_rust.Cache.{Moka, MokaLaws}
use ans_sdk_rust.Verify.Env.{Env, BadgeRecord}
use ans_sdk_rust.Verify.Outcome.{
  VerificationOutcome, wrong_fingerprint, dns_error, tlog_error, is_success,
  verify_client_against_badge,
}
use ans_sdk_rust.Verify.Records.{find_badge_for_version, find_preferred_badge}
use ans_sdk_rust.Verify.Server.{State}
use ans_sdk_rust.Verify.Server.Kept.{Source, StateHolds, forget-Holds}
use ans_sdk_rust.Verify.Client.{
  ClientVerifier, fresh_badge, refreshed, refresh_preferred, refresh_found,
  verify_client_with_refresh, or_refresh, fetched, try_preferred, try_found, verify_named,
  with_name, with_fqdn, with_host, verify_client,
}
use ans_sdk_rust.Verify.Client.Accepted.{
  Holding, fresh_badge-Holds, Accepted, Sound, Safe, checked-Sound, failed-Sound,
  handle_dns_error-Safe, handle_tlog_error-Safe, fetch_record-Holds, cache_badge-Safe,
  forget_version-Safe,
}

module _ (m : Moka) (laws : MokaLaws m) (env : Env) (c : Crypto) (P : Badge → Type 0) where
  module _ (v : ClientVerifier) (source : Source env v.trusted_ra_domains P) where
    module _ (fqdn : Fqdn) (cert : CertIdentity) (name : AnsName) where
      refreshed-Safe :
          (result : Result TlogError Badge) (s : State m env)
          → ((badge : Badge) → result ≡ ok badge → P badge)
          → Holding m laws env c P s
          → Safe m laws env c P v source fqdn cert name
              (refreshed m env c v fqdn cert name result s)
      refreshed-Safe (err e) s p h =
          (failed-Sound m laws env c P v source fqdn cert name (tlog_error e) refl, h)
      refreshed-Safe (ok badge) s p h = (
        checked-Sound m laws env c P v source fqdn cert name badge (p badge refl),
        cache_badge-Safe m laws env c P v source fqdn cert name badge s (p badge refl) h,
      )

      refresh_preferred-Safe :
          (answer : Result DnsError (Option BadgeRecord)) (s : State m env)
          → Holding m laws env c P s
          → Safe m laws env c P v source fqdn cert name
              (refresh_preferred m env c v fqdn cert name answer s)
      refresh_preferred-Safe (ok (some r)) s h =
          refreshed-Safe _ _ (fetch_record-Holds m laws env c P v source fqdn cert name r s.world) h
      refresh_preferred-Safe (ok none) s h = ((λ good. absurd (cc good)), h)
      refresh_preferred-Safe (err e) s h =
          (failed-Sound m laws env c P v source fqdn cert name (dns_error e) refl, h)

      refresh_found-Safe :
          (answer : Result DnsError (Option BadgeRecord)) (s : State m env)
          → Holding m laws env c P s
          → Safe m laws env c P v source fqdn cert name
              (refresh_found m env c v fqdn cert name answer s)
      refresh_found-Safe (ok (some r)) s h =
          refreshed-Safe _ _ (fetch_record-Holds m laws env c P v source fqdn cert name r s.world) h
      refresh_found-Safe (ok none) s h =
          refresh_preferred-Safe (find_preferred_badge env fqdn s.world).0 _ h
      refresh_found-Safe (err e) s h =
          (failed-Sound m laws env c P v source fqdn cert name (dns_error e) refl, h)

      or_refresh-Safe :
          (o : VerificationOutcome) (s : State m env)
          → Sound m laws env c P v source fqdn cert name o
          → Holding m laws env c P s
          → Safe m laws env c P v source fqdn cert name (or_refresh m env c v fqdn cert name o s)
      unfolding verify_client_with_refresh
      or_refresh-Safe (wrong_fingerprint e a b) s sound h =
          refresh_found-Safe (find_badge_for_version env fqdn name.version s.world).0 _
            (forget_version-Safe m laws env c P v source fqdn cert name s h)
      or_refresh-Safe _ s sound h = (sound, h)

      fetched-Safe :
          (result : Result TlogError Badge) (s : State m env)
          → ((badge : Badge) → result ≡ ok badge → P badge)
          → Holding m laws env c P s
          → Safe m laws env c P v source fqdn cert name (fetched m env c v fqdn cert name result s)
      fetched-Safe (err e) s p h =
          handle_tlog_error-Safe m laws env c P v source fqdn cert name e s h
      fetched-Safe (ok badge) s p h =
          or_refresh-Safe (verify_client_against_badge c badge cert name) _
            (checked-Sound m laws env c P v source fqdn cert name badge (p badge refl))
            (cache_badge-Safe m laws env c P v source fqdn cert name badge s (p badge refl) h)

      try_preferred-Safe :
          (answer : Result DnsError (Option BadgeRecord)) (s : State m env)
          → Holding m laws env c P s
          → Safe m laws env c P v source fqdn cert name
              (try_preferred m env c v fqdn cert name answer s)
      try_preferred-Safe (ok (some r)) s h =
          fetched-Safe _ _ (fetch_record-Holds m laws env c P v source fqdn cert name r s.world) h
      try_preferred-Safe (ok none) s h =
          ((λ good. absurd (cc good)), forget-Holds m laws env c P fqdn s h)
      try_preferred-Safe (err e) s h =
          handle_dns_error-Safe m laws env c P v source fqdn cert name e s h

      try_found-Safe :
          (answer : Result DnsError (Option BadgeRecord)) (s : State m env)
          → Holding m laws env c P s
          → Safe m laws env c P v source fqdn cert name
              (try_found m env c v fqdn cert name answer s)
      try_found-Safe (ok (some r)) s h =
          fetched-Safe _ _ (fetch_record-Holds m laws env c P v source fqdn cert name r s.world) h
      try_found-Safe (ok none) s h =
          try_preferred-Safe (find_preferred_badge env fqdn s.world).0 _
            (forget_version-Safe m laws env c P v source fqdn cert name s h)
      try_found-Safe (err e) s h =
          handle_dns_error-Safe m laws env c P v source fqdn cert name e s h

      verify_named-Safe :
          (s : State m env)
          → Holding m laws env c P s
          → Safe m laws env c P v source fqdn cert name (verify_named m env c v fqdn cert name s)
      unfolding verify_named
      verify_named-Safe s h = elim (Option-cases (fresh_badge m env c v fqdn name.version s)) [
        | inl miss ↦
            rw (miss, verify_named)
              (try_found-Safe (find_badge_for_version env fqdn name.version s.world).0 _ h)
        | inr (cached, hit) ↦
            rw (hit, verify_named)
              (or_refresh-Safe _ s
                (checked-Sound m laws env c P v source fqdn cert name cached.badge
                  (fresh_badge-Holds m laws env c P v source fqdn name.version s cached h hit))
                h)
      ]

    -- The certificate names a host and an agent, under which it was accepted.
    abbrev pub NamedAccepted : CertIdentity → VerificationOutcome → Type 0
    NamedAccepted cert o =
        (host : Text) × ((fqdn : Fqdn) × ((name : AnsName) × ((cert_fqdn cert ≡ some host)
              × (Fqdn.new host ≡ ok fqdn)
              × (cert_ans_name cert ≡ some name)
              × Accepted m laws env c P v source fqdn cert name o)))

    abbrev ClientSafe : CertIdentity → VerificationOutcome × State m env → Type 0
    ClientSafe cert r =
        (is_success r.0 ≡ true → NamedAccepted cert r.0) × Holding m laws env c P r.1

    with_name-Safe :
        (cert : CertIdentity) (host : Text) (fqdn : Fqdn) (named : Option AnsName) (s : State m env)
        → cert_fqdn cert ≡ some host
        → Fqdn.new host ≡ ok fqdn
        → cert_ans_name cert ≡ named
        → Holding m laws env c P s
        → ClientSafe cert (with_name m env c v named fqdn cert s)
    with_name-Safe cert host fqdn none s a b e h = ((λ good. absurd (cc good)), h)
    with_name-Safe cert host fqdn (some name) s a b e h =
        let (sound, kept) = verify_named-Safe fqdn cert name s h in
        ((λ good. (host, (fqdn, (name, (a, b, e, sound good))))), kept)

    with_fqdn-Safe :
        (cert : CertIdentity) (host : Text) (parsed : Result ParseError Fqdn) (s : State m env)
        → cert_fqdn cert ≡ some host
        → Fqdn.new host ≡ parsed
        → Holding m laws env c P s
        → ClientSafe cert (with_fqdn m env c v parsed cert s)
    with_fqdn-Safe cert host (err e) s a b h = ((λ good. absurd (cc good)), h)
    with_fqdn-Safe cert host (ok fqdn) s a b h =
        with_name-Safe cert host fqdn (cert_ans_name cert) s a b refl h

    with_host-Safe :
        (cert : CertIdentity) (host : Option Text) (s : State m env)
        → cert_fqdn cert ≡ host
        → Holding m laws env c P s
        → ClientSafe cert (with_host m env c v host cert s)
    with_host-Safe cert none s a h = ((λ good. absurd (cc good)), h)
    with_host-Safe cert (some host) s a h = with_fqdn-Safe cert host (Fqdn.new host) s a refl h

  -- Whatever the resolver, the log and the clock answer: a client that is verified presented a
  -- certificate with a host name that is well-formed and with an ANS name, and matched, under that
  -- ANS name, a badge whose status allows connections, by an identity fingerprint of that badge and
  -- by its host; the outcome carries that badge and the certificate's own fingerprint; and that
  -- badge came from the cache or was fetched with a known status for a URL of a trusted domain.
  pub verify_client_sound :
      (v : ClientVerifier) (source : Source env v.trusted_ra_domains P) (cert : CertIdentity)
      (s : State m env)
      → StateHolds m laws env c P s
      → is_success (verify_client m env c v cert s).0 ≡ true
      → NamedAccepted v source cert (verify_client m env c v cert s).0
  unfolding verify_client
  verify_client_sound v source cert s h = (with_host-Safe v source cert (cert_fqdn cert) s refl h).0

  -- Whatever the outcome, the cache after the verification of a client holds only badges with the
  -- properties that its badges had before and that every badge fetched with a known status for a
  -- URL of a trusted domain has.
  pub verify_client_keeps :
      (v : ClientVerifier) (source : Source env v.trusted_ra_domains P) (cert : CertIdentity)
      (s : State m env)
      → StateHolds m laws env c P s
      → StateHolds m laws env c P (verify_client m env c v cert s).1
  unfolding verify_client
  verify_client_keeps v source cert s h = (with_host-Safe v source cert (cert_fqdn cert) s refl h).1
