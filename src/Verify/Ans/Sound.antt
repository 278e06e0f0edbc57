-- ===== src/Verify/Ans/Sound.antt =====
-- That a peer which presents artifacts, or must, is accepted only for what they prove.
use ans_sdk_rust.Prelude.{
  ◌≡◌, ◌⊎◌, inl, inr, refl, sym, ap, ◌∙◌, Bool, true, false, none, some, Bool-cases,
}
use mathlib.Core.Path.{subst}
use ans_sdk_rust.Text.{Text}
use ans_sdk_rust.Error.{Result, ok, err, ParseError}
use ans_sdk_rust.Cert.{CertIdentity}
use ans_sdk_rust.Types.Fqdn
use ans_sdk_rust.Types.Fqdn.{Fqdn}
use ans_sdk_rust.Scitt.Headers.{ScittHeaders, is_empty}
use ans_sdk_rust.Scitt.KeyStore.{KeyStoreState}
use ans_sdk_rust.Verify.Outcome.{VerificationOutcome, parse_error, is_success}
use ans_sdk_rust.Verify.Server.{verify, verify_badge}
use ans_sdk_rust.Verify.Server.Binding.{DaneMet, enforce_dane-met}
use ans_sdk_rust.Verify.Ans.{
  AnsVerifier, ScittConfig, ScittTierPolicy, scitt_with_badge_fallback, require_scitt,
  badge_with_scitt_enhancement, AnsCrates, AnsState, try_scitt, or_missing, with_badge, by_policy,
  client_by_policy, server_with, client_with, with_fqdn, verify_server_badge, verify_client_badge,
  enforce, verify_scitt_first, verify_client_scitt_first, verify_server_with_scitt,
  verify_client_with_scitt,
}
use ans_sdk_rust.Verify.Ans.Accepted.{
  CratesLaws, Sane, ByScitt, try_scitt-Tried, or_missing-some, enhance-ByScitt,
}

module _ {Key : Type 0} (d : AnsCrates Key) (laws : CratesLaws d) (v : AnsVerifier)
    (config : ScittConfig) (keys : KeyStoreState Key) (cert : CertIdentity) (headers : ScittHeaders)
    (s : AnsState d) where
  -- The peer presents artifacts, or the policy demands them.
  abbrev pub ScittDecides : Type 0
  ScittDecides = (is_empty headers ≡ false) ⊎ (config.tier_policy ≡ require_scitt)

  -- The answer to a server accepts it by its artifacts, which are for the dialed host.
  pub record ServerByScitt (host : Text) (answer : VerificationOutcome × AnsState d) : Type 0 where
    pub fqdn : Fqdn
    pub parsed : Fqdn.new host ≡ ok fqdn
    pub artifacts :
        ByScitt d laws config keys cert headers true
          (some fqdn.name)
          (verify_server_badge d v fqdn cert s)
          s
          answer
    pub dane : DaneMet d.m d.env d.crates.crypto v.server_verifier fqdn cert

  module _ (fqdn : Fqdn) (sane : Sane d laws config keys cert headers true (some fqdn.name) s) where
    abbrev Artifacts : VerificationOutcome × AnsState d → Type 0
    Artifacts answer =
        ByScitt d laws config keys cert headers true (some fqdn.name)
          (verify_server_badge d v fqdn cert s) s answer
        × DaneMet d.m d.env d.crates.crypto v.server_verifier fqdn cert

    first_sound :
        (allow : Bool)
        → is_empty headers ≡ false
        → (config.tier_policy ≡ badge_with_scitt_enhancement → ⊥)
        → is_success (verify_scitt_first d v config keys fqdn cert headers allow s).0 ≡ true
        → Artifacts (verify_scitt_first d v config keys fqdn cert headers allow s)
    unfolding verify_scitt_first
    first_sound allow full other good =
        let answer = try_scitt d config keys cert headers true (some fqdn.name) s in
        let good' : is_success (enforce d v fqdn cert answer).0 ≡ true = rw full at good in
        let (met, same) =
          enforce_dane-met d.m d.env d.crates.crypto v.server_verifier fqdn cert
            (or_missing d answer.0) answer.1.badges good' in
        let passed = sym (ap is_success same) ∙ good' in
        let tried =
          try_scitt-Tried d laws config keys cert headers true (some fqdn.name) tt s
            (or_missing d answer.0) sane
            (or_missing-some d laws config keys cert headers true (some fqdn.name) tt answer.0
              passed)
            passed in
        rw full (
          record {
            badge = none;
            bare = or_missing d answer.0;
            outcome =
                same ∙ tried.checked.outcome ∙ sym (ap (with_badge d none) tried.checked.outcome);
            final = tried.final;
            store = tried.store;
            world = s.badges.world;
            since = inl refl;
            checked = tried.checked;
            by_badge = λ e. absurd (other e);
          },
          met,
        )

    -- A verification by badge meets the DANE policy.
    badge_met :
        is_success (verify_server_badge d v fqdn cert s).0 ≡ true
        → DaneMet d.m d.env d.crates.crypto v.server_verifier fqdn cert
    unfolding verify
    badge_met good =
        let r = verify_badge d.m d.env d.crates.crypto v.server_verifier fqdn cert s.badges in
        (enforce_dane-met d.m d.env d.crates.crypto v.server_verifier fqdn cert r.0 r.1 good).0

    enhance_sound :
        is_empty headers ≡ false
        → is_success (by_policy d v badge_with_scitt_enhancement config keys fqdn cert headers s).0
          ≡ true
        → Artifacts (by_policy d v badge_with_scitt_enhancement config keys fqdn cert headers s)
    enhance_sound full good =
        let (accepted, artifacts) =
          enhance-ByScitt d laws config keys cert headers true (some fqdn.name) tt
            (verify_server_badge d v fqdn cert s) s
            (record { trusted = sane.trusted; seen = sane.seen; caches = sane.caches }) full good in
        (artifacts, badge_met accepted)

    by_policy_sound :
        (policy : ScittTierPolicy)
        → config.tier_policy ≡ policy
        → ScittDecides
        → is_success (by_policy d v policy config keys fqdn cert headers s).0 ≡ true
        → Artifacts (by_policy d v policy config keys fqdn cert headers s)
    unfolding verify_scitt_first
    by_policy_sound scitt_with_badge_fallback e (inl full) good =
        first_sound true full (λ e'. absurd (cc (e, e'))) good
    by_policy_sound scitt_with_badge_fallback e (inr e') good = absurd (cc (e, e'))
    by_policy_sound require_scitt e decides good = elim (Bool-cases (is_empty headers)) [
      | inl empty ↦ absurd (cc (rw empty at good))
      | inr full ↦ first_sound false full (λ e'. absurd (cc (e, e'))) good
    ]
    by_policy_sound badge_with_scitt_enhancement e (inl full) good = enhance_sound full good
    by_policy_sound badge_with_scitt_enhancement e (inr e') good = absurd (cc (e, e'))

  -- A server that presents artifacts, or of which the policy demands them, is accepted only by its
  -- artifacts, never by its badge alone. Under the documented laws of the crates, with no collisions
  -- of SHA-256 among the cache keys of the artifacts that occur, those of the headers included, with
  -- well-formed keys and caches that hold only what was verified, and whatever the policy and the keys
  -- that a refresh brings: an accepted server was dialed at a well-formed host; it presented a status
  -- token that a key trusted at the end signed, whose status is not terminal, which was past its expiry
  -- by no more than the tolerance when it was checked, which lists the server's certificate and is for
  -- that host; if it sent a receipt, that verifies and is bound to the token and the host, and the tier
  -- says whether there was one; the DANE policy is met; and, where badges come first, its badge was
  -- accepted and is in the outcome.
  pub verify_server_with_scitt_sound :
      (host : Text)
      → v.scitt_config ≡ some config
      → s.scitt_key_store ≡ some keys
      → ScittDecides
      → ((fqdn : Fqdn) → Sane d laws config keys cert headers true (some fqdn.name) s)
      → is_success (verify_server_with_scitt d v host cert headers s).0 ≡ true
      → ServerByScitt host (verify_server_with_scitt d v host cert headers s)
  unfolding verify_server_with_scitt
  verify_server_with_scitt_sound host configured keyed decides sane = by_fqdn (Fqdn.new host) refl
    where
      by_fqdn :
          (parsed : Result ParseError Fqdn)
          → Fqdn.new host ≡ parsed
          → is_success
              (with_fqdn d v parse_error
                (λ f s'. server_with d v v.scitt_config s'.scitt_key_store f cert headers s')
                parsed
                s).0
            ≡ true
          → ServerByScitt host (
              with_fqdn d v parse_error
                (λ f s'. server_with d v v.scitt_config s'.scitt_key_store f cert headers s')
                parsed
                s)
      by_fqdn (err e) parsed = λ good. absurd (cc good)
      by_fqdn (ok fqdn) parsed =
          subst (λ answer. is_success answer.0 ≡ true → ServerByScitt host answer)
            (sym (
              ap (λ c. server_with d v c s.scitt_key_store fqdn cert headers s) configured
              ∙ ap (λ k. server_with d v (some config) k fqdn cert headers s) keyed))
            (λ good.
              let (artifacts, dane) =
                by_policy_sound fqdn (sane fqdn) config.tier_policy refl decides good in
              record { fqdn = fqdn; parsed = parsed; artifacts = artifacts; dane = dane })

  module _ (sane : Sane d laws config keys cert headers false none s) where
    abbrev ClientByScitt : VerificationOutcome × AnsState d → Type 0
    ClientByScitt answer =
        ByScitt d laws config keys cert headers false none (verify_client_badge d v cert s) s answer

    client_first_sound :
        (allow : Bool)
        → is_empty headers ≡ false
        → (config.tier_policy ≡ badge_with_scitt_enhancement → ⊥)
        → is_success (verify_client_scitt_first d v config keys cert headers allow s).0 ≡ true
        → ClientByScitt (verify_client_scitt_first d v config keys cert headers allow s)
    unfolding verify_client_scitt_first
    client_first_sound allow full other good =
        let answer = try_scitt d config keys cert headers false none s in
        let good' : is_success (or_missing d answer.0) ≡ true = rw full at good in
        let tried =
          try_scitt-Tried d laws config keys cert headers false none tt s (or_missing d answer.0)
            sane (or_missing-some d laws config keys cert headers false none tt answer.0 good')
            good' in
        rw full (record {
          badge = none;
          bare = or_missing d answer.0;
          outcome = tried.checked.outcome ∙ sym (ap (with_badge d none) tried.checked.outcome);
          final = tried.final;
          store = tried.store;
          world = s.badges.world;
          since = inl refl;
          checked = tried.checked;
          by_badge = λ e. absurd (other e);
        })

    client_by_policy_sound :
        (policy : ScittTierPolicy)
        → config.tier_policy ≡ policy
        → ScittDecides
        → is_success (client_by_policy d v policy config keys cert headers s).0 ≡ true
        → ClientByScitt (client_by_policy d v policy config keys cert headers s)
    unfolding verify_client_scitt_first
    client_by_policy_sound scitt_with_badge_fallback e (inl full) good =
        client_first_sound true full (λ e'. absurd (cc (e, e'))) good
    client_by_policy_sound scitt_with_badge_fallback e (inr e') good = absurd (cc (e, e'))
    client_by_policy_sound require_scitt e decides good = elim (Bool-cases (is_empty headers)) [
      | inl empty ↦ absurd (cc (rw empty at good))
      | inr full ↦ client_first_sound false full (λ e'. absurd (cc (e, e'))) good
    ]
    client_by_policy_sound badge_with_scitt_enhancement e (inl full) good =
        (enhance-ByScitt d laws config keys cert headers false none tt
          (verify_client_badge d v cert s) s
          (record { trusted = sane.trusted; seen = sane.seen; caches = sane.caches }) full good).1
    client_by_policy_sound badge_with_scitt_enhancement e (inr e') good = absurd (cc (e, e'))

  -- A client that presents artifacts, or of which the policy demands them, is accepted only by its
  -- artifacts, never by its badge alone, under the laws and conditions that the server has: it
  -- presented a status token that a key trusted at the end signed, whose status is not terminal, which
  -- was past its expiry by no more than the tolerance when it was checked and to which its certificate
  -- fits as an identity certificate of the token's name; if it sent a receipt, that verifies and is bound to the token and the host of
  -- the certificate; and, where badges come first, its badge was accepted and is in the outcome.
  pub verify_client_with_scitt_sound :
      (sane : Sane d laws config keys cert headers false none s)
      → v.scitt_config ≡ some config
      → s.scitt_key_store ≡ some keys
      → ScittDecides
      → is_success (verify_client_with_scitt d v cert headers s).0 ≡ true
      → ByScitt d laws config keys cert headers false none
          (verify_client_badge d v cert s)
          s
          (verify_client_with_scitt d v cert headers s)
  unfolding verify_client_with_scitt
  verify_client_with_scitt_sound sane configured keyed decides =
      subst
        (λ answer.
          is_success answer.0 ≡ true
          → ByScitt d laws config keys cert headers false none (verify_client_badge d v cert s) s
              answer)
        (sym (
          ap (λ c. client_with d v c s.scitt_key_store cert headers s) configured
          ∙ ap (λ k. client_with d v (some config) k cert headers s) keyed))
        (client_by_policy_sound sane config.tier_policy refl decides)
