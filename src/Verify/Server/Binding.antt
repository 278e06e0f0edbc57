-- ===== src/Verify/Server/Binding.antt =====
-- The DANE policy on an accepting outcome.
use ans_sdk_rust.Prelude.{
  ◌≡◌, refl, ap, ◌∙◌, sym, inl, inr, ◌⊎◌, true, false, List, Bool-cases, arith,
}
use ans_sdk_rust.Error.{Result, ok, err, DaneError}
use ans_sdk_rust.Cert.{CertIdentity}
use ans_sdk_rust.Types.Fingerprint.{Crypto}
use ans_sdk_rust.Types.Fqdn.{Fqdn}
use ans_sdk_rust.Dane.{
  should_verify, TlsaRecord, matches_cert, verify_dane_cert, DaneVerificationResult,
}
use ans_sdk_rust.Dane.Soundness.{accepts, Admits, verify_dane_cert_iff}
use ans_sdk_rust.Cache.{Moka}
use ans_sdk_rust.Verify.Env.{Env}
use ans_sdk_rust.Verify.Outcome.{VerificationOutcome, is_success}
use ans_sdk_rust.Verify.Server.{
  ServerVerifier, State, check_dane, check_tlsa, tlsa_list, dane_outcome, enforce_dane,
}

module _ (m : Moka) (env : Env) (c : Crypto) (v : ServerVerifier) (fqdn : Fqdn)
    (cert : CertIdentity) where
  -- The DANE policy is met: it is disabled, or it admits the records that the resolver gave.
  abbrev pub DaneMet : Type 0
  DaneMet =
      (should_verify v.dane_policy ≡ false)
      ⊎ ((w : env.World) × ((records : List TlsaRecord) × (tlsa_list m env c v
                (env.lookup_tlsa fqdn v.dane_port w).0
              ≡ ok records)
            × Admits (λ r. matches_cert c r cert) v.dane_policy records))

  dane_outcome-accepts :
      (o : VerificationOutcome) (r : Result DaneError DaneVerificationResult)
      → is_success (dane_outcome m env c v o r) ≡ true
      → (accepts v.dane_policy r ≡ true) × (dane_outcome m env c v o r ≡ o)
  dane_outcome-accepts o (ok result) h = ground arith
  dane_outcome-accepts o (err e) h = absurd (cc h)

  dane_admits :
      (w : env.World) (answer : Result DaneError (List TlsaRecord)) (o : VerificationOutcome)
      → tlsa_list m env c v (env.lookup_tlsa fqdn v.dane_port w).0 ≡ answer
      → is_success (dane_outcome m env c v o (check_tlsa m env c v answer fqdn cert)) ≡ true
      → DaneMet × (dane_outcome m env c v o (check_tlsa m env c v answer fqdn cert) ≡ o)
  dane_admits w (err e) o same h = absurd (cc h)
  dane_admits w (ok records) o same h =
      let (accepted, kept) =
        dane_outcome-accepts o (verify_dane_cert c records cert v.dane_policy fqdn v.dane_port) h in
      (
        inr (
          w,
          (
            records,
            same,
            (verify_dane_cert_iff c records cert v.dane_policy fqdn v.dane_port).0 accepted,
          ),
        ),
        kept,
      )

  check_dane-met :
      (w : env.World) (o : VerificationOutcome)
      → is_success (dane_outcome m env c v o (check_dane m env c v fqdn cert w).0) ≡ true
      → DaneMet × (dane_outcome m env c v o (check_dane m env c v fqdn cert w).0 ≡ o)
  unfolding check_dane
  check_dane-met w o h =
      dane_admits w (tlsa_list m env c v (env.lookup_tlsa fqdn v.dane_port w).0) o refl h

  pub enforce_dane-met :
      (o : VerificationOutcome) (s : State m env)
      → is_success (enforce_dane m env c v fqdn cert o s).0 ≡ true
      → DaneMet × ((enforce_dane m env c v fqdn cert o s).0 ≡ o)
  unfolding enforce_dane
  enforce_dane-met o s h = elim (Bool-cases (is_success o)) [
    | inl good ↦ elim (Bool-cases (should_verify v.dane_policy)) [
      | inl checked ↦
          let e : (enforce_dane m env c v fqdn cert o s).0
              ≡ dane_outcome m env c v o (check_dane m env c v fqdn cert s.world).0 =
            ground arith in
          let (met, kept) = check_dane-met s.world o (sym (ap is_success e) ∙ h) in (met, e ∙ kept)
      | inr unchecked ↦ (inl unchecked, ground arith)
    ]
    | inr bad ↦ absurd (ground arith)
  ]

  pub enforce_dane-cache :
      (o : VerificationOutcome) (s : State m env)
      → (enforce_dane m env c v fqdn cert o s).1.cache ≡ s.cache
  unfolding enforce_dane
  enforce_dane-cache o s = ground arith
