-- ===== src/Verify/Server/Complete.antt =====
-- That an agent with several versions is accepted under the version whose badge it matches.
use ans_sdk_rust.Prelude.{
  ◌≡◌, refl, ap, ◌∙◌, inl, inr, Bool, true, false, List, [], ◌∷◌, Option, none, some, if◌then◌else◌,
  Any, here, there, All, Option-cases, Bool-cases, arith, ◌&&◌,
}
use ans_sdk_rust.Error.{Result, ok, err, TlogError, AnsError}
use ans_sdk_rust.Cert.{CertIdentity}
use ans_sdk_rust.Types.Badge.{Badge}
use ans_sdk_rust.Types.Fingerprint.{Crypto}
use ans_sdk_rust.Types.Fqdn.{Fqdn}
use ans_sdk_rust.Cache.{Moka, CachedBadge}
use ans_sdk_rust.Verify.Env.{Env, BadgeRecord, found}
use ans_sdk_rust.Verify.Order.{sort_newest}
use ans_sdk_rust.Verify.Order.Sorted.{sort_newest-Any, sort_newest-All}
use ans_sdk_rust.Verify.Outcome.{
  VerificationOutcome, verified, scitt_verified, wrong_fingerprint, is_success,
  verify_against_badge,
}
use ans_sdk_rust.Verify.Match.{Matched, verify_against_badge_iff}
use ans_sdk_rust.Verify.Server.{
  ServerVerifier, State, LoopEnd, returned, exhausted, first_match, fetch_one, fetch_all,
  on_outcome, check_results, fetch_and_check, finish, verify_against_records, verify_badge,
}
use ans_sdk_rust.Verify.Server.Outage.{fresh_badges}

abbrev is_mismatch : VerificationOutcome → Bool
is_mismatch (wrong_fingerprint _ _ _) = true
is_mismatch _ = false

module _ (m : Moka) (env : Env) (c : Crypto) (v : ServerVerifier) (fqdn : Fqdn)
    (cert : CertIdentity) where
  module _ (answer : BadgeRecord → Result TlogError Badge) where
    -- The log's answer for the record does not depend on when it is asked.
    abbrev pub Steady : Type 0
    Steady = (r : BadgeRecord) (w : env.World) → (fetch_one m env c v r w).0 ≡ answer r

    -- The log answers with a badge that the certificate matches.
    abbrev pub Fits : BadgeRecord → Type 0
    Fits r = (badge : Badge) × ((answer r ≡ ok badge) × Matched c badge cert fqdn)

    abbrev harmless : Result TlogError Badge → Bool
    harmless (err e) = true
    harmless (ok badge) =
        let o = verify_against_badge c badge cert fqdn true in
        if is_success o then true else is_mismatch o

    -- The log's answer is an error, a badge that the certificate matches, or a badge of valid
    -- status that lists other certificates.
    abbrev pub Harmless : BadgeRecord → Type 0
    Harmless r = harmless (answer r) ≡ true

    abbrev Accepts : LoopEnd m env → Type 0
    Accepts (returned o s) = is_success o ≡ true
    Accepts (exhausted mm e s) = ⊥

    on_outcome-Accepts :
        (o : VerificationOutcome) (k : VerificationOutcome → LoopEnd m env) (s : State m env)
        → (if is_success o then true else is_mismatch o) ≡ true
        → (is_success o ≡ false → (o' : VerificationOutcome) → Accepts (k o'))
        → Accepts (on_outcome m env c v o k s)
    on_outcome-Accepts (wrong_fingerprint e a b) k s fine next = next refl _
    on_outcome-Accepts (verified b f) k s fine next = refl
    on_outcome-Accepts (scitt_verified t r f b) k s fine next = refl
    on_outcome-Accepts _ k s fine next = absurd (cc fine)

    -- What the loop is given for the records.
    abbrev FitsResult : BadgeRecord × Result TlogError Badge → Type 0
    FitsResult x = (badge : Badge) × ((x.1 ≡ ok badge) × Matched c badge cert fqdn)

    abbrev HarmlessResult : BadgeRecord × Result TlogError Badge → Type 0
    HarmlessResult x = harmless x.1 ≡ true

    check_results-Accepts :
        (mm : Option VerificationOutcome) (le : Option AnsError)
        (rs : List (BadgeRecord × Result TlogError Badge)) (s : State m env)
        → All HarmlessResult rs
        → Any FitsResult rs
        → Accepts (check_results m env c v fqdn cert mm le rs s)
    unfolding check_results
    check_results-Accepts mm le [] s fine fits = elim fits [ ]
    check_results-Accepts mm le ((r, err e) ∷ rest) s (_, fine) (here (badge, (bad, _))) =
        absurd (ground arith)
    check_results-Accepts mm le ((r, err e) ∷ rest) s (_, fine) (there fits) =
        check_results-Accepts mm _ rest _ fine fits
    check_results-Accepts mm le ((r, ok badge) ∷ rest) s (p, fine) (here (b, (same, matched))) =
        on_outcome-Accepts (verify_against_badge c badge cert fqdn true) _ _ p (λ bad o'.
          let fit = (verify_against_badge_iff c b cert fqdn).1 matched in
          let eq : badge ≡ b = ground arith in
          let good : is_success (verify_against_badge c badge cert fqdn true) ≡ true =
            rw eq (ap is_success fit) in
          absurd (cc (bad, good)))
    check_results-Accepts mm le ((r, ok badge) ∷ rest) s (p, fine) (there fits) =
        on_outcome-Accepts (verify_against_badge c badge cert fqdn true) _ _ p
          (λ bad o'. check_results-Accepts (some o') le rest _ fine fits)

    fetch_all-Harmless :
        (rs : List BadgeRecord) (w : env.World)
        → Steady
        → All Harmless rs
        → All HarmlessResult (fetch_all m env c v rs w).0
    unfolding fetch_all
    fetch_all-Harmless [] w steady h = tt
    fetch_all-Harmless (r ∷ rs) w steady (p, h) =
        (rw (steady r w) p, fetch_all-Harmless rs _ steady h)

    fetch_all-Fits :
        (rs : List BadgeRecord) (w : env.World)
        → Steady
        → Any Fits rs
        → Any FitsResult (fetch_all m env c v rs w).0
    unfolding fetch_all
    fetch_all-Fits [] w steady h = elim h [ ]
    fetch_all-Fits (r ∷ rs) w steady (here (badge, (served, matched))) =
        here (badge, (steady r w ∙ served, matched))
    fetch_all-Fits (r ∷ rs) w steady (there h) = there (fetch_all-Fits rs _ steady h)

    finish-Accepts :
        (end : LoopEnd m env) → Accepts end → is_success (finish m env c v fqdn cert end).0 ≡ true
    finish-Accepts (returned o s) good = good
    finish-Accepts (exhausted mm e s) good = absurd good

    first_match_success :
        (fits : CachedBadge → Bool) (ws : List CachedBadge) (o : VerificationOutcome)
        → first_match m env c fits fqdn cert ws ≡ some o
        → is_success o ≡ true
    unfolding first_match
    first_match_success fits [] o e = absurd (ground arith)
    first_match_success fits (w ∷ ws) o e =
        elim (Bool-cases (fits w && is_success (verify_against_badge c w.badge cert fqdn true))) [
          | inl hit ↦ ground arith
          | inr miss ↦ first_match_success fits ws o (rw miss at e)
        ]

    -- With a log whose answers do not change between the requests: if the resolver gives badge
    -- records of which one leads to a badge that the certificate matches, and each of the others
    -- to an error, to such a badge too, or to a badge of valid status for other certificates, the
    -- server is accepted, in whatever order the records come and whether or not the cache had a
    -- match.
    pub verify_badge_complete :
        (s : State m env) (records : List BadgeRecord)
        → Steady
        → (env.lookup_badge fqdn s.world).0 ≡ ok (found records)
        → All Harmless records
        → Any Fits records
        → is_success (verify_badge m env c v fqdn cert s).0 ≡ true
    unfolding verify_badge verify_against_records fetch_and_check
    verify_badge_complete s records steady looked fine fits =
        let sorted = sort_newest records in
        let cached = fresh_badges m env c fqdn cert s in
        elim (Option-cases (first_match m env c (λ _. true) fqdn cert cached)) [
          | inl miss ↦
              rw (miss, looked, verify_badge)
                (finish-Accepts (fetch_and_check m env c v records fqdn cert _) (
                  check_results-Accepts none none _ _
                    (fetch_all-Harmless sorted _ steady (sort_newest-All Harmless records fine))
                    (fetch_all-Fits sorted _ steady (sort_newest-Any Fits records fits))))
          | inr (o, hit) ↦ rw (hit, verify_badge) (first_match_success (λ _. true) cached o hit)
        ]
