-- ===== src/Verify/Server/Loop.antt =====
-- The loop over the fetched badges is sound and keeps the cache.
use ans_sdk_rust.Prelude.{
  ◌≡◌, refl, inl, inr, true, false, List, [], ◌∷◌, Option, none, some, if◌then◌else◌, All,
  Bool-cases, arith,
}
use ans_sdk_rust.Error.{Result, ok, err, Result-cases, TlogError, tlog_unavailable, AnsError}
use ans_sdk_rust.Cert.{CertIdentity}
use ans_sdk_rust.Types.Badge.{Badge, is_unknown}
use ans_sdk_rust.Types.Fingerprint.{Crypto}
use ans_sdk_rust.Types.Fqdn.{Fqdn}
use ans_sdk_rust.Types.Version.{Version}
use ans_sdk_rust.Cache.{Moka, MokaLaws, invalidate_fqdn, set_version_index, insert_for_fqdn_version}
use ans_sdk_rust.Cache.Holds.{Holds-set_version_index, Holds-insert_for_fqdn_version}
use ans_sdk_rust.Verify.Env.{Env, BadgeRecord}
use ans_sdk_rust.Verify.Policy.{
  validate_badge_domain, require_known_badge_status, record_tlog_error,
}
use ans_sdk_rust.Verify.Order.{sort_newest, versions_of, version_for}
use ans_sdk_rust.Verify.Outcome.{
  VerificationOutcome, wrong_fingerprint, is_success, verify_against_badge,
}
use ans_sdk_rust.Verify.Server.{
  ServerVerifier, State, LoopEnd, returned, exhausted, with_cache, fetch_one, fetch_all,
  cache_under, cache_badge, on_outcome, check_results, index_versions, fetch_and_check,
}
use ans_sdk_rust.Verify.Server.Kept.{
  Source, StateHolds, map_cache-Holds, forget-Holds, Sound, checked-Sound,
}

pub require_known-ok :
    (r : Result TlogError Badge) (badge : Badge)
    → require_known_badge_status r ≡ ok badge
    → (r ≡ ok badge) × (is_unknown badge.status ≡ false)
require_known-ok (ok b) badge e = ground arith
require_known-ok (err x) badge e = absurd (ground arith)

module _ (m : Moka) (laws : MokaLaws m) (env : Env) (c : Crypto) (P : Badge → Type 0) where
  module _ (fqdn : Fqdn) (cert : CertIdentity) where
    module _ (v : ServerVerifier) (source : Source env v.trusted_ra_domains P) where
      -- A fetched badge has `P`.
      abbrev pub Fetched : BadgeRecord × Result TlogError Badge → Type 0
      Fetched r = (badge : Badge) → r.1 ≡ ok badge → P badge

      fetch_one-Fetched :
          (r : BadgeRecord) (w : env.World) → Fetched (r, (fetch_one m env c v r w).0)
      unfolding fetch_one
      fetch_one-Fetched r w badge e =
          elim (Result-cases (validate_badge_domain env v.trusted_ra_domains r.url)) [
            | inl (u, good) ↦
                let (fetched, known) =
                  require_known-ok (env.fetch_badge r.url w).0 badge (rw (good, fetch_one) at e) in
                source r.url w badge good fetched known
            | inr (x, bad) ↦ absurd (ground arith)
          ]

      pub fetch_all-Fetched :
          (rs : List BadgeRecord) (w : env.World) → All Fetched (fetch_all m env c v rs w).0
      unfolding fetch_all
      fetch_all-Fetched [] w = tt
      fetch_all-Fetched (r ∷ rs) w =
          (fetch_one-Fetched r w, fetch_all-Fetched rs (fetch_one m env c v r w).1)

      -- The end of the loop: what it returns is sound, and a mismatch is no success.
      abbrev pub EndSafe : LoopEnd m env → Type 0
      EndSafe (returned o s) = Sound m laws env c P fqdn cert o × StateHolds m laws env c P s
      EndSafe (exhausted none e s) = StateHolds m laws env c P s
      EndSafe (exhausted (some o) e s) = (is_success o ≡ false) × StateHolds m laws env c P s

      cache_under-Holds :
          (version : Option Version) (badge : Badge) (s : State m env)
          → P badge
          → StateHolds m laws env c P s
          → StateHolds m laws env c P (cache_under m env c v version fqdn badge s)
      cache_under-Holds none badge s p h = h
      cache_under-Holds (some version) badge s p h =
          map_cache-Holds m laws env c P
            (insert_for_fqdn_version m (env.now s.world) fqdn version badge) s.cache
            (λ cache.
              Holds-insert_for_fqdn_version m laws P (env.now s.world) fqdn version badge cache p)
            h

      pub cache_badge-Holds :
          (r : BadgeRecord) (badge : Badge) (s : State m env)
          → P badge
          → StateHolds m laws env c P s
          → StateHolds m laws env c P (cache_badge m env c v fqdn r badge s)
      cache_badge-Holds r badge s p h = cache_under-Holds (version_for r badge) badge s p h

      on_outcome-EndSafe :
          (o : VerificationOutcome) (k : VerificationOutcome → LoopEnd m env) (s : State m env)
          → Sound m laws env c P fqdn cert o
          → StateHolds m laws env c P s
          → ((o' : VerificationOutcome) → is_success o' ≡ false → EndSafe (k o'))
          → EndSafe (on_outcome m env c v o k s)
      on_outcome-EndSafe (wrong_fingerprint e a b) k s sound h next =
          next (wrong_fingerprint e a b) refl
      on_outcome-EndSafe _ k s sound h next = (sound, h)

      abbrev NoSuccess : Option VerificationOutcome → Type 0
      NoSuccess none = Unit
      NoSuccess (some o) = is_success o ≡ false

      exhausted-EndSafe :
          (mm : Option VerificationOutcome) (e : Option AnsError) (s : State m env)
          → NoSuccess mm
          → StateHolds m laws env c P s
          → EndSafe (exhausted mm e s)
      exhausted-EndSafe none e s ne h = h
      exhausted-EndSafe (some o) e s ne h = (ne, h)

      check_results-EndSafe :
          (mm : Option VerificationOutcome) (le : Option AnsError)
          (rs : List (BadgeRecord × Result TlogError Badge)) (s : State m env)
          → NoSuccess mm
          → All Fetched rs
          → StateHolds m laws env c P s
          → EndSafe (check_results m env c v fqdn cert mm le rs s)
      unfolding check_results
      check_results-EndSafe mm le [] s ne f h = exhausted-EndSafe mm le s ne h
      check_results-EndSafe mm le ((r, err e) ∷ rest) s ne (_, f) h =
          let h' : StateHolds m laws env c P
              (if tlog_unavailable e then s else with_cache m env c (invalidate_fqdn m fqdn) s) =
            elim (Bool-cases (tlog_unavailable e)) [
              | inl outage ↦ rw outage h
              | inr settled ↦ rw settled (forget-Holds m laws env c P fqdn s h)
            ] in
          check_results-EndSafe mm (record_tlog_error le e) rest _ ne f h'
      check_results-EndSafe mm le ((r, ok badge) ∷ rest) s ne (p, f) h =
          let h' = cache_badge-Holds r badge s (p badge refl) h in
          on_outcome-EndSafe (verify_against_badge c badge cert fqdn true) _ _
            (checked-Sound m laws env c P fqdn cert badge (p badge refl)) h'
            (λ o' bad.
              check_results-EndSafe (some o') le rest (cache_badge m env c v fqdn r badge s) bad f
                h')

      pub index_versions-Holds :
          (versions : List Version) (s : State m env)
          → StateHolds m laws env c P s
          → StateHolds m laws env c P (index_versions m env c v fqdn versions s)
      index_versions-Holds [] s h = h
      index_versions-Holds (version ∷ rest) s h =
          map_cache-Holds m laws env c P (set_version_index m fqdn (version ∷ rest)) s.cache
            (Holds-set_version_index m laws P fqdn (version ∷ rest)) h

      pub fetch_and_check-EndSafe :
          (records : List BadgeRecord) (s : State m env)
          → StateHolds m laws env c P s
          → EndSafe (fetch_and_check m env c v records fqdn cert s)
      unfolding fetch_and_check
      fetch_and_check-EndSafe records s h =
          let sorted = sort_newest records in
          let h' = index_versions-Holds (versions_of sorted) s h in
          let w = (index_versions m env c v fqdn (versions_of sorted) s).world in
          check_results-EndSafe none none (fetch_all m env c v sorted w).0 _ tt
            (fetch_all-Fetched sorted w) h'
