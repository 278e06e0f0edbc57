-- ===== src/Verify/Server/Prefetch.antt =====
-- crates/ans-verify/src/verify.rs: `ServerVerifier::prefetch`, which fills the cache of a host.
use ans_sdk_rust.Prelude.{
  ◌≡◌, refl, ◌||◌, Bool, true, false, List, [], ◌∷◌, Option, none, some, if◌then◌else◌, All,
  Bool-cases, arith, inl, inr,
}
use ans_sdk_rust.Error.{
  Result, ok, err, DnsError, not_found, dns_unavailable, TlogError, tlog_unavailable,
  invalid_response, AnsError, dns_failed, transparency_log,
}
use ans_sdk_rust.Cert
use ans_sdk_rust.Cert.{CertIdentity}
use ans_sdk_rust.Types.Badge.{Badge, is_active, is_deprecated, is_valid_for_connection}
use ans_sdk_rust.Types.Fingerprint.{Crypto}
use ans_sdk_rust.Types.Fqdn.{Fqdn}
use ans_sdk_rust.Cache.{Moka, MokaLaws, invalidate_fqdn}
use ans_sdk_rust.Verify.Env.{Env, BadgeRecord, DnsLookupResult, found}
use ans_sdk_rust.Verify.Env as Env
use ans_sdk_rust.Verify.Policy.{record_tlog_error}
use ans_sdk_rust.Verify.Order.{sort_newest, versions_of}
use ans_sdk_rust.Verify.Server.{
  ServerVerifier, State, with_cache, fetch_all, cache_badge, index_versions,
}
use ans_sdk_rust.Verify.Server.Kept.{Source, StateHolds, forget-Holds}
use ans_sdk_rust.Verify.Server.Loop.{
  Fetched, fetch_all-Fetched, index_versions-Holds, cache_badge-Holds,
}

-- A badge that is active, or deprecated.
abbrev pub is_usable : Badge → Bool
is_usable badge = is_active badge.status || is_deprecated badge.status

abbrev pub prefer : Option Badge → Badge → Option Badge
prefer (some badge) later = some badge
prefer none later = if is_usable later then some later else none

abbrev pub preferred_result : Option Badge → Option AnsError → Result AnsError Badge
preferred_result (some badge) last_error = ok badge
preferred_result none (some e) = err e
preferred_result none none = err (transparency_log invalid_response)

module _ (m : Moka) (env : Env) (c : Crypto) (v : ServerVerifier) where
  unfoldable pub prefetch_results :
      Fqdn
      → Option Badge
      → Option AnsError
      → List (BadgeRecord × Result TlogError Badge)
      → State m env
      → Result AnsError Badge × State m env
  prefetch_results fqdn preferred last_error [] s = (preferred_result preferred last_error, s)
  prefetch_results fqdn preferred last_error ((r, ok badge) ∷ rest) s =
      prefetch_results fqdn (prefer preferred badge) last_error rest
        (cache_badge m env c v fqdn r badge s)
  prefetch_results fqdn preferred last_error ((r, err e) ∷ rest) s =
      prefetch_results fqdn preferred (record_tlog_error last_error e) rest
        (if tlog_unavailable e then s else with_cache m env c (invalidate_fqdn m fqdn) s)

  abbrev prefetch_records :
      Result DnsError (DnsLookupResult BadgeRecord)
      → Fqdn
      → State m env
      → Result AnsError Badge × State m env
  prefetch_records (ok (found records)) fqdn s =
      let sorted = sort_newest records in
      let s' = index_versions m env c v fqdn (versions_of sorted) s in
      let (results, w) = fetch_all m env c v sorted s'.world in
      prefetch_results fqdn none none results (record s' { world = w })
  prefetch_records (ok Env.not_found) fqdn s =
      (err (dns_failed (not_found fqdn.name)), with_cache m env c (invalidate_fqdn m fqdn) s)
  prefetch_records (err e) fqdn s = (
    err (dns_failed e),
    if dns_unavailable e then s else with_cache m env c (invalidate_fqdn m fqdn) s,
  )

  unfoldable pub prefetch : Fqdn → State m env → Result AnsError Badge × State m env
  unfolding prefetch_results
  prefetch fqdn s =
      let (answer, w) = env.lookup_badge fqdn s.world in
      prefetch_records answer fqdn (record s { world = w })

any_cert : CertIdentity
any_cert = Cert.new none [] [] (record { bytes = [] })

-- A badge whose status allows connections and that has `P`.
abbrev pub Usable : (Badge → Type 0) → Badge → Type 0
Usable P badge = (is_valid_for_connection badge.status ≡ true) × P badge

-- The badge of an answer that is no error is usable.
abbrev pub UsableResult : (Badge → Type 0) → Result AnsError Badge → Type 0
UsableResult P (ok badge) = Usable P badge
UsableResult P (err e) = Unit

abbrev UsableOption : (Badge → Type 0) → Option Badge → Type 0
UsableOption P none = Unit
UsableOption P (some badge) = Usable P badge

module _ (m : Moka) (laws : MokaLaws m) (env : Env) (c : Crypto) (P : Badge → Type 0) where
  module _ (fqdn : Fqdn) (cert : CertIdentity) (v : ServerVerifier)
      (source : Source env v.trusted_ra_domains P) where
    prefer-Usable :
        (preferred : Option Badge) (badge : Badge)
        → UsableOption P preferred
        → P badge
        → UsableOption P (prefer preferred badge)
    prefer-Usable (some b) badge h p = h
    prefer-Usable none badge h p = elim (Bool-cases (is_usable badge)) [
      | inl usable ↦ rw usable (ground arith, p)
      | inr unusable ↦ rw unusable tt
    ]

    forget_if :
        (keep : Bool) (s : State m env)
        → StateHolds m laws env c P s
        → StateHolds m laws env c P
            (if keep then s else with_cache m env c (invalidate_fqdn m fqdn) s)
    forget_if true s h = h
    forget_if false s h = forget-Holds m laws env c P fqdn s h

    preferred_result-Usable :
        (preferred : Option Badge) (last_error : Option AnsError)
        → UsableOption P preferred
        → UsableResult P (preferred_result preferred last_error)
    preferred_result-Usable (some badge) e h = h
    preferred_result-Usable none none h = tt
    preferred_result-Usable none (some e) h = tt

    prefetch_results-safe :
        (preferred : Option Badge) (le : Option AnsError)
        (rs : List (BadgeRecord × Result TlogError Badge)) (s : State m env)
        → UsableOption P preferred
        → All (Fetched m laws env c P fqdn cert v source) rs
        → StateHolds m laws env c P s
        → UsableResult P (prefetch_results m env c v fqdn preferred le rs s).0
          × StateHolds m laws env c P (prefetch_results m env c v fqdn preferred le rs s).1
    unfolding prefetch_results
    prefetch_results-safe preferred le [] s u f h = (preferred_result-Usable preferred le u, h)
    prefetch_results-safe preferred le ((r, ok badge) ∷ rest) s u (p, f) h =
        prefetch_results-safe (prefer preferred badge) le rest _
          (prefer-Usable preferred badge u (p badge refl)) f
          (cache_badge-Holds m laws env c P fqdn cert v source r badge s (p badge refl) h)
    prefetch_results-safe preferred le ((r, err e) ∷ rest) s u (p, f) h =
        prefetch_results-safe preferred _ rest _ u f (forget_if (tlog_unavailable e) s h)

    prefetch_records-safe :
        (answer : Result DnsError (DnsLookupResult BadgeRecord)) (s : State m env)
        → StateHolds m laws env c P s
        → UsableResult P (prefetch_records m env c v answer fqdn s).0
          × StateHolds m laws env c P (prefetch_records m env c v answer fqdn s).1
    unfolding prefetch
    prefetch_records-safe (ok (found records)) s h =
        let sorted = sort_newest records in
        prefetch_results-safe none none _ _ tt
          (fetch_all-Fetched m laws env c P fqdn cert v source sorted _)
          (index_versions-Holds m laws env c P fqdn cert v source (versions_of sorted) s h)
    prefetch_records-safe (ok Env.not_found) s h = (tt, forget-Holds m laws env c P fqdn s h)
    prefetch_records-safe (err e) s h = (tt, forget_if (dns_unavailable e) s h)

  -- What a prefetch answers and leaves, on every path. A badge that it returns has a status that
  -- allows connections, and was fetched with a known status for a URL of a trusted domain (it has
  -- every property `P` that these have). Whatever it answers, a badge or an error, the cache, if all
  -- its badges had such a property before, holds only badges that have it afterwards.
  pub prefetch_sound :
      (fqdn : Fqdn) (v : ServerVerifier) (s : State m env)
      → Source env v.trusted_ra_domains P
      → StateHolds m laws env c P s
      → UsableResult P (prefetch m env c v fqdn s).0
        × StateHolds m laws env c P (prefetch m env c v fqdn s).1
  unfolding prefetch
  prefetch_sound fqdn v s source h =
      prefetch_records-safe fqdn any_cert v source (env.lookup_badge fqdn s.world).0
        (record s { world = (env.lookup_badge fqdn s.world).1 }) h
