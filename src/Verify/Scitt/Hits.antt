-- ===== src/Verify/Scitt/Hits.antt =====
-- That a cached outcome is the answer that a verification gives.
use ans_sdk_rust.Prelude.{
  ℕ, ◌≡◌, inl, inr, refl, sym, ap, ◌∙◌, true, false, List, Option, none, some, Bool-cases,
}
use ans_sdk_rust.Prelude.Int.{ℤ, leb_ℤ}
use ans_sdk_rust.Error.{ok}
use ans_sdk_rust.Scitt.Certificate.{check_scitt_certificate}
use ans_sdk_rust.Scitt.Identity.{bind_receipt_to_status}
use ans_sdk_rust.Scitt.Keys.{ScittKeyStore}
use ans_sdk_rust.Scitt.Receipt.{receipt_fits_iff}
use ans_sdk_rust.Scitt.Status.{TokenFits}
use ans_sdk_rust.Scitt.Token.{VerificationTier, full_scitt, status_token_verified}
use ans_sdk_rust.Scitt.VerificationCache.{
  ScittVerificationCache, CachedScittOutcome, get_outcome, get_verified_token, get_verified_receipt,
  insert_verified_token, insert_verified_receipt, key_of, unexpired_outcome,
}
use ans_sdk_rust.Verify.Outcome.{VerificationOutcome, scitt_verified}
use ans_sdk_rust.Verify.Scitt.{
  ScittSetup, Ctx, map_opt, hash_with, verify_token, fresh_receipt, cached_outcome, expected_host,
  with_receipt, after_check, from_cached, after_outcome,
}
use ans_sdk_rust.Scitt.Reuse.{Fits, token_hit, receipt_hit}
use ans_sdk_rust.Verify.Scitt.Caches.{
  ScittLaws, ReceiptPart, OutcomeFrom, CacheValid, verifies_again, if_live-some,
}
use ans_sdk_rust.Verify.Scitt.Steps.{if_live-none, through_fresh}
use ans_sdk_rust.Verify.Scitt.Agrees.{
  Req, CacheHolds, Agrees, rejected, Keyed, done_bare, binds_to_expected,
}

module _ {Key World : Type 0} (d : ScittSetup Key World) (laws : ScittLaws d) where
  module _ (q : Req d laws) (snapshot : ScittKeyStore Key) (token_bytes : List ℕ)
      (keyed : Keyed d laws q snapshot token_bytes) (fits : Fits d.crates snapshot) where
    module _ (ctx : Ctx Key World) (in_use : ctx.snapshot ≡ snapshot) (live : ctx.live ≡ true)
        (cache : Option (ScittVerificationCache d.m)) (h : CacheHolds d laws cache) where
      -- The answer of a hit is that of a verification.
      hit_check-Agrees :
          (o : CachedScittOutcome) (check : Option VerificationOutcome)
          → check_scitt_certificate q.cert o.verified_token.payload q.is_server q.dialed_host
            ≡ check
          → OutcomeFrom d laws (key_of q.cert.fingerprint q.token_hash q.receipt_hash) o
          → Agrees d laws
              (some (from_cached d q o check), (ctx, cache))
              (after_check d q o.verified_token check (ctx, none))
      hit_check-Agrees o (some rejection) e from = rejected d laws (some rejection) ctx cache h
      hit_check-Agrees o none e from =
          by_receipt q.headers.receipt q.receipt_hash keyed.receipt refl refl from.receipt
        where
          fingerprint : o.matched_fingerprint ≡ q.cert.fingerprint
          fingerprint = ap (λ (b : List ℕ). record { bytes = b }) from.fingerprint

          answer : VerificationTier → Option VerificationOutcome
          answer tier = some (scitt_verified o.verified_token tier q.cert.fingerprint none)

          by_receipt :
              (receipt hash : Option (List ℕ))
              → hash ≡ map_opt (hash_with d.crates snapshot) receipt
              → q.receipt_hash ≡ hash
              → q.headers.receipt ≡ receipt
              → ReceiptPart d laws hash o.verified_token o.tier
              → Agrees d laws
                  (
                    some (scitt_verified o.verified_token o.tier o.matched_fingerprint none),
                    (ctx, cache),
                  )
                  (with_receipt d q o.verified_token receipt hash (ctx, none))
          by_receipt none none e' at is tier = record {
            outcome = cc (tier, fingerprint);
            ctx = refl;
            bare = done_bare d laws q o.verified_token status_token_verified ctx;
            holds = h;
          }
          by_receipt none (some hash) e' at is part = absurd (cc e')
          by_receipt (some receipt_bytes) none e' at is part = absurd (cc e')
          by_receipt (some receipt_bytes) (some hash) e' at is (tier, (r, (from_r, bound))) =
              let same : hash ≡ hash_with d.crates snapshot receipt_bytes = cc e' in
              let fresh : fresh_receipt d receipt_bytes ctx.snapshot ctx.world ≡ ok r = rw in_use (
                (receipt_fits_iff d.crates receipt_bytes snapshot r).1 (
                  receipt_hit d.crates laws.Occurs laws.collisions laws.points snapshot
                    receipt_bytes r fits (keyed.occurs_receipt receipt_bytes is)
                    (rw same at from_r))) in
              let binds : bind_receipt_to_status d.parse_leaf r.event_bytes o.verified_token.payload
                    (expected_host d q)
                  ≡ ok tt =
                binds_to_expected d laws q snapshot token_bytes keyed fits o.verified_token r e
                  bound in
              rw
                (
                  if_live-none d ctx.live
                      (get_verified_receipt d.m (d.env.unix_now ctx.world) hash),
                  through_fresh d laws (fresh_receipt d receipt_bytes)
                      (λ w. insert_verified_receipt d.m (d.env.unix_now w) hash) ctx r fresh,
                  binds,
                )
                (record {
                  outcome = cc (tier, fingerprint);
                  ctx = refl;
                  bare = done_bare d laws q o.verified_token full_scitt ctx;
                  holds = h;
                })

      unexpired :
          (now : ℤ) (found : Option CachedScittOutcome) (o : CachedScittOutcome)
          → unexpired_outcome now found ≡ some o
          → (found ≡ some o) × (leb_ℤ o.exp now ≡ false)
      unexpired now none o e = absurd (cc e)
      unexpired now (some x) o e = elim (Bool-cases (leb_ℤ x.exp now)) [
        | inl late ↦ absurd (cc (rw late at e))
        | inr timely ↦
            let is : x ≡ o = cc (rw timely at e) in
            (ap some is, ap (λ y. leb_ℤ y.exp now) (sym is) ∙ timely)
      ]

      pub hit-Agrees :
          (o : CachedScittOutcome)
          → cached_outcome d q (ctx, cache) ≡ some o
          → Agrees d laws
              (after_outcome d q token_bytes (some o) (ctx, cache))
              (after_outcome d q token_bytes none (ctx, none))
      unfolding after_outcome get_outcome
      hit-Agrees o e =
          let (c, (at, found)) = if_live-some d laws ctx.live _ cache o e in
          let (found', timely) = unexpired (d.env.unix_now ctx.world) _ o found in
          let valid : CacheValid d laws c = rw at at h in
          let from = valid.outcomes _ _ o found' in
          let token : TokenFits d.crates token_bytes snapshot o.verified_token =
            token_hit d.crates laws.Occurs laws.collisions laws.points snapshot token_bytes
              o.verified_token fits keyed.occurs_token
              (record {
                store = from.token.store;
                fits = from.token.fits;
                bytes = from.token.bytes;
                occurs = from.token.occurs;
                keyed = sym keyed.token ∙ from.token.keyed;
                token = from.token.token;
              }) in
          let timely' : leb_ℤ o.verified_token.payload.exp (d.env.unix_now ctx.world) ≡ false =
            rw from.exp at timely in
          let fresh : verify_token d token_bytes ctx.snapshot ctx.world ≡ ok o.verified_token =
            rw in_use (
              verifies_again d laws snapshot token_bytes o.verified_token ctx.world token
                timely') in
          rw
            (
              if_live-none d ctx.live
                  (get_verified_token d.m (d.env.unix_now ctx.world) q.token_hash),
              through_fresh d laws (verify_token d token_bytes)
                  (λ w. insert_verified_token d.m (d.env.unix_now w) q.token_hash) ctx
                  o.verified_token fresh,
            )
            (hit_check-Agrees o _ refl from)
