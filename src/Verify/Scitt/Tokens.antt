-- ===== src/Verify/Scitt/Tokens.antt =====
-- That a cached token changes no answer.
use ans_sdk_rust.Prelude.{ℕ, ◌≡◌, refl, sym, ap, ◌∙◌, true, List, Option, none, some}
use ans_sdk_rust.Error.{Result, ok, err, ScittError}
use ans_sdk_rust.Scitt.Certificate.{check_scitt_certificate}
use ans_sdk_rust.Scitt.Keys.{ScittKeyStore}
use ans_sdk_rust.Scitt.Status.{TokenFits, token_fits_iff}
use ans_sdk_rust.Scitt.Token.{VerifiedStatusToken}
use ans_sdk_rust.Scitt.VerificationCache.{
  ScittVerificationCache, get_verified_token, insert_verified_token,
}
use ans_sdk_rust.Verify.Outcome.{VerificationOutcome, scitt_error}
use ans_sdk_rust.Verify.Scitt.{
  ScittSetup, Ctx, hash_with, verify_token, through, cached_token, after_check, after_token,
  after_outcome,
}
use ans_sdk_rust.Scitt.Reuse.{Fits}
use ans_sdk_rust.Verify.Scitt.Caches.{ScittLaws, cached_token-verify}
use ans_sdk_rust.Verify.Scitt.Steps.{if_live-none, StepAgrees, through-StepAgrees}
use ans_sdk_rust.Verify.Scitt.Stored.{insert_verified_token-CacheValid}
use ans_sdk_rust.Verify.Scitt.Agrees.{Req, CacheHolds, Agrees, rejected, Keyed, InUse}
use ans_sdk_rust.Verify.Scitt.Receipts.{with_receipt-Agrees}

module _ {Key World : Type 0} (d : ScittSetup Key World) (laws : ScittLaws d) where
  module _ (q : Req d laws) (snapshot : ScittKeyStore Key) (token_bytes : List ℕ)
      (keyed : Keyed d laws q snapshot token_bytes) (fits : Fits d.crates snapshot) where
    after_check-Agrees :
        (vt : VerifiedStatusToken) (check : Option VerificationOutcome) (ctx : Ctx Key World)
        (cache : Option (ScittVerificationCache d.m))
        → check_scitt_certificate q.cert vt.payload q.is_server q.dialed_host ≡ check
        → CacheHolds d laws cache
        → InUse d laws q snapshot token_bytes keyed fits ctx
        → (ctx.live ≡ true → TokenFits d.crates token_bytes snapshot vt)
        → Agrees d laws
            (after_check d q vt check (ctx, cache))
            (after_check d q vt check (ctx, none))
    after_check-Agrees vt (some rejection) ctx cache e h used token =
        rejected d laws (some rejection) ctx cache h
    after_check-Agrees vt none ctx cache e h used token =
        with_receipt-Agrees d laws q snapshot token_bytes keyed fits vt ctx cache e h used token

    pub after_token-Agrees :
        (result : Result ScittError VerifiedStatusToken) (ctx : Ctx Key World)
        (cache : Option (ScittVerificationCache d.m))
        → CacheHolds d laws cache
        → InUse d laws q snapshot token_bytes keyed fits ctx
        → ((vt : VerifiedStatusToken)
            → ctx.live ≡ true
            → result ≡ ok vt
            → TokenFits d.crates token_bytes snapshot vt)
        → Agrees d laws
            (after_token d q (result, (ctx, cache)))
            (after_token d q (result, (ctx, none)))
    after_token-Agrees (err e) ctx cache h used token =
        rejected d laws (some (scitt_error e)) ctx cache h
    after_token-Agrees (ok vt) ctx cache h used token =
        after_check-Agrees vt _ ctx cache refl h used (λ live. token vt live refl)

    module _ (ctx : Ctx Key World) (in_use : ctx.snapshot ≡ snapshot) (live : ctx.live ≡ true)
        (cache : Option (ScittVerificationCache d.m)) (h : CacheHolds d laws cache) where
      token_right :
          (a : VerifiedStatusToken)
          → cached_token d (hash_with d.crates snapshot token_bytes) (ctx, cache) ≡ some a
          → verify_token d token_bytes ctx.snapshot ctx.world ≡ ok a
      token_right a e =
          cached_token-verify d laws ctx cache token_bytes a (rw in_use fits)
            (rw in_use keyed.occurs_token) h (rw in_use e)

      verified_token :
          (w : World) (a : VerifiedStatusToken)
          → verify_token d token_bytes ctx.snapshot w ≡ ok a
          → TokenFits d.crates token_bytes snapshot a
      verified_token w a e =
          ((token_fits_iff d.crates token_bytes snapshot d.skew (d.env.unix_now w) a).0
            (ap (λ s. verify_token d token_bytes s w) (sym in_use) ∙ e)).0

      token_step :
          StepAgrees d laws
            (verify_token d token_bytes)
            (λ w.
              insert_verified_token d.m
                (d.env.unix_now w)
                (hash_with d.crates snapshot token_bytes))
            (cached_token d (hash_with d.crates snapshot token_bytes) (ctx, cache))
            ctx
            cache
      token_step =
          through-StepAgrees d laws (verify_token d token_bytes)
            (λ w.
              insert_verified_token d.m (d.env.unix_now w)
                (hash_with d.crates snapshot token_bytes))
            (cached_token d (hash_with d.crates snapshot token_bytes) (ctx, cache)) ctx cache
            token_right
            (λ w a c is_live e valid.
              insert_verified_token-CacheValid d laws (d.env.unix_now w) snapshot token_bytes a c
                fits keyed.occurs_token (verified_token ctx.world a e) valid)
            h

      miss_at :
          (hash : List ℕ)
          → hash ≡ hash_with d.crates snapshot token_bytes
          → Agrees d laws
              (after_token d q (
                through d
                  (cached_token d hash (ctx, cache))
                  (verify_token d token_bytes)
                  (λ w. insert_verified_token d.m (d.env.unix_now w) hash)
                  (ctx, cache)))
              (after_token d q (
                through d
                  (cached_token d hash (ctx, none))
                  (verify_token d token_bytes)
                  (λ w. insert_verified_token d.m (d.env.unix_now w) hash)
                  (ctx, none)))
      miss_at hash e =
          let st = token_step in
          rw
            (
              e,
              st.with_cache,
              if_live-none d ctx.live (
                  get_verified_token d.m (d.env.unix_now ctx.world)
                    (hash_with d.crates snapshot token_bytes)),
              st.without,
            )
            (after_token-Agrees st.result st.ctx' st.cache' st.holds
              (λ is_live. (st.unrefreshed is_live).snapshot ∙ in_use)
              (λ vt is_live e.
                verified_token ctx.world vt (sym (st.unrefreshed is_live).result ∙ e)))

      pub miss-Agrees :
          Agrees d laws
            (after_outcome d q token_bytes none (ctx, cache))
            (after_outcome d q token_bytes none (ctx, none))
      unfolding after_outcome
      miss-Agrees = miss_at q.token_hash keyed.token
