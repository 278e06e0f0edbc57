-- ===== src/Verify/Scitt/Receipts.antt =====
-- That a cached receipt changes no answer.
use ans_sdk_rust.Prelude.{
  ℕ, ◌≡◌, inl, inr, refl, sym, ap, ◌∙◌, true, List, Option, none, some, Bool-cases,
}
use ans_sdk_rust.Error.{Result, ok, err, ScittError}
use ans_sdk_rust.Scitt.Keys.{ScittKeyStore}
use ans_sdk_rust.Scitt.Receipt.{VerifiedReceipt, verify_receipt, receipt_fits_iff}
use ans_sdk_rust.Scitt.Status.{TokenFits}
use ans_sdk_rust.Scitt.Token.{VerifiedStatusToken, full_scitt, status_token_verified}
use ans_sdk_rust.Scitt.VerificationCache.{
  ScittVerificationCache, get_verified_receipt, insert_verified_receipt,
}
use ans_sdk_rust.Verify.Outcome.{scitt_error}
use ans_sdk_rust.Verify.Scitt.{
  ScittSetup, Ctx, map_opt, hash_with, fresh_receipt, through, cached_receipt, after_bind,
  after_receipt, with_receipt,
}
use ans_sdk_rust.Scitt.Reuse.{Fits, scope_of, ReceiptFrom}
use ans_sdk_rust.Verify.Scitt.Caches.{ScittLaws, ReceiptPart, CacheValid, cached_receipt-verify}
use ans_sdk_rust.Verify.Scitt.Steps.{if_live-none, StepAgrees, through-StepAgrees}
use ans_sdk_rust.Verify.Scitt.Stored.{insert_verified_receipt-CacheValid}
use ans_sdk_rust.Verify.Scitt.Agrees.{
  Req, CacheHolds, Agrees, rejected, Keyed, done-Agrees, Passes, outcome-OutcomeFrom, InUse,
  bound_to_host,
}

module _ {Key World : Type 0} (d : ScittSetup Key World) (laws : ScittLaws d) where
  module _ (q : Req d laws) (snapshot : ScittKeyStore Key) (token_bytes : List ℕ)
      (keyed : Keyed d laws q snapshot token_bytes) (fits : Fits d.crates snapshot) where
    after_bind-Agrees :
        (vt : VerifiedStatusToken) (r : VerifiedReceipt) (bound : Result ScittError (Unit {0}))
        (ctx : Ctx Key World) (cache : Option (ScittVerificationCache d.m))
        → CacheHolds d laws cache
        → (ctx.live ≡ true
            → bound ≡ ok tt
            → TokenFits d.crates token_bytes snapshot vt
              × ReceiptPart d laws q.receipt_hash vt full_scitt)
        → Agrees d laws (after_bind d q vt bound (ctx, cache)) (after_bind d q vt bound (ctx, none))
    after_bind-Agrees vt r (err e) ctx cache h from =
        rejected d laws (some (scitt_error e)) ctx cache h
    after_bind-Agrees vt r (ok u) ctx cache h from =
        done-Agrees d laws q vt full_scitt ctx cache h (λ live.
          let (token, receipt) = from live refl in
          outcome-OutcomeFrom d laws q snapshot token_bytes vt full_scitt keyed fits token receipt)

    module _ (vt : VerifiedStatusToken) (passes : Passes d laws q vt) (receipt_bytes : List ℕ)
        (at : q.receipt_hash ≡ some (hash_with d.crates snapshot receipt_bytes))
        (occurs : laws.Occurs (scope_of d.crates snapshot) receipt_bytes) where
      after_receipt-Agrees :
          (result : Result ScittError VerifiedReceipt) (ctx : Ctx Key World)
          (cache : Option (ScittVerificationCache d.m))
          → CacheHolds d laws cache
          → (ctx.live ≡ true
              → TokenFits d.crates token_bytes snapshot vt
                × (result ≡ fresh_receipt d receipt_bytes snapshot ctx.world))
          → Agrees d laws
              (after_receipt d q vt (result, (ctx, cache)))
              (after_receipt d q vt (result, (ctx, none)))
      after_receipt-Agrees (err e) ctx cache h from =
          rejected d laws (some (scitt_error e)) ctx cache h
      after_receipt-Agrees (ok r) ctx cache h from =
          after_bind-Agrees vt r _ ctx cache h (λ live bound.
            let (token, fresh) = from live in
            let receipt : ReceiptFrom d.crates laws.Occurs
                (hash_with d.crates snapshot receipt_bytes) r =
              record {
                store = snapshot;
                fits = fits;
                bytes = receipt_bytes;
                occurs = occurs;
                keyed = refl;
                receipt = (receipt_fits_iff d.crates receipt_bytes snapshot r).0 (sym fresh);
              } in
            (
              token,
              rw at (
                refl,
                (
                  r,
                  (
                    receipt,
                    bound_to_host d laws q snapshot token_bytes keyed fits vt r passes bound,
                  ),
                ),
              ),
            ))

      receipt_step :
          (ctx : Ctx Key World) (cache : Option (ScittVerificationCache d.m))
          → CacheHolds d laws cache
          → InUse d laws q snapshot token_bytes keyed fits ctx
          → StepAgrees d laws
              (fresh_receipt d receipt_bytes)
              (λ w.
                insert_verified_receipt d.m
                  (d.env.unix_now w)
                  (hash_with d.crates snapshot receipt_bytes))
              (cached_receipt d (hash_with d.crates snapshot receipt_bytes) (ctx, cache))
              ctx
              cache
      receipt_step ctx cache h used =
          through-StepAgrees d laws (fresh_receipt d receipt_bytes)
            (λ w.
              insert_verified_receipt d.m (d.env.unix_now w)
                (hash_with d.crates snapshot receipt_bytes))
            (cached_receipt d (hash_with d.crates snapshot receipt_bytes) (ctx, cache)) ctx cache
            right keeps h
        where
          right :
              (a : VerifiedReceipt)
              → cached_receipt d (hash_with d.crates snapshot receipt_bytes) (ctx, cache) ≡ some a
              → fresh_receipt d receipt_bytes ctx.snapshot ctx.world ≡ ok a
          right a e = elim (Bool-cases ctx.live) [
            | inl live ↦
                cached_receipt-verify d laws ctx cache receipt_bytes a (rw (used live) fits)
                  (rw (used live) occurs) h (rw (used live) e)
            | inr spent ↦ absurd (cc (rw spent at e))
          ]

          keeps :
              (w : World) (a : VerifiedReceipt) (c : ScittVerificationCache d.m)
              → ctx.live ≡ true
              → fresh_receipt d receipt_bytes ctx.snapshot ctx.world ≡ ok a
              → CacheValid d laws c
              → CacheValid d laws (
                  insert_verified_receipt d.m
                    (d.env.unix_now w)
                    (hash_with d.crates snapshot receipt_bytes)
                    a
                    c)
          keeps w a c live e valid =
              insert_verified_receipt-CacheValid d laws (d.env.unix_now w) snapshot receipt_bytes a
                c fits occurs
                ((receipt_fits_iff d.crates receipt_bytes snapshot a).0 (rw (used live) at e)) valid

      receipt-Agrees :
          (ctx : Ctx Key World) (cache : Option (ScittVerificationCache d.m))
          → CacheHolds d laws cache
          → InUse d laws q snapshot token_bytes keyed fits ctx
          → (ctx.live ≡ true → TokenFits d.crates token_bytes snapshot vt)
          → Agrees d laws
              (after_receipt d q vt (
                through d
                  (cached_receipt d (hash_with d.crates snapshot receipt_bytes) (ctx, cache))
                  (fresh_receipt d receipt_bytes)
                  (λ w.
                    insert_verified_receipt d.m
                      (d.env.unix_now w)
                      (hash_with d.crates snapshot receipt_bytes))
                  (ctx, cache)))
              (after_receipt d q vt (
                through d
                  (cached_receipt d (hash_with d.crates snapshot receipt_bytes) (ctx, none))
                  (fresh_receipt d receipt_bytes)
                  (λ w.
                    insert_verified_receipt d.m
                      (d.env.unix_now w)
                      (hash_with d.crates snapshot receipt_bytes))
                  (ctx, none)))
      receipt-Agrees ctx cache h used token =
          let st = receipt_step ctx cache h used in
          rw
            (
              st.with_cache,
              if_live-none d ctx.live (
                  get_verified_receipt d.m (d.env.unix_now ctx.world)
                    (hash_with d.crates snapshot receipt_bytes)),
              st.without,
            )
            (after_receipt-Agrees st.result st.ctx' st.cache' st.holds (λ live.
              let un = st.unrefreshed live in
              (
                token un.live,
                un.result ∙ ap (verify_receipt d.crates receipt_bytes) (used un.live),
              )))

    pub with_receipt-Agrees :
        (vt : VerifiedStatusToken) (ctx : Ctx Key World)
        (cache : Option (ScittVerificationCache d.m))
        → Passes d laws q vt
        → CacheHolds d laws cache
        → InUse d laws q snapshot token_bytes keyed fits ctx
        → (ctx.live ≡ true → TokenFits d.crates token_bytes snapshot vt)
        → Agrees d laws
            (with_receipt d q vt q.headers.receipt q.receipt_hash (ctx, cache))
            (with_receipt d q vt q.headers.receipt q.receipt_hash (ctx, none))
    with_receipt-Agrees vt ctx cache passes h used token =
        by_receipt q.headers.receipt q.receipt_hash keyed.receipt refl refl
      where
        by_receipt :
            (receipt hash : Option (List ℕ))
            → hash ≡ map_opt (hash_with d.crates snapshot) receipt
            → q.receipt_hash ≡ hash
            → q.headers.receipt ≡ receipt
            → Agrees d laws
                (with_receipt d q vt receipt hash (ctx, cache))
                (with_receipt d q vt receipt hash (ctx, none))
        by_receipt none hash e at is =
            done-Agrees d laws q vt status_token_verified ctx cache h (λ live.
              outcome-OutcomeFrom d laws q snapshot token_bytes vt status_token_verified keyed fits
                (token live) (rw (at ∙ e) refl))
        by_receipt (some receipt_bytes) none e at is = absurd (cc e)
        by_receipt (some receipt_bytes) (some hash) e at is =
            let same : hash ≡ hash_with d.crates snapshot receipt_bytes = cc e in
            rw same (
              receipt-Agrees vt passes receipt_bytes (at ∙ e)
                (keyed.occurs_receipt receipt_bytes is) ctx cache h used token)
