-- ===== src/Verify/Scitt/Caches.antt =====
-- What the caches of verified artifacts hold, and that a hit is what a verification would give.
use ans_sdk_rust.Prelude.{
  ℕ, ◌≡◌, inl, inr, refl, sym, ap, ◌∙◌, Bool, true, false, List, Option, none, some, Bool-cases,
  arith,
}
use ans_sdk_rust.Prelude.Int.{ℤ, +ℤ_parts, ltb_ℤ, leb_ℤ, max_i64}
use ans_sdk_rust.Error.{ok}
use ans_sdk_rust.Scitt.Headers.{ScittHeaders}
use ans_sdk_rust.Scitt.Identity.{bind_receipt_to_status}
use ans_sdk_rust.Scitt.Keys.{ScittKeyStore}
use ans_sdk_rust.Scitt.Keys.Scope.{NoCollisions, PointLaws}
use ans_sdk_rust.Scitt.KeyStore.{ScittEnv}
use ans_sdk_rust.Scitt.Receipt.{VerifiedReceipt, receipt_fits_iff}
use ans_sdk_rust.Scitt.Reuse.{Fits, scope_of, TokenFrom, ReceiptFrom, token_hit, receipt_hit}
use ans_sdk_rust.Scitt.Status.{TokenFits, expires, tolerance_of, token_fits_iff}
use ans_sdk_rust.Scitt.Token.{
  VerifiedStatusToken, VerificationTier, full_scitt, status_token_verified,
}
use ans_sdk_rust.Scitt.VerificationCache.{
  StoresLaws, OutcomeKey, ScittVerificationCache, CachedScittOutcome, get_verified_token,
  get_verified_receipt, unexpired_token,
}
use ans_sdk_rust.Verify.Scitt.{
  ScittSetup, Ctx, if_live, verify_token, fresh_receipt, cached_token, cached_receipt, hash_with,
}

-- The clock has 64 bits.
pub record ClockLaws {World : Type 0} (env : ScittEnv World) : Type 0 where
  pub in_range : (w : World) → ltb_ℤ max_i64 (env.unix_now w) ≡ false

-- What is documented of the crates, and which artifacts occur, under the scope of which keys.
pub record ScittLaws {Key World : Type 0} (d : ScittSetup Key World) : Type 1 where
  pub stores : StoresLaws d.m
  pub Occurs : List ℕ → List ℕ → Type 0
  pub collisions : NoCollisions d.crates.crypto Occurs
  pub points : PointLaws d.crates.keys
  pub clock : ClockLaws d.env

-- What has not expired is accepted with every tolerance.
alive :
    (exp now : ℤ) (skew : ℕ)
    → leb_ℤ exp now ≡ false
    → ltb_ℤ max_i64 now ≡ false
    → ltb_ℤ (expires exp skew) now ≡ false
unfolding expires
alive exp now skew h k = ground (arith, h, k, +ℤ_parts exp (tolerance_of skew))

module _ {Key World : Type 0} (d : ScittSetup Key World) where
  module _ (laws : ScittLaws d) where
    -- The artifacts of the headers are among those that occur.
    abbrev pub Seen : ScittHeaders → ScittKeyStore Key → Type 0
    Seen headers snapshot =
        ((b : List ℕ) → headers.status_token ≡ some b → laws.Occurs (scope_of d.crates snapshot) b)
        × ((b : List ℕ) → headers.receipt ≡ some b → laws.Occurs (scope_of d.crates snapshot) b)

    -- A receipt was bound to the token and its host.
    abbrev pub ReceiptPart : Option (List ℕ) → VerifiedStatusToken → VerificationTier → Type 0
    ReceiptPart none vt tier = tier ≡ status_token_verified
    ReceiptPart (some hash) vt tier =
        (tier ≡ full_scitt)
        × ((r : VerifiedReceipt) × (ReceiptFrom d.crates laws.Occurs hash r
              × (bind_receipt_to_status d.parse_leaf r.event_bytes vt.payload
                    (some vt.payload.ans_name.fqdn.name)
                  ≡ ok tt)))

    pub record OutcomeFrom (k : OutcomeKey) (o : CachedScittOutcome) : Type 0 where
      pub token : TokenFrom d.crates laws.Occurs k.token_hash o.verified_token
      pub exp : o.exp ≡ o.verified_token.payload.exp
      pub fingerprint : o.matched_fingerprint.bytes ≡ k.cert_fingerprint_bytes
      pub receipt : ReceiptPart k.receipt_hash o.verified_token o.tier

    pub record CacheValid (cache : ScittVerificationCache d.m) : Type 0 where
      pub tokens :
          (t : ℤ) (k : List ℕ) (vt : VerifiedStatusToken)
          → d.m.tokens.find t k cache.token_cache ≡ some vt
          → TokenFrom d.crates laws.Occurs k vt
      pub receipts :
          (t : ℤ) (k : List ℕ) (r : VerifiedReceipt)
          → d.m.receipts.find t k cache.receipt_cache ≡ some r
          → ReceiptFrom d.crates laws.Occurs k r
      pub outcomes :
          (t : ℤ) (k : OutcomeKey) (o : CachedScittOutcome)
          → d.m.outcomes.find t k cache.outcome_cache ≡ some o
          → OutcomeFrom k o

    abbrev pub Holds : Option (ScittVerificationCache d.m) → Type 0
    Holds none = Unit
    Holds (some cache) = CacheValid cache

    pub verifies_again :
        (snapshot : ScittKeyStore Key) (b : List ℕ) (vt : VerifiedStatusToken) (w : World)
        → TokenFits d.crates b snapshot vt
        → leb_ℤ vt.payload.exp (d.env.unix_now w) ≡ false
        → verify_token d b snapshot w ≡ ok vt
    verifies_again snapshot b vt w t h =
        (token_fits_iff d.crates b snapshot d.skew (d.env.unix_now w) vt).1
          (t, alive vt.payload.exp (d.env.unix_now w) d.skew h (laws.clock.in_range w))

    pub if_live-some :
        {A : Type 0} (live : Bool) (find : ScittVerificationCache d.m → Option A)
        (cache : Option (ScittVerificationCache d.m)) (a : A)
        → if_live d live find cache ≡ some a
        → (c : ScittVerificationCache d.m) × ((cache ≡ some c) × (find c ≡ some a))
    if_live-some true find (some c) a h = (c, (refl, h))
    if_live-some true find none a h = absurd (cc h)
    if_live-some false find cache a h = absurd (cc h)

    unexpired :
        (now : ℤ) (found : Option VerifiedStatusToken) (vt : VerifiedStatusToken)
        → unexpired_token now found ≡ some vt
        → (found ≡ some vt) × (leb_ℤ vt.payload.exp now ≡ false)
    unexpired now none vt h = absurd (cc h)
    unexpired now (some token) vt h = elim (Bool-cases (leb_ℤ token.payload.exp now)) [
      | inl late ↦ absurd (cc (rw late at h))
      | inr timely ↦
          let is : token ≡ vt = cc (rw timely at h) in
          (ap some is, ap (λ t. leb_ℤ t.payload.exp now) (sym is) ∙ timely)
    ]

    -- A cached token is what verifying its bytes gives.
    pub cached_token-verify :
        (ctx : Ctx Key World) (cache : Option (ScittVerificationCache d.m)) (b : List ℕ)
        (vt : VerifiedStatusToken)
        → Fits d.crates ctx.snapshot
        → laws.Occurs (scope_of d.crates ctx.snapshot) b
        → Holds cache
        → cached_token d (hash_with d.crates ctx.snapshot b) (ctx, cache) ≡ some vt
        → verify_token d b ctx.snapshot ctx.world ≡ ok vt
    unfolding get_verified_token
    cached_token-verify ctx cache b vt fits occurs holds e =
        let (c, (at, found)) = if_live-some ctx.live _ cache vt e in
        let (found', timely) = unexpired (d.env.unix_now ctx.world) _ vt found in
        let valid : CacheValid c = rw at at holds in
        verifies_again ctx.snapshot b vt ctx.world
          (token_hit d.crates laws.Occurs laws.collisions laws.points ctx.snapshot b vt fits occurs
            (valid.tokens _ _ vt found'))
          timely

    pub cached_receipt-verify :
        (ctx : Ctx Key World) (cache : Option (ScittVerificationCache d.m)) (b : List ℕ)
        (r : VerifiedReceipt)
        → Fits d.crates ctx.snapshot
        → laws.Occurs (scope_of d.crates ctx.snapshot) b
        → Holds cache
        → cached_receipt d (hash_with d.crates ctx.snapshot b) (ctx, cache) ≡ some r
        → fresh_receipt d b ctx.snapshot ctx.world ≡ ok r
    unfolding get_verified_receipt
    cached_receipt-verify ctx cache b r fits occurs holds e =
        let (c, (at, found)) = if_live-some ctx.live _ cache r e in
        let valid : CacheValid c = rw at at holds in
        (receipt_fits_iff d.crates b ctx.snapshot r).1 (
          receipt_hit d.crates laws.Occurs laws.collisions laws.points ctx.snapshot b r fits occurs
            (valid.receipts _ _ r found))
