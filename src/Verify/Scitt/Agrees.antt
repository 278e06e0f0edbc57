-- ===== src/Verify/Scitt/Agrees.antt =====
-- When two answers agree, and what is cached after a verification.
use ans_sdk_rust.Prelude.{ℕ, ◌≡◌, refl, sym, true, List, Option, none, some}
use ans_sdk_rust.Error.{ok}
use ans_sdk_rust.Results.{ok_injective}
use ans_sdk_rust.Scitt.Certificate.{check_scitt_certificate}
use ans_sdk_rust.Scitt.Identity.{bind_receipt_to_status}
use ans_sdk_rust.Scitt.Keys.{ScittKeyStore}
use ans_sdk_rust.Scitt.Receipt.{VerifiedReceipt}
use ans_sdk_rust.Scitt.Status.{TokenFits}
use ans_sdk_rust.Scitt.Token.{VerifiedStatusToken, VerificationTier}
use ans_sdk_rust.Scitt.VerificationCache.{ScittVerificationCache, insert_outcome, key_of}
use ans_sdk_rust.Verify.Outcome.{VerificationOutcome}
use ans_sdk_rust.Verify.Scitt.{
  ScittSetup, Ctx, Answer, Request, map_opt, hash_with, cached_of, done, expected_host,
}
use ans_sdk_rust.Scitt.Reuse.{Fits, scope_of}
use ans_sdk_rust.Verify.Scitt.Caches.{ScittLaws, ReceiptPart, OutcomeFrom, Holds}
use ans_sdk_rust.Verify.Scitt.Steps.{put_if-none, put_if-Holds}
use ans_sdk_rust.Verify.Scitt.Stored.{
  bind-SameHost, insert_outcome-CacheValid, HasPeer, expected_host-SameHost,
}

module _ {Key World : Type 0} (d : ScittSetup Key World) (laws : ScittLaws d) where
  abbrev pub Req : Type 0
  Req = Request d

  abbrev pub Ans : Type 0
  Ans = Answer d

  abbrev pub CacheHolds : Option (ScittVerificationCache d.m) → Type 0
  CacheHolds = Holds d laws

  -- The same answer, the same world and keys; the cache holds what was verified.
  pub record Agrees (a b : Ans) : Type 0 where
    pub outcome : a.0 ≡ b.0
    pub ctx : a.1.0 ≡ b.1.0
    pub bare : b.1.1 ≡ none
    pub holds : CacheHolds a.1.1

  pub rejected :
      (o : Option VerificationOutcome) (ctx : Ctx Key World)
      (cache : Option (ScittVerificationCache d.m))
      → CacheHolds cache
      → Agrees (o, (ctx, cache)) (o, (ctx, none))
  rejected o ctx cache h = record { outcome = refl; ctx = refl; bare = refl; holds = h }

  -- A request whose hashes are those of its artifacts under a store.
  pub record Keyed (q : Req) (snapshot : ScittKeyStore Key) (token_bytes : List ℕ) : Type 0 where
    pub token : q.token_hash ≡ hash_with d.crates snapshot token_bytes
    pub receipt : q.receipt_hash ≡ map_opt (hash_with d.crates snapshot) q.headers.receipt
    pub occurs_token : laws.Occurs (scope_of d.crates snapshot) token_bytes
    pub occurs_receipt :
        (b : List ℕ) → q.headers.receipt ≡ some b → laws.Occurs (scope_of d.crates snapshot) b
    pub peer : HasPeer d q.is_server q.dialed_host

  pub done-Agrees :
      (q : Req) (vt : VerifiedStatusToken) (tier : VerificationTier) (ctx : Ctx Key World)
      (cache : Option (ScittVerificationCache d.m))
      → CacheHolds cache
      → (ctx.live ≡ true
          → OutcomeFrom d laws
              (key_of q.cert.fingerprint q.token_hash q.receipt_hash)
              (cached_of d vt tier q.cert))
      → Agrees (done d q vt tier (ctx, cache)) (done d q vt tier (ctx, none))
  done-Agrees q vt tier ctx cache h from =
      let put =
        insert_outcome d.m (d.env.unix_now ctx.world) q.cert.fingerprint q.token_hash
          q.receipt_hash in
      let o = cached_of d vt tier q.cert in
      record {
        outcome = refl;
        ctx = refl;
        bare = put_if-none d ctx.live put (ok o);
        holds =
            put_if-Holds d laws ctx.live put (ok o) cache
              (λ a c live is valid.
                insert_outcome-CacheValid d laws (d.env.unix_now ctx.world) q a c
                  (rw (← ok_injective _ _ is) (from live)) valid)
              h;
      }

  pub done_bare :
      (q : Req) (vt : VerifiedStatusToken) (tier : VerificationTier) (ctx : Ctx Key World)
      → (done d q vt tier (ctx, none)).1.1 ≡ none
  done_bare q vt tier ctx =
      put_if-none d ctx.live
        (insert_outcome d.m (d.env.unix_now ctx.world) q.cert.fingerprint q.token_hash
          q.receipt_hash)
        (ok (cached_of d vt tier q.cert))

  abbrev pub Passes : Req → VerifiedStatusToken → Type 0
  Passes q vt = check_scitt_certificate q.cert vt.payload q.is_server q.dialed_host ≡ none

  -- The outcome that is cached after the receipt was bound.
  pub outcome-OutcomeFrom :
      (q : Req) (snapshot : ScittKeyStore Key) (token_bytes : List ℕ) (vt : VerifiedStatusToken)
      (tier : VerificationTier)
      → Keyed q snapshot token_bytes
      → Fits d.crates snapshot
      → TokenFits d.crates token_bytes snapshot vt
      → ReceiptPart d laws q.receipt_hash vt tier
      → OutcomeFrom d laws
          (key_of q.cert.fingerprint q.token_hash q.receipt_hash)
          (cached_of d vt tier q.cert)
  outcome-OutcomeFrom q snapshot token_bytes vt tier keyed fits token receipt = record {
    token = record {
      store = snapshot;
      fits = fits;
      bytes = token_bytes;
      occurs = keyed.occurs_token;
      keyed = keyed.token;
      token = token;
    };
    exp = refl;
    fingerprint = refl;
    receipt = receipt;
  }

  module _ (q : Req) (snapshot : ScittKeyStore Key) (token_bytes : List ℕ)
      (keyed : Keyed q snapshot token_bytes) (fits : Fits d.crates snapshot) where
    -- While the cache may be used, the keys in use are those of the hashes.
    abbrev pub InUse : Ctx Key World → Type 0
    InUse ctx = ctx.live ≡ true → ctx.snapshot ≡ snapshot

    pub bound_to_host :
        (vt : VerifiedStatusToken) (r : VerifiedReceipt)
        → Passes q vt
        → bind_receipt_to_status d.parse_leaf r.event_bytes vt.payload (expected_host d q) ≡ ok tt
        → bind_receipt_to_status d.parse_leaf r.event_bytes vt.payload
            (some vt.payload.ans_name.fqdn.name)
          ≡ ok tt
    bound_to_host vt r passes bound =
        let (host, (at, same)) = expected_host-SameHost d q vt.payload keyed.peer passes in
        bind-SameHost d.parse_leaf r.event_bytes vt.payload host vt.payload.ans_name.fqdn.name same
          (rw at at bound)

    pub binds_to_expected :
        (vt : VerifiedStatusToken) (r : VerifiedReceipt)
        → Passes q vt
        → bind_receipt_to_status d.parse_leaf r.event_bytes vt.payload
            (some vt.payload.ans_name.fqdn.name)
          ≡ ok tt
        → bind_receipt_to_status d.parse_leaf r.event_bytes vt.payload (expected_host d q) ≡ ok tt
    binds_to_expected vt r passes bound =
        let (host, (at, same)) = expected_host-SameHost d q vt.payload keyed.peer passes in
        rw at (
          bind-SameHost d.parse_leaf r.event_bytes vt.payload vt.payload.ans_name.fqdn.name host
            (sym same) bound)
