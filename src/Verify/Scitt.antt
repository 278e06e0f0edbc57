-- ===== src/Verify/Scitt.antt =====
-- crates/ans-verify/src/verify.rs: `AnsVerifier::try_scitt_verification`. The state is the world, the
-- key store and the cache of verified artifacts, where there is one. The clock is the world's.
pub mod Caches
pub mod Steps
pub mod Stored
pub mod Agrees
pub mod Receipts
pub mod Tokens
pub mod Hits
pub mod Refines
pub mod Tried
pub mod Sound
use ans_sdk_rust.Prelude.{ℕ, Bool, true, false, not, ◌&&◌, List, Option, none, some, if◌then◌else◌}
use ans_sdk_rust.Prelude.Int.{ℤ}
use ans_sdk_rust.Text.{Text}
use ans_sdk_rust.Error.{Result, ok, err, ScittError, unknown_key_id, missing_token_field}
use ans_sdk_rust.Cert.{CertIdentity, cert_fqdn}
use ans_sdk_rust.Types.Fingerprint.{CertFingerprint}
use ans_sdk_rust.Scitt.Certificate.{check_scitt_certificate}
use ans_sdk_rust.Scitt.Headers.{ScittHeaders}
use ans_sdk_rust.Scitt.Identity.{ReceiptLeaf, bind_receipt_to_status}
use ans_sdk_rust.Scitt.Keys.{ScittKeyStore, artifact_cache_key}
use ans_sdk_rust.Scitt.KeyStore.{
  KeyStoreState, KeyStoreConfig, ScittEnv, refresh_if_cooldown_elapsed,
}
use ans_sdk_rust.Scitt.Receipt.{VerifiedReceipt, verify_receipt}
use ans_sdk_rust.Scitt.Status.{ScittCrates, verify_status_token_at}
use ans_sdk_rust.Scitt.Token.{
  VerifiedStatusToken, VerificationTier, full_scitt, status_token_verified,
}
use ans_sdk_rust.Scitt.VerificationCache.{
  Stores, ScittVerificationCache, CachedScittOutcome, get_outcome, insert_outcome,
  get_verified_token, insert_verified_token, get_verified_receipt, insert_verified_receipt,
}
use ans_sdk_rust.Verify.Outcome.{VerificationOutcome, scitt_verified, scitt_error}

-- The world, the key store, the snapshot of it that is in use, and whether the cache may still be
-- used: after a refresh it may not.
pub record Ctx (Key World : Type 0) : Type 0 where
  pub world : World
  pub keys : KeyStoreState Key
  pub snapshot : ScittKeyStore Key
  pub live : Bool

abbrev pub map_opt {ℓ κ} : {A : Type ℓ} {B : Type κ} → (A → B) → Option A → Option B
map_opt f none = none
map_opt f (some a) = some (f a)

abbrev pub unknown_key {ℓ} : {A : Type ℓ} → Result ScittError A → Bool
unknown_key (err (unknown_key_id kid)) = true
unknown_key _ = false

abbrev pub hash_with : {Key : Type 0} → ScittCrates Key → ScittKeyStore Key → List ℕ → List ℕ
hash_with crates snapshot = artifact_cache_key crates.crypto crates.keys snapshot

-- What a verification uses and does not implement, and its tolerance in seconds.
pub record ScittSetup (Key World : Type 0) : Type 1 where
  pub m : Stores
  pub crates : ScittCrates Key
  pub env : ScittEnv World
  pub parse_leaf : Text → Option ReceiptLeaf
  pub key_config : KeyStoreConfig
  pub skew : ℕ

module _ {Key World : Type 0} (d : ScittSetup Key World) where
  abbrev pub Cache : Type 0
  Cache = Option (ScittVerificationCache d.m)

  -- What is left after a step: the context and the cache.
  abbrev pub Rest : Type 0
  Rest = Ctx Key World × Cache

  abbrev pub Verify : Type 0 → Type 0
  Verify A = ScittKeyStore Key → World → Result ScittError A

  abbrev pub after_refresh :
      {A : Type 0}
      → Verify A
      → Result ScittError A
      → Ctx Key World
      → Result ScittError Bool × (World × KeyStoreState Key)
      → Result ScittError A × Ctx Key World
  after_refresh verify first ctx (ok true, (w, keys)) = (
    verify keys.snapshot w,
    record { world = w; keys = keys; snapshot = keys.snapshot; live = false },
  )
  after_refresh verify first ctx (ok false, (w, keys)) =
      (first, record ctx { world = w; keys = keys })
  after_refresh verify first ctx (err e, (w, keys)) = (first, record ctx { world = w; keys = keys })

  -- On an unknown key identifier the keys are refreshed, if the cooldown allows it, and it is tried once more.
  unfoldable pub retry :
      {A : Type 0} → Verify A → Ctx Key World → Result ScittError A × Ctx Key World
  retry verify ctx =
      let first = verify ctx.snapshot ctx.world in
      if not (unknown_key first)
      then (first, ctx)
      else after_refresh verify first ctx (
          refresh_if_cooldown_elapsed d.crates.crypto d.crates.keys d.env d.key_config
            (ctx.world, ctx.keys))

  abbrev pub if_live :
      {A : Type 0} → Bool → (ScittVerificationCache d.m → Option A) → Cache → Option A
  if_live true find (some cache) = find cache
  if_live true find none = none
  if_live false find cache = none

  abbrev pub put_if :
      {A : Type 0}
      → Bool
      → (A → ScittVerificationCache d.m → ScittVerificationCache d.m)
      → Result ScittError A
      → Cache
      → Cache
  put_if true put (ok a) (some cache) = some (put a cache)
  put_if live put r cache = cache

  -- A cached artifact, or a fresh one, which is then cached.
  unfoldable pub through :
      {A : Type 0}
      → Option A
      → Verify A
      → (World → A → ScittVerificationCache d.m → ScittVerificationCache d.m)
      → Rest
      → Result ScittError A × Rest
  unfolding retry
  through (some a) verify put rest = (ok a, rest)
  through none verify put (ctx, cache) =
      let (r, ctx') = retry verify ctx in (r, (ctx', put_if ctx'.live (put ctx'.world) r cache))

  abbrev pub verify_token : List ℕ → Verify VerifiedStatusToken
  verify_token token_bytes snapshot w =
      verify_status_token_at d.crates token_bytes snapshot d.skew (d.env.unix_now w)

  abbrev pub fresh_receipt : List ℕ → Verify VerifiedReceipt
  fresh_receipt receipt_bytes snapshot w = verify_receipt d.crates receipt_bytes snapshot

  -- What the request holds and whom it is from.
  pub record Request : Type 0 where
    pub cert : CertIdentity
    pub headers : ScittHeaders
    pub is_server : Bool
    pub dialed_host : Option Text
    pub token_hash : List ℕ
    pub receipt_hash : Option (List ℕ)

  abbrev pub cached_of : VerifiedStatusToken → VerificationTier → CertIdentity → CachedScittOutcome
  cached_of vt tier cert = record {
    verified_token = vt;
    tier = tier;
    matched_fingerprint = cert.fingerprint;
    exp = vt.payload.exp;
  }

  abbrev pub Answer : Type 0
  Answer = Option VerificationOutcome × Rest

  abbrev pub done : Request → VerifiedStatusToken → VerificationTier → Rest → Answer
  done q vt tier (ctx, cache) = (
    some (scitt_verified vt tier q.cert.fingerprint none),
    (
      ctx,
      put_if ctx.live
          (insert_outcome d.m (d.env.unix_now ctx.world) q.cert.fingerprint q.token_hash
            q.receipt_hash)
          (ok (cached_of vt tier q.cert)) cache,
    ),
  )

  abbrev pub expected_host : Request → Option Text
  expected_host q = if q.is_server then q.dialed_host else cert_fqdn q.cert

  abbrev pub after_bind :
      Request → VerifiedStatusToken → Result ScittError (Unit {0}) → Rest → Answer
  after_bind q vt (err e) rest = (some (scitt_error e), rest)
  after_bind q vt (ok _) rest = done q vt full_scitt rest

  abbrev pub after_receipt :
      Request → VerifiedStatusToken → Result ScittError VerifiedReceipt × Rest → Answer
  after_receipt q vt (err e, rest) = (some (scitt_error e), rest)
  after_receipt q vt (ok r, rest) =
      after_bind q vt
        (bind_receipt_to_status d.parse_leaf r.event_bytes vt.payload (expected_host q)) rest

  abbrev pub cached_receipt : List ℕ → Rest → Option VerifiedReceipt
  cached_receipt hash (ctx, cache) =
      if_live ctx.live (get_verified_receipt d.m (d.env.unix_now ctx.world) hash) cache

  -- The hash is there whenever the receipt is.
  abbrev pub with_receipt :
      Request → VerifiedStatusToken → Option (List ℕ) → Option (List ℕ) → Rest → Answer
  with_receipt q vt none hash rest = done q vt status_token_verified rest
  with_receipt q vt (some receipt_bytes) none rest = (some (scitt_error missing_token_field), rest)
  with_receipt q vt (some receipt_bytes) (some hash) rest = after_receipt q vt (
      through (cached_receipt hash rest) (fresh_receipt receipt_bytes)
        (λ w. insert_verified_receipt d.m (d.env.unix_now w) hash) rest)

  abbrev pub after_check :
      Request → VerifiedStatusToken → Option VerificationOutcome → Rest → Answer
  after_check q vt (some rejection) rest = (some rejection, rest)
  after_check q vt none rest = with_receipt q vt q.headers.receipt q.receipt_hash rest

  abbrev pub after_token : Request → Result ScittError VerifiedStatusToken × Rest → Answer
  after_token q (err e, rest) = (some (scitt_error e), rest)
  after_token q (ok vt, rest) =
      after_check q vt (check_scitt_certificate q.cert vt.payload q.is_server q.dialed_host) rest

  abbrev pub from_cached :
      Request → CachedScittOutcome → Option VerificationOutcome → VerificationOutcome
  from_cached q o (some rejection) = rejection
  from_cached q o none = scitt_verified o.verified_token o.tier o.matched_fingerprint none

  abbrev pub cached_token : List ℕ → Rest → Option VerifiedStatusToken
  cached_token hash (ctx, cache) =
      if_live ctx.live (get_verified_token d.m (d.env.unix_now ctx.world) hash) cache

  abbrev pub cached_outcome : Request → Rest → Option CachedScittOutcome
  cached_outcome q (ctx, cache) =
      if_live ctx.live
        (get_outcome d.m (d.env.unix_now ctx.world) q.cert.fingerprint q.token_hash q.receipt_hash)
        cache

  unfoldable pub after_outcome : Request → List ℕ → Option CachedScittOutcome → Rest → Answer
  unfolding through
  after_outcome q token_bytes (some o) rest = (
    some (
        from_cached q o
          (check_scitt_certificate q.cert o.verified_token.payload q.is_server q.dialed_host)),
    rest,
  )
  after_outcome q token_bytes none rest = after_token q (
      through (cached_token q.token_hash rest) (verify_token token_bytes)
        (λ w. insert_verified_token d.m (d.env.unix_now w) q.token_hash) rest)

  abbrev pub request_of :
      CertIdentity → ScittHeaders → Bool → Option Text → List ℕ → ScittKeyStore Key → Request
  request_of cert headers is_server dialed_host token_bytes snapshot = record {
    cert = cert;
    headers = headers;
    is_server = is_server;
    dialed_host = dialed_host;
    token_hash = hash_with d.crates snapshot token_bytes;
    receipt_hash = map_opt (hash_with d.crates snapshot) headers.receipt;
  }

  pub record ScittState : Type 0 where
    pub world : World
    pub keys : KeyStoreState Key
    pub cache : Cache

  abbrev pub start : ScittState → Rest
  start s =
      (record { world = s.world; keys = s.keys; snapshot = s.keys.snapshot; live = true }, s.cache)

  abbrev pub stop : Rest → ScittState
  stop (ctx, cache) = record { world = ctx.world; keys = ctx.keys; cache = cache }

  abbrev pub with_token :
      CertIdentity
      → ScittHeaders
      → Bool
      → Option Text
      → Option (List ℕ)
      → ScittState
      → Option VerificationOutcome × ScittState
  with_token cert headers is_server dialed_host none s = (none, s)
  with_token cert headers is_server dialed_host (some token_bytes) s =
      let q = request_of cert headers is_server dialed_host token_bytes s.keys.snapshot in
      let (outcome, rest) = after_outcome q token_bytes (cached_outcome q (start s)) (start s) in
      (outcome, stop rest)

  unfoldable pub try_scitt_verification :
      CertIdentity
      → ScittHeaders
      → Bool
      → Option Text
      → ScittState
      → Option VerificationOutcome × ScittState
  unfolding after_outcome
  try_scitt_verification cert headers is_server dialed_host s =
      with_token cert headers is_server dialed_host headers.status_token s
