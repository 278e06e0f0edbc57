-- ===== src/Verify/Scitt/Sound.antt =====
-- What a successful verification of the artifacts of a request means.
use ans_sdk_rust.Prelude.{
  ℕ, ◌≡◌, ◌⊎◌, refl, sym, ap, ◌∙◌, Bool, true, false, List, Option, none, some, if◌then◌else◌,
}
use ans_sdk_rust.Prelude.Int.{ltb_ℤ}
use ans_sdk_rust.Text.{Text}
use ans_sdk_rust.Error.{Result, ok, err, ScittError}
use ans_sdk_rust.Cert.{CertIdentity, cert_fqdn}
use ans_sdk_rust.Scitt.Certificate.{
  check_scitt_certificate, accepts, check_scitt_certificate-accepts,
}
use ans_sdk_rust.Scitt.Headers.{ScittHeaders}
use ans_sdk_rust.Scitt.Identity.{bind_receipt_to_status}
use ans_sdk_rust.Scitt.Keys.{ScittKeyStore}
use ans_sdk_rust.Scitt.KeyStore.{KeyStoreState}
use ans_sdk_rust.Scitt.Receipt.{VerifiedReceipt, ReceiptFits, receipt_fits_iff}
use ans_sdk_rust.Scitt.Status.{TokenFits, expires, token_fits_iff}
use ans_sdk_rust.Scitt.Token.{
  VerifiedStatusToken, VerificationTier, full_scitt, status_token_verified,
}
use ans_sdk_rust.Scitt.VerificationCache.{
  ScittVerificationCache, insert_verified_token, insert_verified_receipt, get_verified_receipt,
}
use ans_sdk_rust.Verify.Outcome.{VerificationOutcome, scitt_verified, scitt_error, is_success}
use ans_sdk_rust.Verify.Scitt.{
  ScittSetup, Ctx, Answer, Request, hash_with, map_opt, verify_token, fresh_receipt, done,
  after_bind, after_receipt, with_receipt, after_check, after_token, after_outcome, request_of,
  ScittState, start, with_token, try_scitt_verification,
}
use ans_sdk_rust.Scitt.Reuse.{Knows, TokenFits-Knows, ReceiptFits-Knows}
use ans_sdk_rust.Verify.Scitt.Steps.{if_live-none}
use ans_sdk_rust.Verify.Scitt.Tried.{refresh, Tried, retry-Tried, through_bare}

module _ {Key World : Type 0} (d : ScittSetup Key World) where
  -- Checked at the start, or after a refresh of the keys.
  abbrev pub CheckedAt : World → KeyStoreState Key → World → Type 0
  CheckedAt start keys w = (w ≡ start) ⊎ (w ≡ (refresh d start keys).1.0)

  abbrev pub host_of : CertIdentity → Bool → Option Text → Option Text
  host_of cert is_server dialed = if is_server then dialed else cert_fqdn cert

  -- With a receipt, a verified one is bound to the token and the peer's host.
  abbrev pub ReceiptChecked :
      Option (List ℕ)
      → Option Text
      → ScittKeyStore Key
      → VerifiedStatusToken
      → VerificationTier
      → Type 0
  ReceiptChecked none host store vt tier = tier ≡ status_token_verified
  ReceiptChecked (some receipt_bytes) host store vt tier =
      (tier ≡ full_scitt)
      × ((r : VerifiedReceipt) × (ReceiptFits d.crates receipt_bytes store r
            × (bind_receipt_to_status d.parse_leaf r.event_bytes vt.payload host ≡ ok tt)))

  module _ (cert : CertIdentity) (headers : ScittHeaders) (is_server : Bool) (dialed : Option Text)
      (w0 : World) (keys0 : KeyStoreState Key) where
    -- What an accepted peer has, under the keys that the store ends with.
    pub record Checked (store : ScittKeyStore Key) (o : VerificationOutcome) : Type 0 where
      pub status_token : VerifiedStatusToken
      pub tier : VerificationTier
      pub outcome : o ≡ scitt_verified status_token tier cert.fingerprint none
      pub token_bytes : List ℕ
      pub sent : headers.status_token ≡ some token_bytes
      pub token : TokenFits d.crates token_bytes store status_token
      pub timely :
          (w : World) × (CheckedAt w0 keys0 w
            × (ltb_ℤ (expires status_token.payload.exp d.skew) (d.env.unix_now w) ≡ false))
      pub certificate : check_scitt_certificate cert status_token.payload is_server dialed ≡ none
      pub receipt :
          ReceiptChecked headers.receipt (host_of cert is_server dialed) store status_token tier

    abbrev Sound : Answer d → Type 0
    Sound a =
        (o : VerificationOutcome)
        → a.0 ≡ some o
        → is_success o ≡ true
        → Checked a.1.0.keys.snapshot o

    failed :
        (e : ScittError) (rest : Ctx Key World × Option (ScittVerificationCache d.m))
        → Sound (some (scitt_error e), rest)
    failed e rest o h good = absurd (cc (h, good))

    module _ (token_bytes : List ℕ) (sent : headers.status_token ≡ some token_bytes)
        (vt : VerifiedStatusToken)
        (timely : (w : World) × (CheckedAt w0 keys0 w
            × (ltb_ℤ (expires vt.payload.exp d.skew) (d.env.unix_now w) ≡ false)))
        (passes : check_scitt_certificate cert vt.payload is_server dialed ≡ none)
        (snapshot : ScittKeyStore Key) where
      abbrev q : Request d
      q = request_of d cert headers is_server dialed token_bytes snapshot

      done-Sound :
          (tier : VerificationTier) (ctx : Ctx Key World)
          → TokenFits d.crates token_bytes ctx.keys.snapshot vt
          → ReceiptChecked headers.receipt (host_of cert is_server dialed) ctx.keys.snapshot vt tier
          → Sound (done d q vt tier (ctx, none))
      done-Sound tier ctx token receipt o h good = record {
        status_token = vt;
        tier = tier;
        outcome = cc h;
        token_bytes = token_bytes;
        sent = sent;
        token = token;
        timely = timely;
        certificate = passes;
        receipt = receipt;
      }

      after_bind-Sound :
          (receipt_bytes : List ℕ) (r : VerifiedReceipt) (bound : Result ScittError (Unit {0}))
          (ctx : Ctx Key World)
          → headers.receipt ≡ some receipt_bytes
          → bind_receipt_to_status d.parse_leaf r.event_bytes vt.payload
              (host_of cert is_server dialed)
            ≡ bound
          → TokenFits d.crates token_bytes ctx.keys.snapshot vt
          → ReceiptFits d.crates receipt_bytes ctx.keys.snapshot r
          → Sound (after_bind d q vt bound (ctx, none))
      after_bind-Sound receipt_bytes r (err e) ctx at binds token receipt = failed e (ctx, none)
      after_bind-Sound receipt_bytes r (ok tt) ctx at binds token receipt =
          done-Sound full_scitt ctx token (rw at (refl, (r, (receipt, binds))))

      after_receipt-Sound :
          (receipt_bytes : List ℕ) (ctx : Ctx Key World)
          (answer : Result ScittError VerifiedReceipt × Ctx Key World)
          → headers.receipt ≡ some receipt_bytes
          → TokenFits d.crates token_bytes ctx.keys.snapshot vt
          → Tried d (fresh_receipt d receipt_bytes) ctx answer
          → Sound (after_receipt d q vt (answer.0, (answer.1, none)))
      after_receipt-Sound receipt_bytes ctx (err e, ctx') at token tried = failed e (ctx', none)
      after_receipt-Sound receipt_bytes ctx (ok r, ctx') at token tried =
          let (store, (known, (w, (_, fresh)))) = tried.got r refl in
          after_bind-Sound receipt_bytes r _ ctx' at refl
            (TokenFits-Knows d.crates ctx.keys.snapshot ctx'.keys.snapshot token_bytes vt tried.kept
              token)
            (ReceiptFits-Knows d.crates store ctx'.keys.snapshot receipt_bytes r known
              ((receipt_fits_iff d.crates receipt_bytes store r).0 fresh))

      with_receipt-Sound :
          (ctx : Ctx Key World)
          → Knows d.crates ctx.snapshot ctx.keys.snapshot
          → TokenFits d.crates token_bytes ctx.keys.snapshot vt
          → Sound (with_receipt d q vt q.headers.receipt q.receipt_hash (ctx, none))
      with_receipt-Sound ctx used token = by_receipt headers.receipt refl
        where
          by_receipt :
              (receipt : Option (List ℕ))
              → headers.receipt ≡ receipt
              → Sound (
                  with_receipt d q vt receipt
                    (map_opt (hash_with d.crates snapshot) receipt)
                    (ctx, none))
          by_receipt none at = done-Sound status_token_verified ctx token (rw at refl)
          by_receipt (some b) at =
              let hash = hash_with d.crates snapshot b in
              let put = λ (w : World). insert_verified_receipt d.m (d.env.unix_now w) hash in
              rw
                (
                  if_live-none d ctx.live
                      (get_verified_receipt d.m (d.env.unix_now ctx.world) hash),
                  through_bare d (fresh_receipt d b) put ctx,
                )
                (after_receipt-Sound b ctx _ at token (retry-Tried d (fresh_receipt d b) ctx used))

    module _ (token_bytes : List ℕ) (sent : headers.status_token ≡ some token_bytes)
        (snapshot : ScittKeyStore Key) where
      abbrev q0 : Request d
      q0 = request_of d cert headers is_server dialed token_bytes snapshot

      after_check-Sound :
          (vt : VerifiedStatusToken) (check : Option VerificationOutcome) (ctx : Ctx Key World)
          → check_scitt_certificate cert vt.payload is_server dialed ≡ check
          → Knows d.crates ctx.snapshot ctx.keys.snapshot
          → TokenFits d.crates token_bytes ctx.keys.snapshot vt
          → ((w : World) × (CheckedAt w0 keys0 w
                × (ltb_ℤ (expires vt.payload.exp d.skew) (d.env.unix_now w) ≡ false)))
          → Sound (after_check d q0 vt check (ctx, none))
      after_check-Sound vt (some rejection) ctx e used token timely = λ o h good. absurd (
          cc (
            sym (ap accepts e) ∙ check_scitt_certificate-accepts cert vt.payload is_server dialed,
            h,
            good,
          ))
      after_check-Sound vt none ctx e used token timely =
          with_receipt-Sound token_bytes sent vt timely e snapshot ctx used token

      after_token-Sound :
          (ctx : Ctx Key World) (answer : Result ScittError VerifiedStatusToken × Ctx Key World)
          → ctx.world ≡ w0
          → ctx.keys ≡ keys0
          → Tried d (verify_token d token_bytes) ctx answer
          → Sound (after_token d q0 (answer.0, (answer.1, none)))
      after_token-Sound ctx (err e, ctx') at_w at_k tried = failed e (ctx', none)
      after_token-Sound ctx (ok vt, ctx') at_w at_k tried =
          let (store, (known, (w, (at, fresh)))) = tried.got vt refl in
          let (token, late) =
            (token_fits_iff d.crates token_bytes store d.skew (d.env.unix_now w) vt).0 fresh in
          after_check-Sound vt _ ctx' refl tried.in_use
            (TokenFits-Knows d.crates store ctx'.keys.snapshot token_bytes vt known token)
            (w, (rw (← at_w, ← at_k) at, late))

  -- Without caches, what is accepted was checked.
  pub try_scitt_verification_sound :
      (cert : CertIdentity) (headers : ScittHeaders) (is_server : Bool) (dialed : Option Text)
      (world : World) (keys : KeyStoreState Key) (o : VerificationOutcome)
      → (try_scitt_verification d cert headers is_server dialed
          (record { world = world; keys = keys; cache = none })).0
        ≡ some o
      → is_success o ≡ true
      → Checked cert headers is_server dialed world keys
          (try_scitt_verification d cert headers is_server dialed
            (record { world = world; keys = keys; cache = none })).1.keys.snapshot
          o
  unfolding try_scitt_verification after_outcome
  try_scitt_verification_sound cert headers is_server dialed world keys =
      by_token headers.status_token refl
    where
      s : ScittState d
      s = record { world = world; keys = keys; cache = none }

      by_token :
          (token : Option (List ℕ))
          → headers.status_token ≡ token
          → (o : VerificationOutcome)
          → (with_token d cert headers is_server dialed token s).0 ≡ some o
          → is_success o ≡ true
          → Checked cert headers is_server dialed world keys
              (with_token d cert headers is_server dialed token s).1.keys.snapshot
              o
      by_token none at = λ o h good. absurd (cc h)
      by_token (some b) at =
          let ctx = (start d s).0 in
          let hash = hash_with d.crates keys.snapshot b in
          let put = λ (w : World). insert_verified_token d.m (d.env.unix_now w) hash in
          rw (through_bare d (verify_token d b) put ctx) (
            after_token-Sound cert headers is_server dialed world keys b at keys.snapshot ctx _ refl
              refl (retry-Tried d (verify_token d b) ctx (λ kid k h. h)))
