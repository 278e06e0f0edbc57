-- ===== src/Pop/Caller/Entries.antt =====
-- What the cache of a caller's verified artifacts holds.
use ans_sdk_rust.Prelude.{ℕ, ◌≡◌, inl, inr, sym, ap, ◌∙◌, false, List, Option, none, some}
use ans_sdk_rust.Prelude.Int.{ℤ, ltb_ℤ}
use ans_sdk_rust.Text.{Text}
use ans_sdk_rust.Error.{ok}
use ans_sdk_rust.Results.{bind-ok, map_err, map_err-ok}
use ans_sdk_rust.Types.Fingerprint.{Crypto}
use ans_sdk_rust.Scitt.Keys.{ScittKeyStore, artifact_cache_key}
use ans_sdk_rust.Scitt.Keys.Scope.{NoCollisions, PointLaws}
use ans_sdk_rust.Scitt.Receipt.{VerifiedReceipt, ReceiptFits, receipt_fits_iff}
use ans_sdk_rust.Scitt.Reuse.{Fits, scope_of, TokenFrom, ReceiptFrom}
use ans_sdk_rust.Scitt.Status.{TokenFits, expires, verify_status_token_at, token_fits_iff}
use ans_sdk_rust.Scitt.Token.{StatusTokenPayload, VerifiedStatusToken}
use ans_sdk_rust.Pop.Claims.{LeafCert}
use ans_sdk_rust.Pop.Jws.{parse_leaf_cert}
use ans_sdk_rust.Pop.Artifacts.{
  ArtifactLaws, VerifiedArtifactCache, store_status, store_receipt, store_proof_cert,
}
use ans_sdk_rust.Pop.Caller.{CallerSetup, fresh_status, fresh_receipt}

-- No two of the texts of certificates that are presented have the same digest.
pub record NoTextCollisions (c : Crypto) (Presented : Text → Type 0) : Type 0 where
  pub plain : (x y : Text) → Presented x → Presented y → c.sha256 x ≡ c.sha256 y → x ≡ y

-- What is documented of the crates, which artifacts occur, under the scope of which keys, and which
-- texts of certificates are presented.
pub record CallerLaws {Key PKey : Type 0} (d : CallerSetup Key PKey) : Type 1 where
  pub stores : ArtifactLaws d.m
  pub Occurs : List ℕ → List ℕ → Type 0
  pub Presented : Text → Type 0
  pub collisions : NoCollisions d.crates.crypto Occurs
  pub points : PointLaws d.crates.keys
  pub texts : NoTextCollisions d.crates.crypto Presented

module _ {Key PKey : Type 0} (d : CallerSetup Key PKey) where
  -- A verification gives a payload that fits and is not expired, and each such payload.
  pub record StatusFits (b : List ℕ) (keys : ScittKeyStore Key) (payload : StatusTokenPayload)
      : Type 0 where
    pub token : VerifiedStatusToken
    pub fits : TokenFits d.crates b keys token
    pub is : token.payload ≡ payload

  pub fresh_status_sound :
      (b : List ℕ) (keys : ScittKeyStore Key) (skew : ℕ) (now : ℤ) (payload : StatusTokenPayload)
      → fresh_status d b keys skew now ≡ ok payload
      → StatusFits b keys payload × (ltb_ℤ (expires payload.exp skew) now ≡ false)
  fresh_status_sound b keys skew now payload h =
      let (token, (e, h')) =
        bind-ok (map_err _ (verify_status_token_at d.crates b keys skew now)) _ _ h in
      let (fits, late) = (token_fits_iff d.crates b keys skew now token).0 (map_err-ok _ _ _ e) in
      let is : token.payload ≡ payload = cc h' in
      (
        record { token = token; fits = fits; is = is },
        ap (λ p. ltb_ℤ (expires p.exp skew) now) (sym is) ∙ late,
      )

  pub fresh_status_complete :
      (b : List ℕ) (keys : ScittKeyStore Key) (skew : ℕ) (now : ℤ) (payload : StatusTokenPayload)
      → StatusFits b keys payload
      → ltb_ℤ (expires payload.exp skew) now ≡ false
      → fresh_status d b keys skew now ≡ ok payload
  fresh_status_complete b keys skew now payload f h =
      let accepted =
        (token_fits_iff d.crates b keys skew now f.token).1
          (f.fits, ap (λ p. ltb_ℤ (expires p.exp skew) now) f.is ∙ h) in
      rw accepted (ap ok f.is)

  pub fresh_receipt_sound :
      (b : List ℕ) (keys : ScittKeyStore Key) (r : VerifiedReceipt)
      → fresh_receipt d b keys ≡ ok r
      → ReceiptFits d.crates b keys r
  fresh_receipt_sound b keys r h = (receipt_fits_iff d.crates b keys r).0 (map_err-ok _ _ _ h)

  module _ (laws : CallerLaws d) where
    pub record StatusFrom (hash : List ℕ) (payload : StatusTokenPayload) : Type 0 where
      pub token : VerifiedStatusToken
      pub from : TokenFrom d.crates laws.Occurs hash token
      pub is : token.payload ≡ payload

    pub record CertFrom (hash : List ℕ) (leaf : LeafCert PKey) : Type 0 where
      pub x5c : Text
      pub presented : laws.Presented x5c
      pub keyed : hash ≡ d.crates.crypto.sha256 x5c
      pub parses : parse_leaf_cert d.crates.crypto d.proofs x5c ≡ ok leaf

    pub record CacheValid (cache : VerifiedArtifactCache d.m) : Type 0 where
      pub statuses :
          (t : ℤ) (k : List ℕ) (payload : StatusTokenPayload)
          → d.m.statuses.find t k cache.status_tokens ≡ some payload
          → StatusFrom k payload
      pub receipts :
          (t : ℤ) (k : List ℕ) (r : VerifiedReceipt)
          → d.m.receipts.find t k cache.receipts ≡ some r
          → ReceiptFrom d.crates laws.Occurs k r
      pub certs :
          (t : ℤ) (k : List ℕ) (leaf : LeafCert PKey)
          → d.m.certs.find t k cache.proof_certs ≡ some leaf
          → CertFrom k leaf

    -- Where there is a cache, it holds only what was verified.
    abbrev pub Holds : Option (VerifiedArtifactCache d.m) → Type 0
    Holds none = Unit
    Holds (some cache) = CacheValid cache

    pub store_status-CacheValid :
        (clock : ℤ) (keys : ScittKeyStore Key) (b : List ℕ) (payload : StatusTokenPayload)
        (cache : VerifiedArtifactCache d.m)
        → Fits d.crates keys
        → laws.Occurs (scope_of d.crates keys) b
        → StatusFits b keys payload
        → CacheValid cache
        → CacheValid (
            store_status d.m clock
              (artifact_cache_key d.crates.crypto d.crates.keys keys b)
              payload
              cache)
    unfolding store_status
    store_status-CacheValid clock keys b payload cache fits occurs f valid = record {
      statuses = λ t k v e.
          elim (laws.stores.statuses.find-store t clock _ k payload v cache.status_tokens e) [
            | inl (at, is) ↦ record {
              token = f.token;
              from = record {
                store = keys;
                fits = fits;
                bytes = b;
                occurs = occurs;
                keyed = at;
                token = f.fits;
              };
              is = f.is ∙ sym is;
            }
            | inr old ↦ valid.statuses t k v old
          ];
      receipts = valid.receipts;
      certs = valid.certs;
    }

    pub store_receipt-CacheValid :
        (clock : ℤ) (keys : ScittKeyStore Key) (b : List ℕ) (r : VerifiedReceipt)
        (cache : VerifiedArtifactCache d.m)
        → Fits d.crates keys
        → laws.Occurs (scope_of d.crates keys) b
        → ReceiptFits d.crates b keys r
        → CacheValid cache
        → CacheValid (
            store_receipt d.m clock
              (artifact_cache_key d.crates.crypto d.crates.keys keys b)
              r
              cache)
    unfolding store_receipt
    store_receipt-CacheValid clock keys b r cache fits occurs f valid = record {
      statuses = valid.statuses;
      receipts = λ t k v e.
          elim (laws.stores.receipts.find-store t clock _ k r v cache.receipts e) [
            | inl (at, is) ↦ record {
              store = keys;
              fits = fits;
              bytes = b;
              occurs = occurs;
              keyed = at;
              receipt = rw is f;
            }
            | inr old ↦ valid.receipts t k v old
          ];
      certs = valid.certs;
    }

    pub store_proof_cert-CacheValid :
        (clock : ℤ) (x5c : Text) (leaf : LeafCert PKey) (cache : VerifiedArtifactCache d.m)
        → laws.Presented x5c
        → parse_leaf_cert d.crates.crypto d.proofs x5c ≡ ok leaf
        → CacheValid cache
        → CacheValid (store_proof_cert d.m clock (d.crates.crypto.sha256 x5c) leaf cache)
    unfolding store_proof_cert
    store_proof_cert-CacheValid clock x5c leaf cache presented parses valid = record {
      statuses = valid.statuses;
      receipts = valid.receipts;
      certs = λ t k v e.
          elim (laws.stores.certs.find-store t clock _ k leaf v cache.proof_certs e) [
            | inl (at, is) ↦ record {
              x5c = x5c;
              presented = presented;
              keyed = at;
              parses = parses ∙ ap ok (sym is);
            }
            | inr old ↦ valid.certs t k v old
          ];
    }
