-- ===== src/Scitt/VerificationCache.antt =====
-- crates/ans-verify/src/scitt/verification_cache.rs: the caches of verified tokens, receipts and
-- outcomes. The stores are the crate moka, by its operations and documented laws: an entry may be
-- gone at any time, as its expiry policy or its capacity has it.
use ans_sdk_rust.Prelude.{ℕ, ◌≡◌, ◌⊎◌, List, Option, none, some, if◌then◌else◌}
use ans_sdk_rust.Prelude.Int.{ℤ, leb_ℤ}
use ans_sdk_rust.Types.Fingerprint.{CertFingerprint}
use ans_sdk_rust.Scitt.Receipt.{VerifiedReceipt}
use ans_sdk_rust.Scitt.Token.{VerifiedStatusToken, VerificationTier}

-- The crate moka, at a time in Unix seconds.
pub record TtlStore (K V : Type 0) : Type 1 where
  pub Store : Type 0
  pub find : ℤ → K → Store → Option V
  pub store : ℤ → K → V → Store → Store

pub record TtlLaws {K V : Type 0} (m : TtlStore K V) : Type 0 where
  pub find-store :
      (t u : ℤ) (k j : K) (v w : V) (s : m.Store)
      → m.find t j (m.store u k v s) ≡ some w
      → ((j ≡ k) × (w ≡ v)) ⊎ (m.find t j s ≡ some w)

pub record OutcomeKey : Type 0 where
  pub cert_fingerprint_bytes : List ℕ
  pub token_hash : List ℕ
  pub receipt_hash : Option (List ℕ)

pub record CachedScittOutcome : Type 0 where
  pub verified_token : VerifiedStatusToken
  pub tier : VerificationTier
  pub matched_fingerprint : CertFingerprint
  pub exp : ℤ

pub record Stores : Type 1 where
  pub tokens : TtlStore (List ℕ) VerifiedStatusToken
  pub receipts : TtlStore (List ℕ) VerifiedReceipt
  pub outcomes : TtlStore OutcomeKey CachedScittOutcome

pub record StoresLaws (m : Stores) : Type 0 where
  pub tokens : TtlLaws m.tokens
  pub receipts : TtlLaws m.receipts
  pub outcomes : TtlLaws m.outcomes

pub record ScittVerificationCache (m : Stores) : Type 0 where
  pub token_cache : m.tokens.Store
  pub receipt_cache : m.receipts.Store
  pub outcome_cache : m.outcomes.Store

abbrev pub unexpired_outcome : ℤ → Option CachedScittOutcome → Option CachedScittOutcome
unexpired_outcome now none = none
unexpired_outcome now (some outcome) = if leb_ℤ outcome.exp now then none else some outcome

abbrev pub unexpired_token : ℤ → Option VerifiedStatusToken → Option VerifiedStatusToken
unexpired_token now none = none
unexpired_token now (some token) = if leb_ℤ token.payload.exp now then none else some token

abbrev pub key_of : CertFingerprint → List ℕ → Option (List ℕ) → OutcomeKey
key_of fp token_hash receipt_hash = record {
  cert_fingerprint_bytes = fp.bytes;
  token_hash = token_hash;
  receipt_hash = receipt_hash;
}

module _ (m : Stores) where
  unfoldable pub get_outcome :
      ℤ
      → CertFingerprint
      → List ℕ
      → Option (List ℕ)
      → ScittVerificationCache m
      → Option CachedScittOutcome
  get_outcome now fp token_hash receipt_hash cache =
      unexpired_outcome now
        (m.outcomes.find now (key_of fp token_hash receipt_hash) cache.outcome_cache)

  unfoldable pub insert_outcome :
      ℤ
      → CertFingerprint
      → List ℕ
      → Option (List ℕ)
      → CachedScittOutcome
      → ScittVerificationCache m
      → ScittVerificationCache m
  insert_outcome now fp token_hash receipt_hash outcome cache = record cache {
    outcome_cache =
        m.outcomes.store now (key_of fp token_hash receipt_hash) outcome cache.outcome_cache;
  }

  unfoldable pub get_verified_token :
      ℤ → List ℕ → ScittVerificationCache m → Option VerifiedStatusToken
  get_verified_token now token_hash cache =
      unexpired_token now (m.tokens.find now token_hash cache.token_cache)

  unfoldable pub insert_verified_token :
      ℤ → List ℕ → VerifiedStatusToken → ScittVerificationCache m → ScittVerificationCache m
  insert_verified_token now token_hash token cache = record cache {
    token_cache = m.tokens.store now token_hash token cache.token_cache;
  }

  unfoldable pub get_verified_receipt :
      ℤ → List ℕ → ScittVerificationCache m → Option VerifiedReceipt
  get_verified_receipt now receipt_hash cache = m.receipts.find now receipt_hash cache.receipt_cache

  unfoldable pub insert_verified_receipt :
      ℤ → List ℕ → VerifiedReceipt → ScittVerificationCache m → ScittVerificationCache m
  insert_verified_receipt now receipt_hash receipt cache = record cache {
    receipt_cache = m.receipts.store now receipt_hash receipt cache.receipt_cache;
  }
