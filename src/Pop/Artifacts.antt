-- ===== src/Pop/Artifacts.antt =====
-- crates/ans-verify/src/pop/cache.rs: the cache of a caller's verified artifacts. The stores are the
-- crate moka, by the laws of the caches of Scitt/VerificationCache: an entry may be gone at any time.
use ans_sdk_rust.Prelude.{ℕ, List, Option, none, some}
use ans_sdk_rust.Prelude.Int.{ℤ}
use ans_sdk_rust.Error.{Result, ok, err}
use ans_sdk_rust.Pop.Errors.{PopErrorKind}
use ans_sdk_rust.Pop.Claims.{LeafCert}
use ans_sdk_rust.Scitt.Receipt.{VerifiedReceipt}
use ans_sdk_rust.Scitt.Token.{StatusTokenPayload}
use ans_sdk_rust.Scitt.VerificationCache.{TtlStore, TtlLaws}

pub record ArtifactStores (Key : Type 0) : Type 1 where
  pub statuses : TtlStore (List ℕ) StatusTokenPayload
  pub receipts : TtlStore (List ℕ) VerifiedReceipt
  pub certs : TtlStore (List ℕ) (LeafCert Key)

pub record ArtifactLaws {Key : Type 0} (m : ArtifactStores Key) : Type 0 where
  pub statuses : TtlLaws m.statuses
  pub receipts : TtlLaws m.receipts
  pub certs : TtlLaws m.certs

pub record VerifiedArtifactCache {Key : Type 0} (m : ArtifactStores Key) : Type 0 where
  pub status_tokens : m.statuses.Store
  pub receipts : m.receipts.Store
  pub proof_certs : m.certs.Store

module _ {Key : Type 0} (m : ArtifactStores Key) where
  unfoldable pub status : ℤ → List ℕ → VerifiedArtifactCache m → Option StatusTokenPayload
  status clock key cache = m.statuses.find clock key cache.status_tokens

  unfoldable pub store_status :
      ℤ → List ℕ → StatusTokenPayload → VerifiedArtifactCache m → VerifiedArtifactCache m
  store_status clock key payload cache = record cache {
    status_tokens = m.statuses.store clock key payload cache.status_tokens;
  }

  unfoldable pub receipt : ℤ → List ℕ → VerifiedArtifactCache m → Option VerifiedReceipt
  receipt clock key cache = m.receipts.find clock key cache.receipts

  unfoldable pub store_receipt :
      ℤ → List ℕ → VerifiedReceipt → VerifiedArtifactCache m → VerifiedArtifactCache m
  store_receipt clock key r cache = record cache {
    receipts = m.receipts.store clock key r cache.receipts;
  }

  unfoldable pub proof_cert : ℤ → List ℕ → VerifiedArtifactCache m → Option (LeafCert Key)
  proof_cert clock key cache = m.certs.find clock key cache.proof_certs

  unfoldable pub store_proof_cert :
      ℤ → List ℕ → LeafCert Key → VerifiedArtifactCache m → VerifiedArtifactCache m
  store_proof_cert clock key cert cache = record cache {
    proof_certs = m.certs.store clock key cert cache.proof_certs;
  }

  -- There may be no cache.
  abbrev pub WithCache : Type 0 → Type 0
  WithCache A = Result PopErrorKind A × Option (VerifiedArtifactCache m)

  abbrev pub or_fresh :
      {A : Type 0}
      → (A → VerifiedArtifactCache m → VerifiedArtifactCache m)
      → Result PopErrorKind A
      → Option A
      → VerifiedArtifactCache m
      → WithCache A
  or_fresh put fresh (some a) cache = (ok a, some cache)
  or_fresh put (ok a) none cache = (ok a, some (put a cache))
  or_fresh put (err e) none cache = (err e, some cache)

  -- What the cache has, else what a verification gives, which is then stored.
  abbrev pub through :
      {A : Type 0}
      → (VerifiedArtifactCache m → Option A)
      → (A → VerifiedArtifactCache m → VerifiedArtifactCache m)
      → Result PopErrorKind A
      → Option (VerifiedArtifactCache m)
      → WithCache A
  through find put fresh none = (fresh, none)
  through find put fresh (some cache) = or_fresh put fresh (find cache) cache

  -- The `?` operator, with the cache.
  abbrev pub and_then :
      {A B : Type 0}
      → WithCache A
      → (A → Option (VerifiedArtifactCache m) → WithCache B)
      → WithCache B
  and_then (ok a, cache) f = f a cache
  and_then (err e, cache) f = (err e, cache)
