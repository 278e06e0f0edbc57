-- ===== src/Scitt/Reuse.antt =====
-- What is cached of a verified token or receipt, and that a hit fits what is looked up.
use ans_sdk_rust.Prelude.{ℕ, ◌≡◌, ◌∙◌, List}
use ans_sdk_rust.Error.{ok}
use ans_sdk_rust.Scitt.Keys.{artifact_cache_key, ScittKeyStore, TrustedKey, get_key, scope_input}
use ans_sdk_rust.Scitt.Keys.Scope.{StoreFits, NoCollisions, PointLaws, artifact_cache_key_injective}
use ans_sdk_rust.Scitt.Receipt.{VerifiedReceipt, ReceiptFits}
use ans_sdk_rust.Scitt.Status.{ScittCrates, TokenFits}
use ans_sdk_rust.Scitt.Token.{VerifiedStatusToken}

module _ {Key : Type 0} (crates : ScittCrates Key) where
  abbrev pub Fits : ScittKeyStore Key → Type 0
  Fits = StoreFits crates.crypto crates.keys

  -- What the scope of a store is the digest of.
  abbrev pub scope_of : ScittKeyStore Key → List ℕ
  scope_of store = scope_input crates.crypto crates.keys store.keys

  -- Verification only looks keys up.
  abbrev pub Knows : ScittKeyStore Key → ScittKeyStore Key → Type 0
  Knows store store' =
      (kid : List ℕ) (k : TrustedKey Key)
      → get_key crates.crypto crates.keys store kid ≡ ok k
      → get_key crates.crypto crates.keys store' kid ≡ ok k

  pub TokenFits-Knows :
      (store store' : ScittKeyStore Key) (b : List ℕ) (vt : VerifiedStatusToken)
      → Knows store store'
      → TokenFits crates b store vt
      → TokenFits crates b store' vt
  TokenFits-Knows store store' b vt knows t = record {
    parsed = t.parsed;
    parses = t.parses;
    signed = record {
      trusted = t.signed.trusted;
      found = knows _ _ t.signed.found;
      sig_structure = t.signed.sig_structure;
      built = t.signed.built;
      sig = t.signed.sig;
      encodes = t.signed.encodes;
      verifies = t.signed.verifies;
      issuer = t.signed.issuer;
    };
    decodes = t.decodes;
    status = t.status;
    key_id = t.key_id;
  }

  pub ReceiptFits-Knows :
      (store store' : ScittKeyStore Key) (b : List ℕ) (r : VerifiedReceipt)
      → Knows store store'
      → ReceiptFits crates b store r
      → ReceiptFits crates b store' r
  ReceiptFits-Knows store store' b r knows t = record {
    parsed = t.parsed;
    parses = t.parses;
    vds = t.vds;
    signed = record {
      trusted = t.signed.trusted;
      found = knows _ _ t.signed.found;
      sig_structure = t.signed.sig_structure;
      built = t.signed.built;
      sig = t.signed.sig;
      encodes = t.signed.encodes;
      verifies = t.signed.verifies;
      issuer = t.signed.issuer;
    };
    vdp = t.vdp;
    extracts = t.extracts;
    walks = t.walks;
    is = t.is;
  }

  -- `Occurs` says which artifacts occur, by what the scope of their store is the digest of and by
  -- their bytes.
  module _ (Occurs : List ℕ → List ℕ → Type 0) where
    pub record TokenFrom (hash : List ℕ) (vt : VerifiedStatusToken) : Type 0 where
      pub store : ScittKeyStore Key
      pub fits : Fits store
      pub bytes : List ℕ
      pub occurs : Occurs (scope_of store) bytes
      pub keyed : hash ≡ artifact_cache_key crates.crypto crates.keys store bytes
      pub token : TokenFits crates bytes store vt

    pub record ReceiptFrom (hash : List ℕ) (r : VerifiedReceipt) : Type 0 where
      pub store : ScittKeyStore Key
      pub fits : Fits store
      pub bytes : List ℕ
      pub occurs : Occurs (scope_of store) bytes
      pub keyed : hash ≡ artifact_cache_key crates.crypto crates.keys store bytes
      pub receipt : ReceiptFits crates bytes store r

    module _ (collisions : NoCollisions crates.crypto Occurs) (points : PointLaws crates.keys) where
      -- The same bytes, under a store that knows the same keys.
      same_key :
          (store store' : ScittKeyStore Key) (b b' : List ℕ)
          → Fits store
          → Fits store'
          → Occurs (scope_of store) b
          → Occurs (scope_of store') b'
          → artifact_cache_key crates.crypto crates.keys store b
            ≡ artifact_cache_key crates.crypto crates.keys store' b'
          → (b ≡ b') × Knows store' store
      same_key store store' b b' f f' o o' e =
          let (same, agree) =
            artifact_cache_key_injective crates.crypto crates.keys Occurs collisions points store
              store' b b' f f' o o' e in
          (same, λ kid k found. agree kid ∙ found)

      pub token_hit :
          (snapshot : ScittKeyStore Key) (b : List ℕ) (vt : VerifiedStatusToken)
          → Fits snapshot
          → Occurs (scope_of snapshot) b
          → TokenFrom (artifact_cache_key crates.crypto crates.keys snapshot b) vt
          → TokenFits crates b snapshot vt
      token_hit snapshot b vt fits occurs from =
          let (same, knows) =
            same_key snapshot from.store b from.bytes fits from.fits occurs from.occurs
              from.keyed in
          rw same (TokenFits-Knows from.store snapshot from.bytes vt knows from.token)

      pub receipt_hit :
          (snapshot : ScittKeyStore Key) (b : List ℕ) (r : VerifiedReceipt)
          → Fits snapshot
          → Occurs (scope_of snapshot) b
          → ReceiptFrom (artifact_cache_key crates.crypto crates.keys snapshot b) r
          → ReceiptFits crates b snapshot r
      receipt_hit snapshot b r fits occurs from =
          let (same, knows) =
            same_key snapshot from.store b from.bytes fits from.fits occurs from.occurs
              from.keyed in
          rw same (ReceiptFits-Knows from.store snapshot from.bytes r knows from.receipt)
