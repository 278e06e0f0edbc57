-- ===== src/Verify/Scitt/Stored.antt =====
-- What is put into the caches of verified artifacts was verified.
use ans_sdk_rust.Prelude.{
  ℕ, ◌≡◌, inl, inr, refl, sym, ◌∙◌, Bool, true, false, List, Option, none, some, if◌then◌else◌,
}
use ans_sdk_rust.Prelude.Int.{ℤ}
use ans_sdk_rust.Text.{Text}
use ans_sdk_rust.Error.{ok}
use ans_sdk_rust.Cert.{cert_fqdn}
use ans_sdk_rust.Scitt.Certificate.{
  SameHost, check_scitt_certificate, check_server_certificate_iff, check_client_certificate_iff,
}
use ans_sdk_rust.Scitt.Identity.{
  ReceiptLeaf, HasHost, identity_of, bind_receipt_to_status, bind_receipt_to_status_iff,
}
use ans_sdk_rust.Scitt.Keys.{ScittKeyStore}
use ans_sdk_rust.Scitt.Receipt.{VerifiedReceipt, ReceiptFits}
use ans_sdk_rust.Scitt.Status.{TokenFits}
use ans_sdk_rust.Scitt.Token.{StatusTokenPayload, VerifiedStatusToken}
use ans_sdk_rust.Scitt.VerificationCache.{
  ScittVerificationCache, CachedScittOutcome, insert_outcome, insert_verified_token,
  insert_verified_receipt, key_of,
}
use ans_sdk_rust.Verify.Scitt.{ScittSetup, Request, expected_host, hash_with}
use ans_sdk_rust.Scitt.Reuse.{Fits, scope_of}
use ans_sdk_rust.Verify.Scitt.Caches.{ScittLaws, OutcomeFrom, CacheValid}

module _ (parse_leaf : Text → Option ReceiptLeaf) (event_bytes : Text)
    (payload : StatusTokenPayload) where
  HasHost-SameHost :
      (a b : Text) (host : Option Text)
      → SameHost a b
      → HasHost (some a) host
      → HasHost (some b) host
  HasHost-SameHost a b none same h = h
  HasHost-SameHost a b (some host) same h = h ∙ same

  -- A receipt that binds with one spelling of the host binds with any other.
  pub bind-SameHost :
      (a b : Text)
      → SameHost a b
      → bind_receipt_to_status parse_leaf event_bytes payload (some a) ≡ ok tt
      → bind_receipt_to_status parse_leaf event_bytes payload (some b) ≡ ok tt
  bind-SameHost a b same h =
      let (leaf, (read, bound)) =
        (bind_receipt_to_status_iff parse_leaf event_bytes payload (some a)).0 h in
      (bind_receipt_to_status_iff parse_leaf event_bytes payload (some b)).1 (
        leaf,
        (
          read,
          record {
            name = bound.name;
            id = bound.id;
            host = HasHost-SameHost a b (identity_of leaf).agent_host same bound.host;
          },
        ),
      )

module _ {Key World : Type 0} (d : ScittSetup Key World) where
  -- A server is dialed at a host; a client is not.
  abbrev pub HasPeer : Bool → Option Text → Type 0
  HasPeer true none = ⊥
  HasPeer true (some dialed) = Unit
  HasPeer false dialed = Unit

  -- A certificate that passes is for the token's host.
  pub expected_host-SameHost :
      (q : Request d) (payload : StatusTokenPayload)
      → HasPeer q.is_server q.dialed_host
      → check_scitt_certificate q.cert payload q.is_server q.dialed_host ≡ none
      → (host : Text) × ((expected_host d q ≡ some host) × SameHost host payload.ans_name.fqdn.name)
  expected_host-SameHost q payload peer e = by_role q.is_server q.dialed_host peer e
    where
      by_role :
          (is_server : Bool) (dialed : Option Text)
          → HasPeer is_server dialed
          → check_scitt_certificate q.cert payload is_server dialed ≡ none
          → (host : Text) × (((if is_server then dialed else cert_fqdn q.cert) ≡ some host)
              × SameHost host payload.ans_name.fqdn.name)
      by_role true none peer e = absurd peer
      by_role true (some dialed) peer e =
          let fits = (check_server_certificate_iff q.cert payload (some dialed)).0 e in
          (dialed, (refl, sym fits.host))
      by_role false dialed peer e =
          let fits = (check_client_certificate_iff q.cert payload dialed).0 e in
          let (host, (at, same)) = fits.cert_host in (host, (at, same))

  module _ (laws : ScittLaws d) where
    pub insert_verified_token-CacheValid :
        (now : ℤ) (snapshot : ScittKeyStore Key) (b : List ℕ) (vt : VerifiedStatusToken)
        (cache : ScittVerificationCache d.m)
        → Fits d.crates snapshot
        → laws.Occurs (scope_of d.crates snapshot) b
        → TokenFits d.crates b snapshot vt
        → CacheValid d laws cache
        → CacheValid d laws (insert_verified_token d.m now (hash_with d.crates snapshot b) vt cache)
    unfolding insert_verified_token
    insert_verified_token-CacheValid now snapshot b vt cache fits occurs token valid = record {
      tokens = λ t k w e.
          elim (laws.stores.tokens.find-store t now (hash_with d.crates snapshot b) k vt w
            cache.token_cache e) [
              | inl (at, is) ↦ record {
                store = snapshot;
                fits = fits;
                bytes = b;
                occurs = occurs;
                keyed = at;
                token = rw is token;
              }
              | inr old ↦ valid.tokens t k w old
            ];
      receipts = valid.receipts;
      outcomes = valid.outcomes;
    }

    pub insert_verified_receipt-CacheValid :
        (now : ℤ) (snapshot : ScittKeyStore Key) (b : List ℕ) (r : VerifiedReceipt)
        (cache : ScittVerificationCache d.m)
        → Fits d.crates snapshot
        → laws.Occurs (scope_of d.crates snapshot) b
        → ReceiptFits d.crates b snapshot r
        → CacheValid d laws cache
        → CacheValid d laws
            (insert_verified_receipt d.m now (hash_with d.crates snapshot b) r cache)
    unfolding insert_verified_receipt
    insert_verified_receipt-CacheValid now snapshot b r cache fits occurs receipt valid = record {
      tokens = valid.tokens;
      receipts = λ t k w e.
          elim (laws.stores.receipts.find-store t now (hash_with d.crates snapshot b) k r w
            cache.receipt_cache e) [
              | inl (at, is) ↦ record {
                store = snapshot;
                fits = fits;
                bytes = b;
                occurs = occurs;
                keyed = at;
                receipt = rw is receipt;
              }
              | inr old ↦ valid.receipts t k w old
            ];
      outcomes = valid.outcomes;
    }

    pub insert_outcome-CacheValid :
        (now : ℤ) (q : Request d) (o : CachedScittOutcome) (cache : ScittVerificationCache d.m)
        → OutcomeFrom d laws (key_of q.cert.fingerprint q.token_hash q.receipt_hash) o
        → CacheValid d laws cache
        → CacheValid d laws
            (insert_outcome d.m now q.cert.fingerprint q.token_hash q.receipt_hash o cache)
    unfolding insert_outcome
    insert_outcome-CacheValid now q o cache from valid = record {
      tokens = valid.tokens;
      receipts = valid.receipts;
      outcomes = λ t k w e.
          elim (laws.stores.outcomes.find-store t now
            (key_of q.cert.fingerprint q.token_hash q.receipt_hash) k o w cache.outcome_cache e) [
              | inl (at, is) ↦ rw (at, is) from
              | inr old ↦ valid.outcomes t k w old
            ];
    }
