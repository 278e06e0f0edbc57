-- ===== src/Pop/Caller/Hits.antt =====
-- That a hit in the cache of a caller's verified artifacts is what a verification gives.
use ans_sdk_rust.Prelude.{
  ℕ, ◌≡◌, inl, inr, refl, sym, ap, ◌∙◌, List, Option, none, some, Bool-cases,
}
use ans_sdk_rust.Prelude.Int.{ℤ, ltb_ℤ}
use ans_sdk_rust.Text.{Text}
use ans_sdk_rust.Error.{ok}
use ans_sdk_rust.Scitt.Keys.{ScittKeyStore, artifact_cache_key}
use ans_sdk_rust.Scitt.Receipt.{VerifiedReceipt, receipt_fits_iff}
use ans_sdk_rust.Scitt.Reuse.{Fits, scope_of, token_hit, receipt_hit}
use ans_sdk_rust.Scitt.Status.{expires}
use ans_sdk_rust.Scitt.Token.{StatusTokenPayload}
use ans_sdk_rust.Pop.Claims.{LeafCert}
use ans_sdk_rust.Pop.Jws.{parse_leaf_cert}
use ans_sdk_rust.Pop.Artifacts.{VerifiedArtifactCache, status, receipt, proof_cert}
use ans_sdk_rust.Pop.Caller.{CallerSetup, timely, fresh_status, fresh_receipt}
use ans_sdk_rust.Pop.Caller.Entries.{CallerLaws, CacheValid, fresh_status_complete}

module _ {Key PKey : Type 0} (d : CallerSetup Key PKey) (laws : CallerLaws d) where
  pub status_hit :
      (clock : ℤ) (keys : ScittKeyStore Key) (b : List ℕ) (skew : ℕ) (now : ℤ)
      (payload : StatusTokenPayload) (cache : VerifiedArtifactCache d.m)
      → Fits d.crates keys
      → laws.Occurs (scope_of d.crates keys) b
      → CacheValid d laws cache
      → timely d skew now
          (status d.m clock (artifact_cache_key d.crates.crypto d.crates.keys keys b) cache)
        ≡ some payload
      → fresh_status d b keys skew now ≡ ok payload
  unfolding status
  status_hit clock keys b skew now payload cache fits occurs valid h = by_found _ refl h
    where
      by_found :
          (found : Option StatusTokenPayload)
          → d.m.statuses.find clock
              (artifact_cache_key d.crates.crypto d.crates.keys keys b)
              cache.status_tokens
            ≡ found
          → timely d skew now found ≡ some payload
          → fresh_status d b keys skew now ≡ ok payload
      by_found none at h = absurd (cc h)
      by_found (some p) at h = elim (Bool-cases (ltb_ℤ (expires p.exp skew) now)) [
        | inl late ↦ absurd (cc (rw late at h))
        | inr in_time ↦
            let is : p ≡ payload = cc (rw in_time at h) in
            let from = valid.statuses clock _ p at in
            fresh_status_complete d b keys skew now payload
              (record {
                token = from.token;
                fits =
                    token_hit d.crates laws.Occurs laws.collisions laws.points keys b from.token
                      fits occurs from.from;
                is = from.is ∙ is;
              })
              (ap (λ x. ltb_ℤ (expires x.exp skew) now) (sym is) ∙ in_time)
      ]

  pub cached_receipt_hit :
      (clock : ℤ) (keys : ScittKeyStore Key) (b : List ℕ) (r : VerifiedReceipt)
      (cache : VerifiedArtifactCache d.m)
      → Fits d.crates keys
      → laws.Occurs (scope_of d.crates keys) b
      → CacheValid d laws cache
      → receipt d.m clock (artifact_cache_key d.crates.crypto d.crates.keys keys b) cache ≡ some r
      → fresh_receipt d b keys ≡ ok r
  unfolding receipt
  cached_receipt_hit clock keys b r cache fits occurs valid h =
      let fit =
        receipt_hit d.crates laws.Occurs laws.collisions laws.points keys b r fits occurs
          (valid.receipts clock _ r h) in
      rw ((receipt_fits_iff d.crates b keys r).1 fit) refl

  pub cert_hit :
      (clock : ℤ) (x5c : Text) (leaf : LeafCert PKey) (cache : VerifiedArtifactCache d.m)
      → laws.Presented x5c
      → CacheValid d laws cache
      → proof_cert d.m clock (d.crates.crypto.sha256 x5c) cache ≡ some leaf
      → parse_leaf_cert d.crates.crypto d.proofs x5c ≡ ok leaf
  unfolding proof_cert
  cert_hit clock x5c leaf cache presented valid h =
      let from = valid.certs clock _ leaf h in
      let same = laws.texts.plain x5c from.x5c presented from.presented from.keyed in
      ap (parse_leaf_cert d.crates.crypto d.proofs) same ∙ from.parses
