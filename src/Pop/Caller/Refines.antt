-- ===== src/Pop/Caller/Refines.antt =====
-- That the cache of verified artifacts changes no answer to a caller.
use ans_sdk_rust.Prelude.{ℕ, ◌≡◌, refl, sym, ap, ◌∙◌, List, Option, none, some, ltb}
use ans_sdk_rust.Prelude.Int.{ℤ}
use ans_sdk_rust.Text.{Text, byte_len}
use ans_sdk_rust.Error.{Result, ok, err}
use ans_sdk_rust.Results.{bind-ok, fail_if}
use ans_sdk_rust.Scitt.Keys.{ScittKeyStore, artifact_cache_key}
use ans_sdk_rust.Scitt.Reuse.{Fits, scope_of}
use ans_sdk_rust.Pop.Errors.{PopErrorKind, malformed_proof}
use ans_sdk_rust.Pop.Replay.{Inner}
use ans_sdk_rust.Pop.Jws.{first_x5c, parse_leaf_cert}
use ans_sdk_rust.Pop.Proof.{ProofText, max_proof_size, or_else, read_text}
use ans_sdk_rust.Pop.Artifacts.{
  VerifiedArtifactCache, status, store_status, receipt, store_receipt, proof_cert, store_proof_cert,
  WithCache, or_fresh, through, and_then,
}
use ans_sdk_rust.Pop.Peers.{CallerIdentity}
use ans_sdk_rust.Pop.Caller.{
  CallerSetup, CallerRequest, Cache, preflight, cached_leaf, sized_text, verify_proof_with,
  fresh_status, timely, fresh_receipt, verified_status_payload, verified_receipt, receipt_if_sent,
  status_skew_of, authenticate, commit_caller, after_preflight, verify_caller_with_content,
}
use ans_sdk_rust.Pop.Caller.Preflight.{preflight_sound}
use ans_sdk_rust.Pop.Caller.Hits.{status_hit, cached_receipt_hit, cert_hit}
use ans_sdk_rust.Pop.Caller.Entries.{
  CallerLaws, CacheValid, Holds, fresh_status_sound, fresh_receipt_sound, store_status-CacheValid,
  store_receipt-CacheValid, store_proof_cert-CacheValid,
}

module _ {Key PKey : Type 0} (d : CallerSetup Key PKey) (laws : CallerLaws d) where
  -- The same answer; the cache holds what was verified.
  pub record Agrees {A : Type 0} (a b : WithCache d.m A) : Type 0 where
    pub outcome : a.0 ≡ b.0
    pub bare : b.1 ≡ none
    pub holds : Holds d laws a.1

  answer-Agrees :
      {A : Type 0} (r : Result PopErrorKind A) (cache : Cache d)
      → Holds d laws cache
      → Agrees (r, cache) (r, none)
  answer-Agrees r cache h = record { outcome = refl; bare = refl; holds = h }

  and_then-Agrees :
      {A B : Type 0} (a b : WithCache d.m A) (f : A → Cache d → WithCache d.m B)
      → Agrees a b
      → ((x : A) (cache : Cache d)
          → a.0 ≡ ok x
          → Holds d laws cache
          → Agrees (f x cache) (f x none))
      → Agrees (and_then d.m a f) (and_then d.m b f)
  and_then-Agrees (ok x, cache) (r, cache') f agrees next =
      rw (← agrees.outcome, agrees.bare) (next x cache refl agrees.holds)
  and_then-Agrees (err e, cache) (r, cache') f agrees next =
      rw (← agrees.outcome, agrees.bare) (answer-Agrees (err e) cache agrees.holds)

  through-Agrees :
      {A : Type 0} (find : VerifiedArtifactCache d.m → Option A)
      (put : A → VerifiedArtifactCache d.m → VerifiedArtifactCache d.m)
      (fresh : Result PopErrorKind A) (cache : Cache d)
      → ((a : A) (c : VerifiedArtifactCache d.m)
          → CacheValid d laws c
          → find c ≡ some a
          → fresh ≡ ok a)
      → ((a : A) (c : VerifiedArtifactCache d.m)
          → fresh ≡ ok a
          → CacheValid d laws c
          → CacheValid d laws (put a c))
      → Holds d laws cache
      → Agrees (through d.m find put fresh cache) (through d.m find put fresh none)
  through-Agrees {A} find put fresh none right keeps h = answer-Agrees fresh none h
  through-Agrees {A} find put fresh (some c) right keeps h = by_found (find c) refl fresh refl
    where
      by_found :
          (found : Option A)
          → find c ≡ found
          → (r : Result PopErrorKind A) → fresh ≡ r
          → Agrees (or_fresh d.m put r found c) (r, none)
      by_found (some a) at r e = record {
        outcome = sym (right a c h at) ∙ e;
        bare = refl;
        holds = h;
      }
      by_found none at (ok a) e = record { outcome = refl; bare = refl; holds = keeps a c e h }
      by_found none at (err x) e = record { outcome = refl; bare = refl; holds = h }

  -- The artifacts of a request are among those that occur, and its certificate's text is.
  pub record Seen (q : CallerRequest Key) : Type 0 where
    pub token :
        (b : List ℕ) → q.headers.status_token ≡ some b → laws.Occurs (scope_of d.crates q.keys) b
    pub receipt :
        (b : List ℕ) → q.headers.receipt ≡ some b → laws.Occurs (scope_of d.crates q.keys) b
    pub cert :
        (text : ProofText)
        → read_text d.crates.crypto d.proofs q.proof_jws ≡ ok text
        → laws.Presented (first_x5c text.header)

  module _ (clock : ℤ) (keys : ScittKeyStore Key) (fits : Fits d.crates keys) where
    leaf-Agrees :
        (x5c : Text) (cache : Cache d)
        → laws.Presented x5c
        → Holds d laws cache
        → Agrees (cached_leaf d clock x5c cache) (cached_leaf d clock x5c none)
    leaf-Agrees x5c cache presented h =
        let key = d.crates.crypto.sha256 x5c in
        through-Agrees (proof_cert d.m clock key) (store_proof_cert d.m clock key)
          (parse_leaf_cert d.crates.crypto d.proofs x5c) cache
          (λ leaf c valid found. cert_hit d laws clock x5c leaf c presented valid found)
          (λ leaf c parses valid.
            store_proof_cert-CacheValid d laws clock x5c leaf c presented parses valid)
          h

    proof-Agrees :
        (q : CallerRequest Key) (now : ℤ) (cache : Cache d)
        → Seen q
        → Holds d laws cache
        → Agrees (verify_proof_with d clock q now cache) (verify_proof_with d clock q now none)
    unfolding verify_proof_with
    proof-Agrees q now cache seen h =
        and_then-Agrees _ _ _ (answer-Agrees (sized_text d q.proof_jws) cache h) (λ text c e h.
          let (_, (_, reads)) =
            bind-ok (fail_if (ltb max_proof_size (byte_len q.proof_jws)) malformed_proof) _ _ e in
          and_then-Agrees _ _ _ (leaf-Agrees (first_x5c text.header) c (seen.cert text reads) h)
            (λ leaf c' e' h'. answer-Agrees _ c' h'))

    status-Agrees :
        (b : List ℕ) (skew : ℕ) (now : ℤ) (cache : Cache d)
        → laws.Occurs (scope_of d.crates keys) b
        → Holds d laws cache
        → Agrees
            (verified_status_payload d clock b keys skew now cache)
            (verified_status_payload d clock b keys skew now none)
    unfolding verified_status_payload
    status-Agrees b skew now cache occurs h =
        let key = artifact_cache_key d.crates.crypto d.crates.keys keys b in
        through-Agrees (λ c. timely d skew now (status d.m clock key c))
          (store_status d.m clock key) (fresh_status d b keys skew now) cache
          (λ payload c valid found.
            status_hit d laws clock keys b skew now payload c fits occurs valid found)
          (λ payload c e valid.
            store_status-CacheValid d laws clock keys b payload c fits occurs
              (fresh_status_sound d b keys skew now payload e).0 valid)
          h

    receipt-Agrees :
        (b : List ℕ) (cache : Cache d)
        → laws.Occurs (scope_of d.crates keys) b
        → Holds d laws cache
        → Agrees (verified_receipt d clock b keys cache) (verified_receipt d clock b keys none)
    unfolding verified_receipt
    receipt-Agrees b cache occurs h =
        let key = artifact_cache_key d.crates.crypto d.crates.keys keys b in
        through-Agrees (receipt d.m clock key) (store_receipt d.m clock key)
          (fresh_receipt d b keys) cache
          (λ r c valid found. cached_receipt_hit d laws clock keys b r c fits occurs valid found)
          (λ r c e valid.
            store_receipt-CacheValid d laws clock keys b r c fits occurs
              (fresh_receipt_sound d b keys r e) valid)
          h

    sent-Agrees :
        (sent : Option (List ℕ)) (cache : Cache d)
        → ((b : List ℕ) → sent ≡ some b → laws.Occurs (scope_of d.crates keys) b)
        → Holds d laws cache
        → Agrees (receipt_if_sent d clock sent keys cache) (receipt_if_sent d clock sent keys none)
    sent-Agrees none cache occurs h = answer-Agrees (ok none) cache h
    sent-Agrees (some b) cache occurs h =
        and_then-Agrees _ _ _ (receipt-Agrees b cache (occurs b refl) h)
          (λ r c e h'. answer-Agrees (ok (some r)) c h')

  module _ (clock : ℤ) (q : CallerRequest Key) (fits : Fits d.crates q.keys) (seen : Seen q)
      (content : Result PopErrorKind (List ℕ)) where
    authenticate-Agrees :
        (token_bytes : List ℕ) (cache : Cache d)
        → q.headers.status_token ≡ some token_bytes
        → Holds d laws cache
        → Agrees
            (authenticate d clock q content token_bytes cache)
            (authenticate d clock q content token_bytes none)
    unfolding authenticate
    authenticate-Agrees b cache sent h =
        let now = or_else q.opts.now clock in
        and_then-Agrees _ _ _ (proof-Agrees clock q.keys fits q now cache seen h) (λ proof c e h.
          and_then-Agrees _ _ _
            (status-Agrees clock q.keys fits b (status_skew_of d q.opts) now c (seen.token b sent)
              h)
            (λ payload c e h.
              and_then-Agrees _ _ _
                (sent-Agrees clock q.keys fits q.headers.receipt c seen.receipt h)
                (λ r c e h. answer-Agrees _ c h)))

    -- The cache of verified artifacts changes no answer to a caller: if it holds only what was
    -- verified under well-formed keys, under the documented laws of the crates, with no collisions
    -- of SHA-256 among the cache keys of the artifacts and certificates that occur, those of the
    -- request included, then `verify_caller_with_content` gives the same identity or error and
    -- leaves the same replay cache with the cache as with none, and leaves a cache that holds only
    -- what was verified.
    pub verify_caller_refines :
        (end : ℤ) (cache : Cache d) (replay : Inner)
        → Holds d laws cache
        → ((verify_caller_with_content d clock end q content (cache, replay)).0
            ≡ (verify_caller_with_content d clock end q content (none, replay)).0)
          × (((verify_caller_with_content d clock end q content (cache, replay)).1.1
                ≡ (verify_caller_with_content d clock end q content (none, replay)).1.1)
              × Holds d laws (verify_caller_with_content d clock end q content (cache, replay)).1.0)
    unfolding verify_caller_with_content
    verify_caller_refines end cache replay h = by_preflight (preflight d q) refl
      where
        run :
            Result PopErrorKind (List ℕ)
            → Cache d
            → Result PopErrorKind CallerIdentity × (Cache d × Inner)
        run checked cache = after_preflight d clock end q content checked (cache, replay)

        by_preflight :
            (checked : Result PopErrorKind (List ℕ))
            → preflight d q ≡ checked
            → ((run checked cache).0 ≡ (run checked none).0)
              × (((run checked cache).1.1 ≡ (run checked none).1.1)
                  × Holds d laws (run checked cache).1.0)
        by_preflight (err e) at = (refl, (refl, h))
        by_preflight (ok b) at =
            let sent = (preflight_sound d q b at).sent in
            let agrees = authenticate-Agrees b cache sent h in
            (
              ap (λ r. (commit_caller d end r replay).0) agrees.outcome,
              (ap (λ r. (commit_caller d end r replay).1) agrees.outcome, agrees.holds),
            )

    -- Without a cache there is none afterwards.
    pub verify_caller_bare :
        (end : ℤ) (replay : Inner)
        → (verify_caller_with_content d clock end q content (none, replay)).1.0 ≡ none
    unfolding verify_caller_with_content
    verify_caller_bare end replay = by_preflight (preflight d q) refl
      where
        by_preflight :
            (checked : Result PopErrorKind (List ℕ))
            → preflight d q ≡ checked
            → (after_preflight d clock end q content checked (none, replay)).1.0 ≡ none
        by_preflight (err e) at = refl
        by_preflight (ok b) at =
            (authenticate-Agrees b none (preflight_sound d q b at).sent tt).bare
