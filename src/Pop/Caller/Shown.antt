-- ===== src/Pop/Caller/Shown.antt =====
-- What an authenticated caller has shown, and what its parts show.
use ans_sdk_rust.Prelude.{
  ℕ, ◌≡◌, refl, ap, ◌∙◌, Bool, false, not, ◌&&◌, List, Option, none, some, ltb, arith,
}
use ans_sdk_rust.Prelude.Int.{ℤ, ltb_ℤ}
use ans_sdk_rust.Text.{byte_len}
use ans_sdk_rust.Error.{Result, ok, err, ◌>>=◌}
use ans_sdk_rust.Results.{bind-ok, fail_if}
use ans_sdk_rust.Scitt.Keys.{ScittKeyStore}
use ans_sdk_rust.Scitt.Receipt.{VerifiedReceipt, ReceiptFits}
use ans_sdk_rust.Scitt.Status.{expires}
use ans_sdk_rust.Scitt.Token.{StatusTokenPayload}
use ans_sdk_rust.Pop.Errors.{PopErrorKind, malformed_proof}
use ans_sdk_rust.Pop.Replay.{Inner}
use ans_sdk_rust.Pop.Claims.{ProofResult, LeafCert, skew_of, result_of, commit_replay}
use ans_sdk_rust.Pop.Jws.{first_x5c, parse_leaf_cert}
use ans_sdk_rust.Pop.Htu.{is_some}
use ans_sdk_rust.Pop.Proof.{
  ProofText, ReadProof, max_proof_size, or_else, read_text, with_leaf, read_proof,
}
use ans_sdk_rust.Pop.Proof.Sound.{Shows, check_read-Shows}
use ans_sdk_rust.Pop.Artifacts.{WithCache, and_then}
use ans_sdk_rust.Pop.Peers.{CallerIdentity}
use ans_sdk_rust.Pop.Caller.{
  CallerSetup, CallerRequest, Cache, cached_leaf, sized_text, verify_proof_with, verified_receipt,
  receipt_if_sent, status_skew_of, commit_caller,
}
use ans_sdk_rust.Pop.Caller.Preflight.{HasAuthority, BoundCaller, identity_of}
use ans_sdk_rust.Pop.Caller.Entries.{StatusFits, fresh_receipt_sound}

module _ {Key PKey : Type 0} (d : CallerSetup Key PKey) where
  pub and_then-ok :
      {A B : Type 0} (s : WithCache d.m A) (f : A → Cache d → WithCache d.m B) (b : B)
      → s.1 ≡ none
      → (and_then d.m s f).0 ≡ ok b
      → (a : A) × ((s.0 ≡ ok a) × ((f a none).0 ≡ ok b))
  and_then-ok (ok a, cache) f b bare h = (a, (refl, rw bare at h))
  and_then-ok (err e, cache) f b bare h = absurd (cc h)

  and_then_bare :
      {A B : Type 0} (s : WithCache d.m A) (f : A → Cache d → WithCache d.m B)
      → s.1 ≡ none
      → ((a : A) → (f a none).1 ≡ none)
      → (and_then d.m s f).1 ≡ none
  and_then_bare (ok a, cache) f bare h = rw bare (h a)
  and_then_bare (err e, cache) f bare h = bare

  -- A receipt is there where it was sent, or else must not be required.
  abbrev ReceiptSent : ScittKeyStore Key → Option (List ℕ) → Option VerifiedReceipt → Bool → Type 0
  ReceiptSent keys none none required = required ≡ false
  ReceiptSent keys none (some r) required = ⊥
  ReceiptSent keys (some b) none required = ⊥
  ReceiptSent keys (some b) (some r) required = ReceiptFits d.crates b keys r

  -- What the request of an accepted caller is, and what it leaves in the replay cache.
  pub record CallerShown (clock end : ℤ) (q : CallerRequest Key)
      (content : Result PopErrorKind (List ℕ)) (replay : Inner) (identity : CallerIdentity)
      (after : Inner) : Type 0 where
    pub authority : HasAuthority d q.raw_url q.opts.trusted_authorities
    pub read : ReadProof PKey
    pub reads : read_proof d.crates.crypto d.proofs q.proof_jws ≡ ok read
    pub shows :
        Shows d.crates.crypto d.proofs read q.method q.raw_url q.opts.access_token
          (skew_of q.opts.pop_skew)
          (or_else q.opts.now clock)
    pub token_bytes : List ℕ
    pub sent : q.headers.status_token ≡ some token_bytes
    pub payload : StatusTokenPayload
    pub status : StatusFits d token_bytes q.keys payload
    pub timely :
        ltb_ℤ (expires payload.exp (status_skew_of d q.opts)) (or_else q.opts.now clock) ≡ false
    pub receipt : Option VerifiedReceipt
    pub receipt_sent : ReceiptSent q.keys q.headers.receipt receipt q.opts.require_receipt
    pub bound :
        BoundCaller d read.leaf.fingerprint read.leaf.ans_name payload receipt
          q.opts.allowed_ans_names
    pub digest : content ≡ ok read.content_sha256
    pub is : identity ≡ identity_of d read.leaf.fingerprint read.leaf.jkt payload
    pub recorded :
        commit_replay d.crates.crypto d.proofs.b64url_encode end
          (result_of read.leaf read.payload (skew_of q.opts.pop_skew) read.content_sha256)
          replay
        ≡ (ok tt, after)

  module _ (clock : ℤ) (q : CallerRequest Key) where
    abbrev pub now : ℤ
    now = or_else q.opts.now clock

    pub proof_bare : (verify_proof_with d clock q now none).1 ≡ none
    unfolding verify_proof_with
    proof_bare =
        and_then_bare (sized_text d q.proof_jws, none) _ refl
          (λ text.
            and_then_bare (cached_leaf d clock (first_x5c text.header) none) _ refl (λ leaf. refl))

    reads_with :
        (text : ProofText) (leaf : LeafCert PKey)
        → read_text d.crates.crypto d.proofs q.proof_jws ≡ ok text
        → parse_leaf_cert d.crates.crypto d.proofs (first_x5c text.header) ≡ ok leaf
        → read_proof d.crates.crypto d.proofs q.proof_jws
          ≡ ok (with_leaf d.crates.crypto d.proofs text leaf)
    unfolding read_proof
    reads_with text leaf reads parses =
        ap
          (λ r. do
            text ← r
            leaf ← parse_leaf_cert d.crates.crypto d.proofs (first_x5c text.header)
            ok (with_leaf d.crates.crypto d.proofs text leaf))
          reads
        ∙ ap (λ r. do leaf ← r; ok (with_leaf d.crates.crypto d.proofs text leaf)) parses

    pub proof_sound :
        (proof : ProofResult)
        → (verify_proof_with d clock q now none).0 ≡ ok proof
        → (read : ReadProof PKey) × ((read_proof d.crates.crypto d.proofs q.proof_jws ≡ ok read)
            × (Shows d.crates.crypto d.proofs read q.method q.raw_url q.opts.access_token
                  (skew_of q.opts.pop_skew)
                  now
                × (proof
                    ≡ result_of read.leaf read.payload
                        (skew_of q.opts.pop_skew)
                        read.content_sha256)))
    unfolding verify_proof_with
    proof_sound proof h =
        let (text, (e1, h1)) = and_then-ok (sized_text d q.proof_jws, none) _ proof refl h in
        let (leaf, (e2, h2)) =
          and_then-ok (cached_leaf d clock (first_x5c text.header) none) _ proof refl h1 in
        let (_, (_, reads)) =
          bind-ok (fail_if (ltb max_proof_size (byte_len q.proof_jws)) malformed_proof) _ _ e1 in
        let read = with_leaf d.crates.crypto d.proofs text leaf in
        let (shows, is) =
          check_read-Shows d.crates.crypto d.proofs read q.method q.raw_url q.opts.access_token _
            now proof h2 in
        (read, (reads_with text leaf reads e2, (shows, is)))

    pub receipt_sound :
        (sent : Option (List ℕ)) (r : Option VerifiedReceipt)
        → (receipt_if_sent d clock sent q.keys none).0 ≡ ok r
        → (q.opts.require_receipt && not (is_some sent)) ≡ false
        → ReceiptSent q.keys sent r q.opts.require_receipt
    unfolding verified_receipt
    receipt_sound none none h required = ground (arith, required)
    receipt_sound none (some r) h required = absurd (cc h)
    receipt_sound (some b) r h required =
        let (found, (e, h')) = and_then-ok (verified_receipt d clock b q.keys none) _ r refl h in
        let is : some found ≡ r = cc h' in rw (← is) (fresh_receipt_sound d b q.keys found e)

    pub receipt_bare :
        (sent : Option (List ℕ)) → (receipt_if_sent d clock sent q.keys none).1 ≡ none
    unfolding verified_receipt
    receipt_bare none = refl
    receipt_bare (some b) =
        and_then_bare (verified_receipt d clock b q.keys none) _ refl (λ r. refl)

    pub committed :
        (end : ℤ) (proof : ProofResult) (bound identity : CallerIdentity) (replay : Inner)
        → (commit_caller d end (ok (proof, bound)) replay).0 ≡ ok identity
        → (bound ≡ identity)
          × (commit_replay d.crates.crypto d.proofs.b64url_encode end proof replay
              ≡ (ok tt, (commit_caller d end (ok (proof, bound)) replay).1))
    committed end proof bound identity replay h =
        let r = commit_replay d.crates.crypto d.proofs.b64url_encode end proof replay in
        let (u, (e, h')) = bind-ok r.0 _ _ h in (cc h', ap (λ x. (x, r.1)) e)
