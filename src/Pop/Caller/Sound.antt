-- ===== src/Pop/Caller/Sound.antt =====
-- That an authenticated caller has shown what it must.
use ans_sdk_rust.Prelude.{ℕ, ◌≡◌, refl, sym, ap, ◌∙◌, List, none}
use mathlib.Core.Path.{subst}
use ans_sdk_rust.Prelude.Int.{ℤ}
use ans_sdk_rust.Error.{Result, ok, err}
use ans_sdk_rust.Results.{bind-ok}
use ans_sdk_rust.Scitt.Reuse.{Fits}
use ans_sdk_rust.Pop.Errors.{PopErrorKind}
use ans_sdk_rust.Pop.Replay.{Inner}
use ans_sdk_rust.Pop.Claims.{ProofResult, check_content_binding, commit_replay}
use ans_sdk_rust.Pop.Proof.{or_else}
use ans_sdk_rust.Pop.Proof.Sound.{binds_content}
use ans_sdk_rust.Pop.Peers.{CallerIdentity}
use ans_sdk_rust.Pop.Caller.{
  CallerSetup, CallerRequest, Cache, preflight, verify_proof_with, verified_status_payload,
  receipt_if_sent, status_skew_of, bind_caller, authenticate, commit_caller, after_preflight,
  verify_caller_with_content,
}
use ans_sdk_rust.Pop.Caller.Preflight.{
  Preflighted, preflight_sound, BoundCaller, identity_of, bind_caller_sound,
}
use ans_sdk_rust.Pop.Caller.Entries.{CallerLaws, Holds, fresh_status_sound}
use ans_sdk_rust.Pop.Caller.Refines.{Seen, verify_caller_refines}
use ans_sdk_rust.Pop.Caller.Shown.{
  CallerShown, and_then-ok, proof_bare, proof_sound, receipt_sound, receipt_bare, committed,
}

module _ {Key PKey : Type 0} (d : CallerSetup Key PKey) where
  module _ (clock end : ℤ) (q : CallerRequest Key) (content : Result PopErrorKind (List ℕ)) where
    -- Without a cache.
    bare_sound :
        (b : List ℕ) (replay : Inner) (identity : CallerIdentity)
        → Preflighted d q b
        → (after_preflight d clock end q content (ok b) (none, replay)).0 ≡ ok identity
        → CallerShown d clock end q content replay identity
            (after_preflight d clock end q content (ok b) (none, replay)).1.1
    unfolding authenticate verified_status_payload
    bare_sound b replay identity pre h = by_checked (authenticate d clock q content b none).0 refl h
      where
        by_checked :
            (checked : Result PopErrorKind (ProofResult × CallerIdentity))
            → (authenticate d clock q content b none).0 ≡ checked
            → (commit_caller d end checked replay).0 ≡ ok identity
            → CallerShown d clock end q content replay identity
                (commit_caller d end checked replay).1
        by_checked (err e) at h = absurd (cc h)
        by_checked (ok (proof, bound)) at h =
            let (same, recorded) = committed d clock q end proof bound identity replay h in
            let (proof', (e1, h1)) =
              and_then-ok d (verify_proof_with d clock q (or_else q.opts.now clock) none) _
                (proof, bound) (proof_bare d clock q) at in
            let (payload, (e2, h2)) =
              and_then-ok d
                (verified_status_payload d clock b q.keys (status_skew_of d q.opts)
                  (or_else q.opts.now clock) none)
                _ (proof, bound) refl h1 in
            let (r, (e3, h3)) =
              and_then-ok d (receipt_if_sent d clock q.headers.receipt q.keys none) _ (proof, bound)
                (receipt_bare d clock q q.headers.receipt) h2 in
            let (id, (e4, h4)) = bind-ok (bind_caller d proof' payload r q.opts) _ _ h3 in
            let (digest, (e5, h5)) = bind-ok content _ _ h4 in
            let (_, (e6, h6)) = bind-ok (check_content_binding proof' digest) _ _ h5 in
            let is_proof : proof' ≡ proof = cc h6 in
            let is_id : id ≡ bound = cc h6 in
            let (read, (reads, (shows, is))) = proof_sound d clock q proof' e1 in
            let (status, late) =
              fresh_status_sound d b q.keys (status_skew_of d q.opts) (or_else q.opts.now clock)
                payload e2 in
            let (binds, names) = bind_caller_sound d proof' payload r q.opts id e4 in
            let content_is = binds_content proof' digest _ e6 in
            record {
              authority = pre.authority;
              read = read;
              reads = reads;
              shows = shows;
              token_bytes = b;
              sent = pre.sent;
              payload = payload;
              status = status;
              timely = late;
              receipt = r;
              receipt_sent = receipt_sound d clock q q.headers.receipt r e3 pre.receipt;
              bound =
                  subst
                    (λ p. BoundCaller d p.fingerprint p.ans_name payload r q.opts.allowed_ans_names)
                    is binds;
              digest = e5 ∙ ap ok (sym content_is ∙ ap (λ p. p.content_sha256) is);
              is =
                  sym (is_id ∙ same)
                  ∙ (names ∙ ap (λ p. identity_of d p.fingerprint p.jkt payload) is);
              recorded =
                  ap (λ p. commit_replay d.crates.crypto d.proofs.b64url_encode end p replay)
                    (sym is ∙ is_proof)
                  ∙ recorded;
            }

  module _ (laws : CallerLaws d) where
    -- A caller is authenticated only by three proofs that fit together, with a cache of verified
    -- artifacts or with none. Under the documented laws of the crates, with no collisions of SHA-256
    -- among the cache keys of the artifacts and certificates that occur, those of the request included,
    -- with well-formed keys and a cache that holds only what was verified, if
    -- `verify_caller_with_content` gives an identity, then: the URL's authority is a trusted one,
    -- where these are listed; the text of the proof of possession was read, its certificate is valid
    -- and its key signed it, it is fresh and it is for the method, the URL and the access token; a
    -- trusted key signed the status token, whose status is not terminal and which is not expired
    -- beyond the tolerance; the token lists the proof's certificate as an identity certificate, and its
    -- host is that of the certificate's ANS name and an allowed one, where these are listed; the
    -- receipt verifies and is bound to the token, and only where none is required there may be none;
    -- the content has the digest that the proof names; the identity is that of the token and the
    -- certificate; and the proof was recorded in the replay cache, at the time of the
    -- commit.
    pub verify_caller_sound :
        (clock end : ℤ) (q : CallerRequest Key) (content : Result PopErrorKind (List ℕ))
        (cache : Cache d) (replay : Inner) (identity : CallerIdentity)
        → Fits d.crates q.keys
        → Seen d laws q
        → Holds d laws cache
        → (verify_caller_with_content d clock end q content (cache, replay)).0 ≡ ok identity
        → CallerShown d clock end q content replay identity
            (verify_caller_with_content d clock end q content (cache, replay)).1.1
    unfolding verify_caller_with_content
    verify_caller_sound clock end q content cache replay identity fits seen holds h =
        let (same, (state, _)) =
          verify_caller_refines d laws clock q fits seen content end cache replay holds in
        subst (λ after. CallerShown d clock end q content replay identity after) (sym state)
          (by_preflight (preflight d q) refl (sym same ∙ h))
      where
        by_preflight :
            (checked : Result PopErrorKind (List ℕ))
            → preflight d q ≡ checked
            → (after_preflight d clock end q content checked (none, replay)).0 ≡ ok identity
            → CallerShown d clock end q content replay identity
                (after_preflight d clock end q content checked (none, replay)).1.1
        by_preflight (err e) at h = absurd (cc h)
        by_preflight (ok b) at h =
            bare_sound clock end q content b replay identity (preflight_sound d q b at) h
