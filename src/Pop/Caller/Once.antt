-- ===== src/Pop/Caller/Once.antt =====
-- That a proof of possession authenticates a caller once.
use ans_sdk_rust.Prelude.{inl, inr, Bool-cases, ℕ, ◌≡◌, ◌≢◌, ap, ◌∙◌, true, List, All}
use ans_sdk_rust.Prelude.Int.{ℤ, leb_ℤ}
use ans_sdk_rust.Error.{Result, ok}
use ans_sdk_rust.Scitt.Reuse.{Fits}
use ans_sdk_rust.Pop.Errors.{PopErrorKind}
use ans_sdk_rust.Pop.Replay.{Inner}
use ans_sdk_rust.Pop.Replay.SingleUse.{Call, time_of, run_calls}
use ans_sdk_rust.Pop.Claims.{skew_of, result_of, commit_replay}
use ans_sdk_rust.Pop.Claims.Once.{recorded_once}
use ans_sdk_rust.Pop.Proof.{read_proof}
use ans_sdk_rust.Pop.Peers.{CallerIdentity}
use ans_sdk_rust.Pop.Caller.{CallerSetup, CallerRequest, Cache, verify_caller_with_content}
use ans_sdk_rust.Pop.Caller.Entries.{CallerLaws, Holds}
use ans_sdk_rust.Pop.Caller.Refines.{Seen}
use ans_sdk_rust.Pop.Caller.Shown.{CallerShown}
use ans_sdk_rust.Pop.Caller.Sound.{verify_caller_sound}

-- The other request has the same proof and the same window.
pub record SameProof {Key : Type 0} (q q' : CallerRequest Key) : Type 0 where
  pub proof : q'.proof_jws ≡ q.proof_jws
  pub window : q'.opts.pop_skew ≡ q.opts.pop_skew

module _ {Key PKey : Type 0} (d : CallerSetup Key PKey) (clock end clock' end' : ℤ)
    (q q' : CallerRequest Key) (content content' : Result PopErrorKind (List ℕ)) (replay : Inner)
    (identity identity' : CallerIdentity) (calls : List Call) where
  shown_once :
      (after after' : Inner)
      → CallerShown d clock end q content replay identity after
      → SameProof q q'
      → All (λ call. leb_ℤ (time_of call) end' ≡ true) calls
      → CallerShown d clock' end' q' content' (run_calls calls after) identity' after'
      → ⊥
  shown_once after after' first same_proof between second =
      let c = d.crates.crypto in
      let b64 = d.proofs.b64url_encode in
      let read = first.read in
      let skew = skew_of q.opts.pop_skew in
      let kept = result_of read.leaf read.payload skew read.content_sha256 in
      let reads : read_proof c d.proofs q.proof_jws ≡ ok second.read =
        rw same_proof.proof at second.reads in
      let same : second.read ≡ read = cc (first.reads, reads) in
      let refused =
        recorded_once c b64 kept end end' calls replay (ap (λ r. r.0) first.recorded) between in
      let again : (commit_replay c b64 end' kept
            (run_calls calls (commit_replay c b64 end kept replay).1)).0
          ≡ ok tt =
        ap (λ s. (commit_replay c b64 end' kept (run_calls calls s)).0)
          (ap (λ r. r.1) first.recorded)
        ∙ ap (λ r. r.0) (rw (same, same_proof.window) at second.recorded) in
      elim (Bool-cases (leb_ℤ kept.replay_exp end')) [
        | inl late ↦ cc (rw late at refused, again)
        | inr timely ↦ cc (rw timely at refused, again)
      ]

  -- A proof of possession authenticates a caller once: after `verify_caller_with_content` gave an
  -- identity, and after any calls of the replay cache at times that are not later than `end'`, a
  -- request that commits at `end'` with the same proof and the same window is refused, whatever its
  -- method, URL, artifacts, keys, content, cache and time of the checks are. The laws and conditions
  -- on keys, artifacts and caches are those of one authentication, for both.
  pub verify_caller_once :
      (laws : CallerLaws d) (cache cache' : Cache d)
      → Fits d.crates q.keys
      → Fits d.crates q'.keys
      → Seen d laws q
      → Seen d laws q'
      → Holds d laws cache
      → Holds d laws cache'
      → SameProof q q'
      → All (λ call. leb_ℤ (time_of call) end' ≡ true) calls
      → (verify_caller_with_content d clock end q content (cache, replay)).0 ≡ ok identity
      → (verify_caller_with_content d clock' end' q' content' (
        cache',
        run_calls calls (verify_caller_with_content d clock end q content (cache, replay)).1.1,
      )).0
        ≢ ok identity'
  verify_caller_once laws cache cache' fits fits' seen seen' holds holds' same_proof between first
        second =
      shown_once _ _
        (verify_caller_sound d laws clock end q content cache replay identity fits seen holds first)
        same_proof between
        (verify_caller_sound d laws clock' end' q' content' cache' _ identity' fits' seen' holds'
          second)
