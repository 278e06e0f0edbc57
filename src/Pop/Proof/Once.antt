-- ===== src/Pop/Proof/Once.antt =====
-- That a proof of possession is accepted once.
use ans_sdk_rust.Prelude.{◌^◌, ◌<◌, ◌≡◌, ◌≢◌, sym, ap, ◌∙◌, true, List, none, All}
use ans_sdk_rust.Prelude.Int.{ℤ, leb_ℤ}
use ans_sdk_rust.Text.{Text}
use ans_sdk_rust.Error.{ok}
use ans_sdk_rust.Types.Fingerprint.{Crypto}
use ans_sdk_rust.Pop.Replay.{Inner}
use ans_sdk_rust.Pop.Replay.SingleUse.{Call, time_of, run_calls}
use ans_sdk_rust.Pop.Claims.{ProofResult, skew_of, result_of, check_freshness, commit_replay}
use ans_sdk_rust.Pop.Claims.Once.{IsSmall, accepted_once}
use ans_sdk_rust.Pop.Jws.{ProofCrates}
use ans_sdk_rust.Pop.Proof.{VerifyProofOptions, ReadProof, or_else, read_proof, verify_proof}
use ans_sdk_rust.Pop.Proof.Sound.{verify_proof_sound, verify_proof_state}

-- A proof that was accepted is never accepted again, for whatever request: after any calls of the
-- replay cache at times that are not later than `later`, verifying it at `later` with the same
-- window fails. The times are between -2^62 and 2^62 seconds, the window is below 2^61.
pub proof_once :
    {Key : Type 0} (c : Crypto) (crates : ProofCrates Key) (proof_jws : Text) (clock : ℤ)
    (method raw_url : Text) (opts : VerifyProofOptions) (s : Inner) (result : ProofResult)
    (later : ℤ) (method' raw_url' : Text) (opts' : VerifyProofOptions) (calls : List Call)
    (result' : ProofResult)
    → (verify_proof c crates clock proof_jws method raw_url opts s).0 ≡ ok result
    → IsSmall later
    → ((read : ReadProof Key) → read_proof c crates proof_jws ≡ ok read → IsSmall read.payload.iat)
    → skew_of opts.skew < 2 ^ 61
    → opts'.skew ≡ opts.skew
    → opts'.now ≡ none
    → All (λ call. leb_ℤ (time_of call) later ≡ true) calls
    → (verify_proof c crates later proof_jws method' raw_url' opts'
        (run_calls calls (verify_proof c crates clock proof_jws method raw_url opts s).1)).0
      ≢ ok result'
proof_once c crates proof_jws clock method raw_url opts s result later method' raw_url' opts' calls
      result' first small iat window same_skew at_clock between again =
    let (read, (reads, (_, (is, (_, committed))))) =
      verify_proof_sound c crates clock proof_jws method raw_url opts s result first in
    let (read', (reads', (shows', (is', (_, committed'))))) =
      verify_proof_sound c crates later proof_jws method' raw_url' opts' _ result' again in
    let same_read : read' ≡ read = cc (reads, reads') in
    let skew = skew_of opts.skew in
    let b64 = crates.b64url_encode in
    let kept = result_of read.leaf read.payload skew read.content_sha256 in
    let same_result : result' ≡ kept =
      is'
      ∙ (ap (λ o. result_of read'.leaf read'.payload (skew_of o) read'.content_sha256) same_skew
          ∙ ap (λ r. result_of r.leaf r.payload skew r.content_sha256) same_read) in
    let fresh : check_freshness read.payload later skew ≡ ok tt =
      sym (ap (λ r. check_freshness r.payload later skew) same_read)
      ∙ (sym (ap (λ o. check_freshness read'.payload later (skew_of o)) same_skew)
          ∙ (sym (
                ap (λ o. check_freshness read'.payload (or_else o later) (skew_of opts'.skew))
                  at_clock)
              ∙ shows'.fresh)) in
    let recorded : (commit_replay c b64 clock kept s).0 ≡ ok tt =
      sym (ap (λ r. (commit_replay c b64 clock r s).0) is) ∙ committed in
    let state : (verify_proof c crates clock proof_jws method raw_url opts s).1
        ≡ (commit_replay c b64 clock kept s).1 =
      verify_proof_state c crates clock proof_jws method raw_url opts s result first
      ∙ ap (λ r. (commit_replay c b64 clock r s).1) is in
    let refused =
      accepted_once c b64 read.leaf read.payload skew read.content_sha256 clock later calls s small
        (iat read reads) window recorded between fresh in
    let accepted : (commit_replay c b64 later kept
          (run_calls calls (commit_replay c b64 clock kept s).1)).0
        ≡ ok tt =
      sym (ap (λ x. (commit_replay c b64 later kept (run_calls calls x)).0) state)
      ∙ (sym (
            ap
              (λ r.
                (commit_replay c b64 later r (
                  run_calls calls
                    (verify_proof c crates clock proof_jws method raw_url opts s).1)).0)
              same_result)
          ∙ committed') in
    cc (refused, accepted)
