-- ===== src/Pop/Claims/Once.antt =====
-- That a proof is accepted once.
use ans_sdk_rust.Prelude.{
  ℕ, ◌^◌, ◌<◌, ◌≡◌, refl, ap, ◌∙◌, Bool, true, false, inl, inr, Bool-cases, if◌then◌else◌, List, [],
  ◌∷◌, All, ltb, arith, text_eq,
}
use ans_sdk_rust.Prelude.Int.{
  max_i64, min_i64, saturate, ℤ, pos, negsuc, ◌+ℤ◌, ◌-ℤ◌, ltb_ℤ, leb_ℤ, +ℤ_parts, -ℤ_parts,
}
use ans_sdk_rust.Text.{Text}
use ans_sdk_rust.Error.{Result, ok, err}
use ans_sdk_rust.Types.Fingerprint.{Crypto}
use ans_sdk_rust.Pop.Errors.{PopErrorKind, proof_stale, replay}
use ans_sdk_rust.Pop.Replay.{Inner, check_and_store}
use ans_sdk_rust.Pop.Replay.SingleUse.{Call, time_of, run_calls, check_and_store-late, single_use}
use ans_sdk_rust.Pop.Claims.{
  ProofPayload, ProofResult, skew_secs, replay_exp_of, check_freshness, of_seen, result_of,
  LeafCert, replay_key, commit_replay,
}

-- Between -2^62 and 2^62.
abbrev pub IsSmall : ℤ → Type 0
IsSmall a = (ltb_ℤ a (pos (2 ^ 62)) ≡ true) × (ltb_ℤ (negsuc (2 ^ 62)) a ≡ true)

saturate_small : (a : ℤ) → ltb_ℤ max_i64 a ≡ false → ltb_ℤ a min_i64 ≡ false → saturate a ≡ a
saturate_small a h k = rw (h, k) refl

skew_secs_small : (skew : ℕ) → skew < 2 ^ 61 → skew_secs skew ≡ pos skew
skew_secs_small skew h = let e : ltb skew (2 ^ 63) ≡ true = ground (arith, h) in rw e refl

difference_small : (a b : ℤ) → IsSmall a → IsSmall b → saturate (a -ℤ b) ≡ a -ℤ b
difference_small a b (h, h') (k, k') =
    saturate_small (a -ℤ b) (ground (arith, h, h', k, k', -ℤ_parts a b))
      (ground (arith, h, h', k, k', -ℤ_parts a b))

sum_small :
    (a : ℤ) (n : ℕ)
    → IsSmall a
    → n < 2 ^ 61
    → saturate (saturate (a +ℤ pos n) +ℤ pos 5) ≡ (a +ℤ pos n) +ℤ pos 5
sum_small a n (h, h') k =
    let first = +ℤ_parts a (pos n) in
    let second = +ℤ_parts (a +ℤ pos n) (pos 5) in
    ap (λ b. saturate (b +ℤ pos 5))
      (saturate_small (a +ℤ pos n) (ground (arith, h, h', k, first))
        (ground (arith, h, h', k, first)))
    ∙ saturate_small ((a +ℤ pos n) +ℤ pos 5) (ground (arith, h, h', k, first, second))
        (ground (arith, h, h', k, first, second))

-- A proof that is fresh is so before its identifier's retention ends.
fresh-before :
    (payload : ProofPayload) (now : ℤ) (skew : ℕ)
    → IsSmall now
    → IsSmall payload.iat
    → skew < 2 ^ 61
    → check_freshness payload now skew ≡ ok tt
    → ltb_ℤ now (replay_exp_of payload skew) ≡ true
unfolding check_freshness replay_exp_of
fresh-before payload now skew a b d e =
    let secs = skew_secs_small skew d in
    let recent : ltb_ℤ (skew_secs skew) (saturate (now -ℤ payload.iat)) ≡ false =
      ground (arith, e) in
    let recent' : ltb_ℤ (pos skew) (now -ℤ payload.iat) ≡ false =
      rw (secs, difference_small now payload.iat a b) at recent in
    rw (secs, sum_small payload.iat skew b d)
      (ground (
        arith,
        recent',
        -ℤ_parts now payload.iat,
        +ℤ_parts payload.iat (pos skew),
        +ℤ_parts (payload.iat +ℤ pos skew) (pos 5),
      ))

of_seen-ok :
    (c : Crypto) (b64url_encode : List ℕ → Text) (seen : Result PopErrorKind Bool)
    → of_seen c b64url_encode seen ≡ ok tt
    → seen ≡ ok false
of_seen-ok c b64url_encode (err e) h = absurd (ground arith)
of_seen-ok c b64url_encode (ok true) h = absurd (ground arith)
of_seen-ok c b64url_encode (ok false) h = refl

calls_before :
    (later exp : ℤ) (calls : List Call)
    → ltb_ℤ later exp ≡ true
    → All (λ call. leb_ℤ (time_of call) later ≡ true) calls
    → All (λ call. ltb_ℤ (time_of call) exp ≡ true) calls
calls_before later exp [] h between = tt
calls_before later exp (call ∷ calls) h (b, between) =
    (ground (arith, h, b), calls_before later exp calls h between)

-- A proof that was recorded is never recorded again: after any calls of the cache at times that are
-- not later than `later`, recording it at `later` reports that its retention is over or a replay.
pub recorded_once :
    (c : Crypto) (b64url_encode : List ℕ → Text) (result : ProofResult) (now later : ℤ)
    (calls : List Call) (s : Inner)
    → (commit_replay c b64url_encode now result s).0 ≡ ok tt
    → All (λ call. leb_ℤ (time_of call) later ≡ true) calls
    → (commit_replay c b64url_encode later result
        (run_calls calls (commit_replay c b64url_encode now result s).1)).0
      ≡ (if leb_ℤ result.replay_exp later then err proof_stale else err replay)
unfolding commit_replay
recorded_once c b64url_encode result now later calls s done between =
    let key = replay_key c b64url_encode result.jti in
    let exp = result.replay_exp in
    let end = run_calls calls (check_and_store now key exp s).1 in
    elim (Bool-cases (leb_ℤ exp later)) [
      | inl late ↦
          rw late (ap (of_seen c b64url_encode) (check_and_store-late later exp key end late))
      | inr timely ↦
          let soon : ltb_ℤ later exp ≡ true = ground (arith, timely) in
          let seen =
            single_use s key now exp calls later exp (of_seen-ok c b64url_encode _ done)
              (calls_before later exp calls soon between) soon in
          rw timely (ap (of_seen c b64url_encode) (rw timely at seen))
    ]

-- A proof whose identifier was recorded is refused as a replay for as long as it is fresh: if its
-- recording succeeded once, then after any calls of the cache at times that are not later than
-- `later`, a proof with these claims that is still fresh at `later` is not recorded again. The times
-- are between -2^62 and 2^62 seconds, the window is below 2^61.
pub accepted_once :
    {Key : Type 0} (c : Crypto) (b64url_encode : List ℕ → Text) (leaf : LeafCert Key)
    (payload : ProofPayload) (skew : ℕ) (content : List ℕ) (now later : ℤ) (calls : List Call)
    (s : Inner)
    → IsSmall later
    → IsSmall payload.iat
    → skew < 2 ^ 61
    → (commit_replay c b64url_encode now (result_of leaf payload skew content) s).0 ≡ ok tt
    → All (λ call. leb_ℤ (time_of call) later ≡ true) calls
    → check_freshness payload later skew ≡ ok tt
    → (commit_replay c b64url_encode later (result_of leaf payload skew content) (
        run_calls calls
          (commit_replay c b64url_encode now (result_of leaf payload skew content) s).1)).0
      ≡ err replay
accepted_once c b64url_encode leaf payload skew content now later calls s a b d done between fresh =
    let soon = fresh-before payload later skew a b d fresh in
    let timely : leb_ℤ (replay_exp_of payload skew) later ≡ false = ground (arith, soon) in
    let refused =
      recorded_once c b64url_encode (result_of leaf payload skew content) now later calls s done
        between in
    rw timely at refused
