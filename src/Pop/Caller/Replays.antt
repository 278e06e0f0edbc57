-- ===== src/Pop/Caller/Replays.antt =====
-- That a proof of possession authenticates a caller once, over any requests.
use ans_sdk_rust.Prelude.{ℕ, ◌≡◌, ◌≢◌, refl, sym, ap, ◌∙◌, true, List, [], ◌∷◌, ◌++◌, All}
use ans_sdk_rust.Prelude.Int.{ℤ, leb_ℤ}
use ans_sdk_rust.Error.{Result, ok, err}
use ans_sdk_rust.Pop.Errors.{PopErrorKind}
use ans_sdk_rust.Pop.Replay.{Inner}
use ans_sdk_rust.Pop.Replay.SingleUse.{Call, check_call, time_of, run_call, run_calls}
use ans_sdk_rust.Pop.Claims.{ProofResult, replay_key, commit_replay}
use ans_sdk_rust.Pop.Peers.{CallerIdentity}
use ans_sdk_rust.Pop.Caller.{
  CallerSetup, Cache, preflight, authenticate, commit_caller, after_preflight,
  verify_caller_with_content,
}
use ans_sdk_rust.Pop.Caller.Entries.{CallerLaws, Holds}
use ans_sdk_rust.Pop.Caller.Refines.{verify_caller_refines}
use ans_sdk_rust.Pop.Caller.Once.{SameProof, verify_caller_once}
use ans_sdk_rust.Pop.Caller.Runs.{Served, run_requests, Regular, run-Holds}

-- What a run of requests does to the replay cache is what some calls of it do, before a time.
pub record Calls (later : ℤ) (before after : Inner) : Type 0 where
  pub calls : List Call
  pub times : All (λ call. leb_ℤ (time_of call) later ≡ true) calls
  pub same : after ≡ run_calls calls before

run_calls-append :
    (xs ys : List Call) (s : Inner) → run_calls (xs ++ ys) s ≡ run_calls ys (run_calls xs s)
unfolding run_calls
run_calls-append [] ys s = refl
run_calls-append (x ∷ xs) ys s = run_calls-append xs ys (run_call x s)

times-append :
    (later : ℤ) (xs ys : List Call)
    → All (λ call. leb_ℤ (time_of call) later ≡ true) xs
    → All (λ call. leb_ℤ (time_of call) later ≡ true) ys
    → All (λ call. leb_ℤ (time_of call) later ≡ true) (xs ++ ys)
times-append later [] ys a b = b
times-append later (x ∷ xs) ys (h, a) b = (h, times-append later xs ys a b)

Calls-trans : (later : ℤ) (a b c : Inner) → Calls later a b → Calls later b c → Calls later a c
Calls-trans later a b c f g = record {
  calls = f.calls ++ g.calls;
  times = times-append later f.calls g.calls f.times g.times;
  same = g.same ∙ (ap (run_calls g.calls) f.same ∙ sym (run_calls-append f.calls g.calls a));
}

none-Calls : (later : ℤ) (s : Inner) → Calls later s s
unfolding run_calls
none-Calls later s = record { calls = []; times = tt; same = refl }

module _ {Key PKey : Type 0} (d : CallerSetup Key PKey) where
  commit-Calls :
      (end later : ℤ) (checked : Result PopErrorKind (ProofResult × CallerIdentity))
      (replay : Inner)
      → leb_ℤ end later ≡ true
      → Calls later replay (commit_caller d end checked replay).1
  unfolding commit_replay run_calls run_call
  commit-Calls end later (err e) replay h = none-Calls later replay
  commit-Calls end later (ok (proof, identity)) replay h = record {
    calls =
        check_call end (replay_key d.crates.crypto d.proofs.b64url_encode proof.jti)
          proof.replay_exp
        ∷ [];
    times = (h, tt);
    same = refl;
  }

  one-Calls :
      (r : Served Key) (later : ℤ) (cache : Cache d) (replay : Inner)
      → leb_ℤ r.end later ≡ true
      → Calls later replay
          (verify_caller_with_content d r.clock r.end r.request r.content (cache, replay)).1.1
  unfolding verify_caller_with_content
  one-Calls r later cache replay h = by_preflight (preflight d r.request)
    where
      by_preflight :
          (checked : Result PopErrorKind (List ℕ))
          → Calls later replay
              (after_preflight d r.clock r.end r.request r.content checked (cache, replay)).1.1
      by_preflight (err e) = none-Calls later replay
      by_preflight (ok b) =
          commit-Calls r.end later (authenticate d r.clock r.request r.content b cache).0 replay h

  run-Calls :
      (rs : List (Served Key)) (later : ℤ) (cache : Cache d) (replay : Inner)
      → All (λ r. leb_ℤ r.end later ≡ true) rs
      → Calls later replay (run_requests d rs (cache, replay)).1.1
  unfolding run_requests
  run-Calls [] later cache replay h = none-Calls later replay
  run-Calls (r ∷ rs) later cache replay (h, hs) =
      let s = (verify_caller_with_content d r.clock r.end r.request r.content (cache, replay)).1 in
      Calls-trans later replay s.1 (run_requests d rs s).1.1 (one-Calls r later cache replay h)
        (run-Calls rs later s.0 s.1 hs)

  module _ (laws : CallerLaws d) where
    -- A proof of possession authenticates a caller once: after `verify_caller_with_content` answered
    -- a request with an identity, and after any further requests `rs`, a last request with the same
    -- proof and the same window is refused, whatever its method, URL, artifacts, keys, content and
    -- time of the checks are, if none of `rs` was recorded later than the last request is: also if
    -- the wait for its content outlasts the retention of the proof. Every request comes with
    -- well-formed keys and with artifacts among those that occur, whose cache keys have no collisions
    -- of SHA-256, under the documented laws of the crates; the first cache of artifacts holds only
    -- what was verified.
    pub run_requests_once :
        (r r' : Served Key) (rs : List (Served Key)) (cache : Cache d) (replay : Inner)
        (identity identity' : CallerIdentity)
        → Holds d laws cache
        → Regular d laws r
        → Regular d laws r'
        → All (Regular d laws) rs
        → SameProof r.request r'.request
        → All (λ x. leb_ℤ x.end r'.end ≡ true) rs
        → (verify_caller_with_content d r.clock r.end r.request r.content (cache, replay)).0
          ≡ ok identity
        → (verify_caller_with_content d r'.clock r'.end r'.request r'.content
            (run_requests d rs
              (verify_caller_with_content d r.clock r.end r.request r.content
                (cache, replay)).1).1).0
          ≢ ok identity'
    run_requests_once r r' rs cache replay identity identity' h (fits, seen) (fits', seen') fine
          same_proof times first =
        let (_, (_, kept)) =
          verify_caller_refines d laws r.clock r.request fits seen r.content r.end cache replay h in
        let s =
          (verify_caller_with_content d r.clock r.end r.request r.content (cache, replay)).1 in
        let end = (run_requests d rs s).1 in
        let (_, (_, valid)) = run-Holds d laws rs s.0 s.1 fine kept in
        let between = run-Calls rs r'.end s.0 s.1 times in
        λ second.
          verify_caller_once d r.clock r.end r'.clock r'.end r.request r'.request r.content
            r'.content replay identity identity' between.calls laws cache end.0 fits fits' seen
            seen' h valid same_proof between.times first
            (ap
                (λ x.
                  (verify_caller_with_content d r'.clock r'.end r'.request r'.content (end.0, x)).0)
                (sym between.same)
              ∙ second)
