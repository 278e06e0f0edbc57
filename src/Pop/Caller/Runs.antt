-- ===== src/Pop/Caller/Runs.antt =====
-- That over any requests the cache of verified artifacts changes no answer.
use ans_sdk_rust.Prelude.{ℕ, ◌≡◌, refl, ap, ◌∙◌, List, [], ◌∷◌, All, none, some}
use ans_sdk_rust.Prelude.Int.{ℤ}
use ans_sdk_rust.Error.{Result}
use ans_sdk_rust.Scitt.Reuse.{Fits}
use ans_sdk_rust.Pop.Errors.{PopErrorKind}
use ans_sdk_rust.Pop.Replay.{Inner}
use ans_sdk_rust.Pop.Artifacts.{VerifiedArtifactCache}
use ans_sdk_rust.Pop.Peers.{CallerIdentity}
use ans_sdk_rust.Pop.Caller.{CallerSetup, CallerRequest, Cache, verify_caller_with_content}
use ans_sdk_rust.Pop.Caller.Entries.{CallerLaws, Holds}
use ans_sdk_rust.Pop.Caller.Refines.{Seen, verify_caller_refines, verify_caller_bare}

-- A request with the time of its checks and the time of its commit, and with what hashing its content
-- gives.
pub record Served (Key : Type 0) : Type 0 where
  pub clock : ℤ
  pub end : ℤ
  pub request : CallerRequest Key
  pub content : Result PopErrorKind (List ℕ)

module _ {Key PKey : Type 0} (d : CallerSetup Key PKey) where
  -- Requests in order, under whatever keys each of them has; their answers.
  unfoldable pub run_requests :
      List (Served Key)
      → Cache d × Inner
      → List (Result PopErrorKind CallerIdentity) × (Cache d × Inner)
  run_requests [] s = ([], s)
  run_requests (r ∷ rs) s =
      let (answer, s') = verify_caller_with_content d r.clock r.end r.request r.content s in
      let (answers, s'') = run_requests rs s' in (answer ∷ answers, s'')

  -- A cache with no entries, as a new one is.
  pub record IsNew (cache : VerifiedArtifactCache d.m) : Type 0 where
    pub statuses : (t : ℤ) (k : List ℕ) → d.m.statuses.find t k cache.status_tokens ≡ none
    pub receipts : (t : ℤ) (k : List ℕ) → d.m.receipts.find t k cache.receipts ≡ none
    pub certs : (t : ℤ) (k : List ℕ) → d.m.certs.find t k cache.proof_certs ≡ none

  module _ (laws : CallerLaws d) where
    -- Well-formed keys, and artifacts among those that occur.
    abbrev pub Regular : Served Key → Type 0
    Regular r = Fits d.crates r.request.keys × Seen d laws r.request

    pub IsNew-Holds : (cache : VerifiedArtifactCache d.m) → IsNew cache → Holds d laws (some cache)
    IsNew-Holds cache new = record {
      statuses = λ t k p e. let gone = new.statuses t k in absurd (cc (e, gone));
      receipts = λ t k r e. let gone = new.receipts t k in absurd (cc (e, gone));
      certs = λ t k leaf e. let gone = new.certs t k in absurd (cc (e, gone));
    }

    pub run-Holds :
        (rs : List (Served Key)) (cache : Cache d) (replay : Inner)
        → All Regular rs
        → Holds d laws cache
        → ((run_requests rs (cache, replay)).0 ≡ (run_requests rs (none, replay)).0)
          × (((run_requests rs (cache, replay)).1.1 ≡ (run_requests rs (none, replay)).1.1)
              × Holds d laws (run_requests rs (cache, replay)).1.0)
    unfolding run_requests
    run-Holds [] cache replay fine h = (refl, (refl, h))
    run-Holds (r ∷ rs) cache replay ((fits, seen), fine) h =
        let (same, (state, kept)) =
          verify_caller_refines d laws r.clock r.request fits seen r.content r.end cache replay h in
        let bare = verify_caller_bare d laws r.clock r.request fits seen r.content r.end replay in
        let s = verify_caller_with_content d r.clock r.end r.request r.content (cache, replay) in
        let s0 = verify_caller_with_content d r.clock r.end r.request r.content (none, replay) in
        let (answers, (end, valid)) = run-Holds rs s.1.0 s.1.1 fine kept in
        let at : (none, s.1.1) ≡ s0.1 = cc (state, bare) in
        (
          ap (λ a. a ∷ (run_requests rs s.1).0) same
              ∙ ap (λ l. s0.0 ∷ l) (answers ∙ ap (λ x. (run_requests rs x).0) at),
          (end ∙ ap (λ x. (run_requests rs x).1.1) at, valid),
        )

    -- Over any requests, from a new cache of verified artifacts on, the cache changes no answer:
    -- under the documented laws of the crates, with no collisions of SHA-256 among the cache keys of
    -- the artifacts and certificates that occur, those of the requests included, and if every
    -- request comes with well-formed keys of its own, then the answers of
    -- `verify_caller_with_content` to the requests in order, whatever their times, and the replay
    -- cache at the end are those that there are with no cache of artifacts.
    pub run_requests_refines :
        (rs : List (Served Key)) (cache : VerifiedArtifactCache d.m) (replay : Inner)
        → IsNew cache
        → All Regular rs
        → ((run_requests rs (some cache, replay)).0 ≡ (run_requests rs (none, replay)).0)
          × ((run_requests rs (some cache, replay)).1.1 ≡ (run_requests rs (none, replay)).1.1)
    run_requests_refines rs cache replay new fine =
        let (answers, (end, _)) = run-Holds rs (some cache) replay fine (IsNew-Holds cache new) in
        (answers, end)
