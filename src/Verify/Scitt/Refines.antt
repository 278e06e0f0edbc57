-- ===== src/Verify/Scitt/Refines.antt =====
-- That the caches of verified artifacts change no answer.
use ans_sdk_rust.Prelude.{
  ℕ, ◌≡◌, inl, inr, refl, sym, ap, ◌∙◌, Bool, List, Option, none, some, Option-cases,
}
use ans_sdk_rust.Text.{Text}
use ans_sdk_rust.Cert.{CertIdentity}
use ans_sdk_rust.Scitt.Headers.{ScittHeaders}
use ans_sdk_rust.Scitt.Keys.{ScittKeyStore}
use ans_sdk_rust.Verify.Scitt.{
  ScittSetup, cached_outcome, after_outcome, request_of, ScittState, start, stop, with_token,
  try_scitt_verification,
}
use ans_sdk_rust.Scitt.Reuse.{Fits}
use ans_sdk_rust.Verify.Scitt.Caches.{ScittLaws, Seen, Holds}
use ans_sdk_rust.Verify.Scitt.Stored.{HasPeer}
use ans_sdk_rust.Verify.Scitt.Agrees.{Req, CacheHolds, Agrees, Keyed}
use ans_sdk_rust.Verify.Scitt.Tokens.{miss-Agrees}
use ans_sdk_rust.Verify.Scitt.Hits.{hit-Agrees}

module _ {Key World : Type 0} (d : ScittSetup Key World) (laws : ScittLaws d) where
  start-Keyed :
      (cert : CertIdentity) (headers : ScittHeaders) (is_server : Bool) (dialed : Option Text)
      (token_bytes : List ℕ) (snapshot : ScittKeyStore Key)
      → HasPeer d is_server dialed
      → headers.status_token ≡ some token_bytes
      → Seen d laws headers snapshot
      → Keyed d laws
          (request_of d cert headers is_server dialed token_bytes snapshot)
          snapshot
          token_bytes
  start-Keyed cert headers is_server dialed token_bytes snapshot peer is (tokens, receipts) =
      record {
        occurs_token = tokens token_bytes is;
        occurs_receipt = receipts;
        token = refl;
        receipt = refl;
        peer = peer;
      }

  start-Agrees :
      (q : Req d laws) (token_bytes : List ℕ) (s : ScittState d)
      → Keyed d laws q s.keys.snapshot token_bytes
      → Fits d.crates s.keys.snapshot
      → CacheHolds d laws s.cache
      → Agrees d laws
          (after_outcome d q token_bytes (cached_outcome d q (start d s)) (start d s))
          (after_outcome d q token_bytes none (start d (record s { cache = none })))
  start-Agrees q token_bytes s keyed fits h =
      let ctx = (start d s).0 in
      elim (Option-cases (cached_outcome d q (ctx, s.cache))) [
        | inl miss ↦
            rw miss
              (miss-Agrees d laws q s.keys.snapshot token_bytes keyed fits ctx refl refl s.cache h)
        | inr (o, hit) ↦ rw hit (
            hit-Agrees d laws q s.keys.snapshot token_bytes keyed fits ctx refl refl s.cache h o
              hit)
      ]

  -- The caches of verified artifacts change no answer: if they hold only what was verified under
  -- well-formed keys, under the documented laws of the crates, with no collisions of SHA-256 among
  -- the cache keys of the artifacts that occur, those of the headers included, and with a clock of 64
  -- bits, then `try_scitt_verification` of a client, or of a server that was dialed at a host, gives
  -- the same outcome, world and key store with the caches as with none, hits of tokens, receipts and
  -- outcomes and refreshes of the keys included, and leaves caches that hold only what was verified.
  pub try_scitt_verification_refines :
      (cert : CertIdentity) (headers : ScittHeaders) (is_server : Bool) (dialed : Option Text)
      (s : ScittState d)
      → HasPeer d is_server dialed
      → Fits d.crates s.keys.snapshot
      → Seen d laws headers s.keys.snapshot
      → Holds d laws s.cache
      → ((try_scitt_verification d cert headers is_server dialed s).0
          ≡ (try_scitt_verification d cert headers is_server dialed (record s { cache = none })).0)
        × ((record (try_scitt_verification d cert headers is_server dialed s).1 { cache = none }
              ≡ (try_scitt_verification d cert headers is_server dialed
                  (record s { cache = none })).1)
            × Holds d laws (try_scitt_verification d cert headers is_server dialed s).1.cache)
  unfolding try_scitt_verification
  try_scitt_verification_refines cert headers is_server dialed s peer fits seen h =
      by_token headers.status_token refl
    where
      by_token :
          (token : Option (List ℕ))
          → headers.status_token ≡ token
          → ((with_token d cert headers is_server dialed token s).0
              ≡ (with_token d cert headers is_server dialed token (record s { cache = none })).0)
            × ((record (with_token d cert headers is_server dialed token s).1 { cache = none }
                  ≡ (with_token d cert headers is_server dialed token
                      (record s { cache = none })).1)
                × Holds d laws (with_token d cert headers is_server dialed token s).1.cache)
      by_token none is = (refl, (refl, h))
      by_token (some token_bytes) is =
          let q = request_of d cert headers is_server dialed token_bytes s.keys.snapshot in
          let bare = after_outcome d q token_bytes none (start d (record s { cache = none })) in
          let agrees =
            start-Agrees q token_bytes s
              (start-Keyed cert headers is_server dialed token_bytes s.keys.snapshot peer is seen)
              fits h in
          (
            agrees.outcome,
            (
              ap (λ ctx. stop d (ctx, none)) agrees.ctx
                  ∙ ap (λ cache. stop d (bare.1.0, cache)) (sym agrees.bare),
              agrees.holds,
            ),
          )
