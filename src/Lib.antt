-- ===== src/Lib.antt =====
-- A model of the Rust SDK of the Agent Name Service: the types of crates/ans-types and the
-- verification of crates/ans-verify.
--
-- An agent publishes, in DNS, records that point to badges in a transparency log. A verifier asks
-- the resolver for the records of a host, fetches their badges from trusted domains, and compares
-- them with the certificate that the peer presented: its fingerprint, its host and, for clients, its
-- ANS name. Badges are cached per host and version; a failure policy says whether a stale one may
-- serve in an outage; DANE is a second, independent check of servers. A peer may also send SCITT
-- artifacts with a request: a signed status token and a receipt, which proves by a Merkle path that an
-- event is in the log. They are checked under keys that are refreshed when an unknown one is named, and
-- what was verified is cached; a policy says how badges and artifacts combine. Proofs of possession are
-- recorded so that none is used twice.
--
-- Which file models what:
--   Types, Types/Fqdn, Types/Version, Types/AnsName, Types/Badge, Types/Fingerprint:
--     crates/ans-types/src/{types,badge,fingerprint}.rs. A text is a list of character codes.
--   Error: crates/ans-verify/src/error.rs, crates/ans-types/src/error.rs and
--     crates/ans-verify/src/scitt/error.rs. Messages are left out.
--   Cert: `CertIdentity` of crates/ans-verify/src/verify.rs.
--   Dane: crates/ans-verify/src/dane.rs.
--   Dns, with Txt, Lookup and Discovery: the text records and their lookups in
--     crates/ans-verify/src/dns.rs; Parsed and Found say what they give. The crate url says which texts
--     are URLs, and the crate hickory gives the texts of a name.
--   Cache, with Versions, Invalidation and Holds: crates/ans-verify/src/cache.rs. The store below it is the
--     crate moka, given by its operations (`Moka`) and their documented laws (`MokaLaws`); a list
--     satisfies them (Tests/Store). Its eviction may drop any entry at any insertion.
--   Verify/Outcome, Verify/Policy, Verify/Order, Verify/Match: the outcomes, the failure policies
--     and errors, the order of the records (Newest compares versions by their numbers) and the checks against one badge, of
--     crates/ans-verify/src/verify.rs.
--   Verify/Env: what a verifier calls (resolver, log client, URL parser, clock), as functions of
--     the state of a world, which each call may change in any way.
--   Verify/Server: `ServerVerifier`, one function per method, on the state of the world and of the
--     cache; its children prove what it accepts (Kept, Loop, Binding, Sound), what a failing
--     resolver leads to (Outage), that it accepts (Complete), and model `prefetch` (Prefetch).
--   Verify/Records, Verify/Client: the queries of `DnsResolver` in crates/ans-verify/src/dns.rs that
--     the client verifier uses, and `ClientVerifier`, with Accepted and Sound.
--   Scitt/Token: data of crates/ans-types/src/scitt.rs and its matching in
--     crates/ans-verify/src/scitt/status_token.rs.
--   Scitt/Certificate: the checks of a certificate against a status token, of
--     crates/ans-verify/src/verify.rs. Scitt/Identity: crates/ans-verify/src/scitt/identity.rs.
--   Scitt/Cbor, Scitt/Cose: crates/ans-verify/src/scitt/cose.rs over the values of the crate ciborium;
--     Structure says which bytes are such a structure.
--   Scitt/Keys: crates/ans-verify/src/scitt/root_keys.rs; Scope proves what a cache key determines.
--   Scitt/KeyStore, with Kept: crates/ans-verify/src/scitt/refreshable_key_store.rs.
--   Scitt/Payload, Scitt/Status: the decoding and the verification of a status token, of
--     crates/ans-verify/src/scitt/status_token.rs. Scitt/Receipt: crates/ans-verify/src/scitt/receipt.rs.
--     Accepted, in both, says which of them are accepted.
--   Scitt/VerificationCache, Scitt/Headers:
--     crates/ans-verify/src/scitt/{verification_cache,headers}.rs. The stores are the crate moka.
--   Verify/Scitt: `AnsVerifier::try_scitt_verification` of crates/ans-verify/src/verify.rs. Its state is
--     the world, the keys and the cache. Caches says what a cache holds; Steps, Stored, Agrees,
--     Receipts, Tokens and Hits compare each step with the one that has no cache; Refines puts them
--     together; Sound says what an accepted answer of the run with no cache means, and Tried with which
--     keys each of its steps got a result.
--   Verify/Ans, with Accepted and Sound: `AnsVerifier` and its policies, of the same file.
--   Scitt/Merkle: crates/ans-verify/src/scitt/merkle.rs; Tree is the layered tree of its
--     `build_tree_and_proof`, and Places says how the walk goes through its layers.
--   Pop/Replay, Pop/Errors: crates/ans-verify/src/pop/{replay,error}.rs.
--   Pop/Claims, Pop/Jws, Pop/Htu, Pop/Proof: crates/ans-verify/src/pop/{verify,proof,jws}.rs, the
--     verification of a proof of possession by `verify_proof`, with the saturating additions of 64
--     bits. Pop/Proof/Sound and Pop/Proof/Once prove what an accepted proof shows.
--   Pop/Artifacts: crates/ans-verify/src/pop/cache.rs. Pop/Peers, Pop/Caller: the
--     authentication of callers by `verify_caller_with_content` of
--     crates/ans-verify/src/pop/caller.rs. Its state is the cache of artifacts, where there is one,
--     and the replay cache. A request has two times, that of its checks and that of its commit, since
--     the digest of the content is awaited in between. Preflight says what its checks require,
--     Entries and Hits what the cache holds, Refines and Runs that the cache changes no answer, Shown
--     and Sound what an authenticated caller has shown, Once and Replays that a proof serves once.
--   Scitt/Reuse: what is cached of a verified token or receipt, for both kinds of cache.
--   Prelude: shared notation, lists, maps, integers and sorting. Tests: concrete runs.
--
-- Bounds and fuel. The loops over records, badges, paths and keys are recursions on lists. The loop
-- of promotions in the Merkle walk halves a number: it has the tree's size as fuel. The tree has
-- the number of its leaves as fuel, of which each layer has fewer. Numbers of 64 bits are
-- unbounded ones: no operation on them overflows, but for the end of a replay bucket,
-- `(id + 1) * 5`, which leaves 64 bits for an expiry within 5 of 2^63.
--
-- Assumed. SHA-256 has no collisions among the cache keys of the artifacts that occur: this is a
-- hypothesis (`NoCollisions`, and for certificates `NoTextCollisions`) of the results on these
-- caches, about a set of artifacts that those in the caches and the headers belong to; a digest that
-- keeps its input meets it for all (Tests/Artifacts). The bytes of a key's name are its character codes. The clock is a function of the
-- state of the world, so that a check and the cache lookup next to it read the same second. While one
-- request is verified no other task refreshes keys or writes caches.
--
-- Not modelled: the X.509, CBOR, base64 and JSON decoders, signatures and digests, which are crates
-- and stand as parameters where they are used; HTTP and DNS transport; the signing of proofs;
-- the artifacts that an agent sends; the rows of
-- SVCB discovery records; builders other than their configuration check; crates/ans-client. Requests
-- that `join_all` runs at once are made in order.
pub mod Prelude
pub mod Text
pub mod Types
pub mod Error
pub mod Results
pub mod Cert
pub mod Dane
pub mod Cache
pub mod Dns
pub mod Scitt
pub mod Verify
pub mod Pop
mod Tests
