-- ===== src/Pop.antt =====
-- crates/ans-verify/src/pop: proof of possession (DPoP).
pub mod Errors
pub mod Replay
pub mod Claims
pub mod Jws
pub mod Htu
pub mod Proof
pub mod Artifacts
pub mod Peers
pub mod Caller
