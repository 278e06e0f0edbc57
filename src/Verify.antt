-- ===== src/Verify.antt =====
-- crates/ans-verify/src/verify.rs: outcomes, policies and the verifiers.
pub mod Ans
pub mod Outcome
pub mod Env
pub mod Policy
pub mod Newest
pub mod Order
pub mod Scitt
pub mod Server
pub mod Match
pub mod Records
pub mod Client
