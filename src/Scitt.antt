-- ===== src/Scitt.antt =====
-- crates/ans-verify/src/scitt: signed status tokens, receipts and Merkle inclusion.
pub mod Cbor
pub mod Cose
pub mod Keys
pub mod KeyStore
pub mod Token
pub mod Payload
pub mod Status
pub mod Receipt
pub mod Reuse
pub mod VerificationCache
pub mod Headers
pub mod Merkle
pub mod Certificate
pub mod Identity
