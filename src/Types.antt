-- ===== src/Types.antt =====
-- Crate ans-types (crates/ans-types/src): domain names, versions, fingerprints and badges.
pub mod AnsName
pub mod Badge
pub mod Fingerprint
pub mod Fqdn
pub mod Version
