-- ===== src/Dns.antt =====
-- crates/ans-verify/src/dns.rs: the text records that DNS holds of an agent, and their lookups.
pub mod Txt
pub mod Lookup
pub mod Discovery
pub mod Parsed
pub mod Found
