-- ===== src/Tests.antt =====
-- Concrete inputs: the theorems applied, and runs of the models on examples of the sources' tests.
mod Store
mod Data
mod Dane
mod Dns
mod Cache
mod Server
mod Types
mod Client
mod Policy
mod Pop
mod Merkle
mod Scitt
mod Artifacts
mod Verified
mod Ans
mod Keys
mod Proof
mod Caller
