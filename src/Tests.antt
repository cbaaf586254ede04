-- ===== src/Tests.antt =====
-- The theorems at concrete inputs: a host, a few draws and small databases, and a witness for each
-- theorem that has conditions.
pub mod Data
pub mod Codec
mod Log
mod Money
mod Lifecycle
mod Runs
mod Drafts
mod Vault
mod Twin
mod Merge
