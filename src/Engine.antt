-- ===== src/Engine.antt =====
-- src/cairndb/engine: the layers that the engine builds on a blob store.
pub mod Keys
pub mod Claim
pub mod LeaseDoc
pub mod Lease
pub mod Acquire
pub mod Cooperative
pub mod Objects
pub mod Document
pub mod Logs
pub mod LogReads
pub mod Transactions
