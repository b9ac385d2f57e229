-- ===== src/Jobs.antt =====
-- src/cairndb/jobs: the batch jobs over a store.
pub mod Gc
pub mod Snapshot
