-- ===== src/Tests.antt =====
-- Concrete backends and codecs, runs of the program on them, and the theorems at concrete inputs.
mod Codec
mod Lease
mod Log
mod Replay
mod Gc
mod Append
mod Discovery
mod Files
mod Transactions
mod Logs
mod Projector
mod Directory
mod Document
