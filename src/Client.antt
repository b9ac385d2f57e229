-- ===== src/Client.antt =====
-- src/cairndb/client: projecting the log onto a database.
pub mod Registry
pub mod Replay
pub mod Discovery
pub mod Projector
pub mod Updater
