-- ===== src/Storage.antt =====
-- src/cairndb/storage: the contract of a blob store, the actions of a program against a store that
-- others use at the same time, and the filesystem backend.
pub mod Interface
pub mod LogInterface
pub mod Effects
pub mod Rely
pub mod Alone
pub mod Writes
pub mod Files
pub mod Filesystem
pub mod Append
pub mod Keys
pub mod Listed
pub mod Recorded
