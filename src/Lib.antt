-- ===== src/Lib.antt =====
-- CairnDB is a database whose only server is a blob store: writers put numbered commits of events into
-- a log by put-if-absent, clients replay the log onto SQLite databases, and keyed objects that are
-- replaced by compare-and-swap carry claims and leases. This library models its core and proves what
-- makes it correct while other processes use the same store at the same time.
--
-- The parts, and where they are modelled:
--   Prelude             numbers, texts and lists that the modules share
--   Storage/Effects     a program that runs against a store: before each call the others take a turn,
--                       and the call is answered, fails before it reaches the store, or takes effect
--                       and loses its answer; the exceptions of src/cairndb/core/exceptions.py
--   Storage/Rely        a bound on what the others do, and the rules to prove that a program keeps the
--                       bound itself and ends as stated; Storage/Alone: runs without others
--   Storage/Recorded    a store that notes what each write does that took place, so that a theorem tells
--                       of every write of a program and not of its start and its end alone
--   Storage/Interface, Storage/LogInterface
--                       the contract of src/cairndb/storage/base.py (objects; commits)
--   Storage/Keys, Storage/Listed
--                       the keys of commits and snapshots and the listing of keys, from base.py
--   Storage/Writes      what a conditional put does, for every store that keeps the contract
--   Storage/Append      append_object_sync of src/cairndb/storage/base.py
--   Storage/Files, Storage/Filesystem
--                       src/cairndb/storage/filesystem.py: the object API, with the proof that it keeps
--                       the contract, and the commits and snapshots (Filesystem/Commits)
--   Core/Value, Core/Results, Core/Log
--                       src/cairndb/core/log.py and SequenceNumber of src/cairndb/core/types.py
--   Core/Decimal, Core/Sequence
--                       padded numbers in texts, and the string form and the order of SequenceNumber
--   Engine/Keys, Engine/Objects
--                       src/cairndb/engine/objects.py: the keys that are allowed, the operations on
--                       objects and the watch (definitions)
--   Engine/Document     Document of src/cairndb/engine/coordination.py
--   Engine/Claim, Engine/LeaseDoc, Engine/Lease, Engine/Acquire, Engine/Cooperative
--                       src/cairndb/engine/coordination.py: claim_sync, the lease document, the methods
--                       of a lease handle, acquire_sync and attach_sync, cooperative_write_sync
--   Engine/Logs, Engine/LogReads
--                       src/cairndb/engine/logs.py: NamespacedStorage and the reads of a Log
--   Engine/Transactions src/cairndb/engine/transactions.py: the staging and the record of a transaction
--                       (Transactions), its commit, the hook, the apply and the recovery (Manager)
--   Committer           src/cairndb/committer.py: the commit protocol (Committer), the queue and the
--                       flusher task (Committer/Flush)
--   Client/Registry, Client/Replay, Client/Discovery
--                       registry.py, replay.py and discovery.py of src/cairndb/client; Replay/Folds
--                       says without the code what a log makes of a database
--   Client/Projector, Client/Updater
--                       projector.py and updater.py of src/cairndb/client
--   Jobs/Gc, Jobs/Snapshot
--                       gc.py and snapshot.py of src/cairndb/jobs
--   Tests               codecs and stores that meet every law assumed, and the theorems at inputs
-- Transactions are records in a named log, whose committer runs their hook; a named log keeps the
-- commit contract on top of the object contract.
-- The committer and the replay engine share the commit contract; leases, claims and cooperative
-- writes share the object contract and one lease document; garbage collection works on both.
--
-- A method of the source has a function of its own name, with the state that it changes as argument
-- and result; a loop is a function of its attempts left, and the code after each call of the store is
-- a function of the call's outcome, since an outcome may be an exception.
--
-- Bounds and fuel: the attempts of a claim, an acquisition, a write and a batch are those of the code.
-- The reads of _advance_tail and the loop of iter_commits have fuel; Committer/Ends and
-- Client/Replay/Ends show that fuel for every commit number up to a limit is enough while no commit
-- is numbered above the limit, for the update of a projection and the build of a snapshot, too. The
-- scans of a transaction's commit and of recovery have fuel for more commits than the log has. The
-- polls of wait_for and wait_for_sequence have fuel that is not shown to be enough.
--
-- Parameters: the JSON, MessagePack and ISO codecs and MD5 with their laws, the handlers of the
-- application, its init_schema, the bytes of a SQLite file, the committer's revalidation hook (that of
-- the transactions is modelled), and every store but the filesystem's.
--
-- Not modelled: the asynchronous twins, which run the same code in a thread; waits and backoffs, which
-- are turns of the others; the cancellation of a future; logging. Times are natural numbers of
-- microseconds and the numbers in documents are natural. Stored documents whose fields have other
-- types than the code writes are refused when they are parsed. A put with both if_match and if_absent,
-- for which the source raises ValueError, is refused; no caller that is modelled passes both. The laws of the commit contract leave
-- out deletions, so the theorems on the committer and on replay are about a log that is not pruned
-- meanwhile. What a transaction's commit and recovery leave is stated for runs with nobody else about.
-- The digits of a pattern are those of ASCII. The local files of a projection are written by its
-- process alone, and their operations do not fail. The cloud backends, the wiring of the engine and
-- the command line are left out.
mod Prelude
pub mod Core
pub mod Storage
pub mod Engine
pub mod Client
pub mod Committer
pub mod Jobs
pub mod Tests
