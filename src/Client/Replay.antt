-- ===== src/Client/Replay.antt =====
-- src/cairndb/client/replay.py: the replay engine. A database is its application tables, which the
-- handlers change, and the last applied sequence number, which its metadata table holds; SQLite
-- commits a transaction whole or rolls it back. A handler is a parameter of the application's.
-- `end_at` is the last commit to apply, and the loop runs on fuel.
pub mod Reaches
pub mod Folds
pub mod Ends
pub mod Told
use cairndb.Prelude.{
  ℕ, zero, suc, Text, Bytes, Bool, true, false, Option, none, some, List, [], ◌∷◌, ltb,
}
use cairndb.Core.Value.{Codec}
use cairndb.Core.Results.{◌>>=◌}
use cairndb.Core.Log.{
  SequencedEvent, SequenceNumber, Commit, MsgPack, from_msgpack, sequenced_events, last_sequence,
}
use cairndb.Storage.LogInterface.{LogStorage}
use cairndb.Storage.Effects.{Result, ok, raised, Error, replay_error, Io, pure, call, attempt}
use cairndb.Storage.Effects
use cairndb.Client.Registry.{has_handler, get_handler}

module _ (Tables : Type 0) where
  pub record Database : Type 0 where
    pub tables : Tables
    pub last_applied : Option SequenceNumber

  abbrev pub EventHandler : Type 0
  EventHandler = Tables → SequencedEvent → Result Tables

  abbrev pub Registry : Type 0
  Registry = List (Text × EventHandler)

  -- A handler's exception is a ReplayError.
  unfoldable pub handled : Result Tables → Result Tables
  handled (ok t) = ok t
  handled (raised e) = raised replay_error

  unfoldable pub apply_event : Registry → SequencedEvent → Tables → Result Tables
  apply_event registry e tables = elim (has_handler e.event.event_type registry) [
    | false ↦ ok tables
    | true ↦ do handler ← get_handler e.event.event_type registry; handled (handler tables e)
  ]

  unfoldable pub apply_events : Registry → List SequencedEvent → Tables → Result Tables
  apply_events registry [] tables = ok tables
  apply_events registry (e ∷ es) tables = do
    tables' ← apply_event registry e tables
    apply_events registry es tables'

  -- _apply_commit, with the database that is left: rolled back after an exception.
  unfoldable pub apply_commit : Registry → Commit → Database → Result (Unit {0}) × Database
  apply_commit registry commit db =
      elim (apply_events registry (sequenced_events commit) db.tables) [
        | raised e ↦ (raised e, db)
        | ok tables ↦
            (ok tt, record { tables = tables; last_applied = some (last_sequence commit) })
      ]

  -- The database, and the sequence number to return.
  pub record Progress : Type 0 where
    pub db : Database
    pub last : Option SequenceNumber

  abbrev pub Outcome : Type 0
  Outcome = Result (Option SequenceNumber) × Database

  module _ (b : LogStorage) (c : Codec) (p : MsgPack) (registry : Registry) where
    open b use {Store}

    abbrev pub Rest : Type 0
    Rest = Progress → Io Store (Option Outcome)

    unfoldable pub on_applied :
        Rest → Commit → Progress → Result (Unit {0}) × Database → Io Store (Option Outcome)
    on_applied again commit pr (raised e, db) = pure (some (raised replay_error, db))
    on_applied again commit pr (ok x, db) =
        again (record { db = db; last = some (last_sequence commit) })

    unfoldable pub on_commit : Rest → Progress → Result Commit → Io Store (Option Outcome)
    on_commit again pr (raised e) = pure (some (raised e, pr.db))
    on_commit again pr (ok commit) = on_applied again commit pr (apply_commit registry commit pr.db)

    unfoldable pub on_data : Rest → Progress → Result (Option Bytes) → Io Store (Option Outcome)
    on_data again pr (raised e) = pure (some (raised e, pr.db))
    on_data again pr (ok none) = pure (some (ok pr.last, pr.db))
    on_data again pr (ok (some bytes)) = on_commit again pr (from_msgpack c p bytes)

    -- end_at is None or number <= end_at
    unfoldable pub goes_on : Option ℕ → ℕ → Bool
    goes_on none number = true
    goes_on (some end_at) number = elim (ltb end_at number) [ true ↦ false | false ↦ true ]

    -- One turn of the loop, by its test.
    unfoldable pub replay_step : Bool → ℕ → Rest → Rest
    replay_step false number again pr = pure (some (ok pr.last, pr.db))
    replay_step true number again pr =
        Effects.◌>>=◌ (attempt (call (λ s. (b.get_commit number s, s)))) (on_data again pr)

    unfoldable pub replay_loop : ℕ → Option ℕ → ℕ → Rest
    replay_loop zero end_at number pr = pure none
    replay_loop (suc f) end_at number pr =
        replay_step (goes_on end_at number) number (replay_loop f end_at (suc number)) pr

    unfoldable pub replay : ℕ → Database → ℕ → Option ℕ → Io Store (Option Outcome)
    replay fuel db after end_at =
        replay_loop fuel end_at (suc after) (record { db = db; last = none })
