-- ===== src/Client/Projector.antt =====
-- src/cairndb/client/projector.py: a local database that is replaced whole. `db` is the file at
-- config.db_path and `new_db` that at config.new_db_path; an update holds the lock, and no other
-- process writes these files, so their operations are functions of the state. Parameters: the
-- storage's snapshots, SQLite's reading of a file, an empty database's tables, and init_schema.
pub mod Bases
pub mod Applies
pub mod Atomic
use cairndb.Prelude.{ℕ, Text, Bytes, Bool, true, false, Option, none, some, List, [], ◌∷◌}
use mathlib.Core.Option
use cairndb.Core.Value.{Codec}
use cairndb.Core.Results
use cairndb.Core.Log.{SequenceNumber, MsgPack}
use cairndb.Jobs.Gc.{RetainedStorage}
use cairndb.Storage.Effects.{
  Result, ok, raised, replay_error, storage_error, file_exists_error, Io, pure, call, attempt,
  ◌>>=◌,
}
use cairndb.Client.Discovery.{find_latest_snapshot, has_new_commits}
use cairndb.Client.Replay.{Database, Registry, Outcome, replay}

module _ (Tables : Type 0) where
  pub record Projection : Type 0 where
    pub db : Option (Database Tables)
    pub new_db : Option (Database Tables)

  -- atomic_swap, and os.remove of the new file
  unfoldable pub atomic_swap : Projection → Projection
  atomic_swap pr = record { db = pr.new_db; new_db = none }

  unfoldable pub remove_new : Projection → Projection
  remove_new pr = record pr { new_db = none }

  unfoldable pub get_current_sequence : Projection → Option SequenceNumber
  get_current_sequence pr = elim pr.db [ none ↦ none | some d ↦ d.last_applied ]

  -- current.commit if current else 0
  unfoldable pub commit_of : Option SequenceNumber → ℕ
  commit_of none = 0
  commit_of (some q) = q.commit

  -- (updates_applied, current_sequence), or the exception; and the files that are left.
  abbrev pub Update : Type 0
  Update = Result (Bool × Option SequenceNumber) × Projection

  -- (after, bootstrapped)
  abbrev pub Prepared : Type 0
  Prepared = Result (ℕ × Bool) × Projection

  unfoldable pub failed : Projection → Update
  failed pr = (raised replay_error, remove_new pr)

  unfoldable pub on_last : Projection → Option SequenceNumber → Update
  on_last pr none = (ok (false, get_current_sequence pr), remove_new pr)
  on_last pr (some q) = (ok (true, some q), atomic_swap pr)

  -- What follows a replay onto the new database.
  unfoldable pub on_replayed : Bool → Projection → Outcome Tables → Update
  on_replayed bootstrapped pr (raised e, d) = failed (record pr { new_db = some d })
  on_replayed bootstrapped pr (ok (some q), d) = on_last (record pr { new_db = some d }) (some q)
  on_replayed true pr (ok none, d) = on_last (record pr { new_db = some d }) d.last_applied
  on_replayed false pr (ok none, d) = on_last (record pr { new_db = some d }) none

  unfoldable pub on_replay : Bool → Projection → Option (Outcome Tables) → Option Update
  on_replay bootstrapped pr none = none
  on_replay bootstrapped pr (some o) = some (on_replayed bootstrapped pr o)

  module _ (empty : Tables) (init_schema : Option (Tables → Result Tables)) where
    abbrev pub empty_database : Database Tables
    empty_database = record { tables = empty; last_applied = none }

    -- initialize_metadata_table, and init_schema if there is one.
    unfoldable pub new_database : Result (Database Tables)
    new_database = elim init_schema [
      | none ↦ ok empty_database
      | some f ↦ Results.◌>>=◌ (f empty) (λ t. ok (record { tables = t; last_applied = none }))
    ]

    unfoldable pub initialize_projection : Projection → Result (Unit {0}) × Projection
    initialize_projection pr = elim pr.db [
      | some d ↦ (raised file_exists_error, pr)
      | none ↦ elim new_database [
        | raised e ↦ (raised e, record pr { db = some empty_database })
        | ok d ↦ (ok tt, record pr { db = some d })
      ]
    ]

    -- The base that is local: a copy of the projection, or an empty one.
    unfoldable pub prepare_local : Projection → Prepared
    prepare_local pr = elim pr.db [
      | some d ↦ (ok (commit_of (get_current_sequence pr), false), record pr { new_db = some d })
      | none ↦ elim new_database [
        | raised e ↦ (raised e, record pr { new_db = some empty_database })
        | ok d ↦ (ok (commit_of (get_current_sequence pr), false), record pr { new_db = some d })
      ]
    ]

    -- The end of rebuild_from_scratch.
    unfoldable pub on_rebuilt : Update → Result (Option SequenceNumber) × Projection
    on_rebuilt (raised e, pr) = (raised e, pr)
    on_rebuilt (ok (true, q), pr) = (ok q, pr)
    on_rebuilt (ok (false, q), pr) = elim pr.db [
      | some d ↦ (ok q, pr)
      | none ↦ elim new_database [
        | raised e ↦ (raised e, record pr { db = some empty_database })
        | ok d ↦ (ok q, record pr { db = some d })
      ]
    ]

    unfoldable pub on_update : Option Update → Option (Result (Option SequenceNumber) × Projection)
    on_update none = none
    on_update (some u) = some (on_rebuilt u)

    module _ (b : RetainedStorage) (c : Codec) (p : MsgPack) (registry : Registry Tables)
        (schema : Text) (get_snapshot : Text → ℕ → b.log.Store → Option Bytes)
        (load : Bytes → Result (Database Tables)) where
      abbrev pub Run : Type 0 → Type 0
      Run = Io b.log.Store

      -- The file that is written from a snapshot is opened by the replay.
      unfoldable pub on_snapshot : ℕ → Projection → Result (Option Bytes) → Prepared
      on_snapshot number pr (raised e) = (raised e, pr)
      on_snapshot number pr (ok none) = (raised storage_error, pr)
      on_snapshot number pr (ok (some bytes)) = elim (load bytes) [
        | raised e ↦ (raised e, pr)
        | ok d ↦ (ok (number, true), record pr { new_db = some d })
      ]

      -- _prepare_new_db; there is a snapshot number only if nothing has been applied.
      unfoldable pub prepare_new_db : Projection → Option ℕ → Run Prepared
      prepare_new_db pr none = pure (prepare_local pr)
      prepare_new_db pr (some number) =
          attempt (call (λ s. (get_snapshot schema number s, s))) >>= λ r.
          pure (on_snapshot number pr r)

      -- Opening a path without a file makes an empty database.
      unfoldable pub opened : Projection → Database Tables
      opened pr = Option.get_or pr.new_db empty_database

      unfoldable pub on_prepared : ℕ → Prepared → Run (Option Update)
      on_prepared fuel (raised e, pr) = pure (some (failed pr))
      on_prepared fuel (ok (after, bootstrapped), pr) =
          replay Tables b.log c p registry fuel (opened pr) after none >>= λ o.
          pure (on_replay bootstrapped pr o)

      unfoldable pub update : ℕ → Projection → Option ℕ → Run (Option Update)
      update fuel pr snapshot = prepare_new_db pr snapshot >>= on_prepared fuel

      unfoldable pub on_poll : ℕ → Projection → Result Bool → Run (Option Update)
      on_poll fuel pr (raised e) = pure (some (raised e, pr))
      on_poll fuel pr (ok false) = pure (some (ok (false, get_current_sequence pr), pr))
      on_poll fuel pr (ok true) = update fuel pr none

      unfoldable pub on_found : ℕ → Projection → Result (Option ℕ) → Run (Option Update)
      on_found fuel pr (raised e) = pure (some (raised e, pr))
      on_found fuel pr (ok (some number)) = update fuel pr (some number)
      on_found fuel pr (ok none) =
          attempt (has_new_commits b.log (get_current_sequence pr)) >>= on_poll fuel pr

      -- A snapshot is looked for only if nothing has been applied.
      unfoldable pub find_snapshot : Option SequenceNumber → Run (Option ℕ)
      find_snapshot none = find_latest_snapshot b schema
      find_snapshot (some q) = pure none

      unfoldable pub apply_updates : ℕ → Projection → Run (Option Update)
      apply_updates fuel pr = attempt (find_snapshot (get_current_sequence pr)) >>= on_found fuel pr

      unfoldable pub rebuild_from_scratch :
          ℕ → Projection → Run (Option (Result (Option SequenceNumber) × Projection))
      rebuild_from_scratch fuel pr =
          apply_updates fuel (record pr { db = none }) >>= λ u. pure (on_update u)

      unfoldable pub has_updates_available : Projection → Run Bool
      has_updates_available pr = has_new_commits b.log (get_current_sequence pr)
