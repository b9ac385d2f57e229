-- ===== src/Jobs/Snapshot.antt =====
-- src/cairndb/jobs/snapshot.py: a snapshot that is built by a replay from the beginning. Parameters:
-- the bytes of a database's file, and the put of a snapshot, which is a put-if-absent.
pub mod Built
use cairndb.Prelude.{ℕ, Text, Bytes, Bool, true, false, Option, none, some, List, [], ◌∷◌}
use cairndb.Core.Value.{Codec}
use cairndb.Core.Log.{SequenceNumber, MsgPack}
use cairndb.Storage.LogInterface.{LogStorage}
use cairndb.Storage.Effects.{Result, ok, raised, replay_error, Io, pure, call, attempt, ◌>>=◌}
use cairndb.Client.Replay.{Database, Registry, Outcome, replay}
use cairndb.Client.Projector.{new_database}

module _ (Tables : Type 0) (empty : Tables) (init_schema : Option (Tables → Result Tables))
    (b : LogStorage) (c : Codec) (p : MsgPack) (registry : Registry Tables) (schema : Text)
    (dump : Database Tables → Bytes)
    (put_snapshot : Text → ℕ → Bytes → b.Store → Bool × b.Store) where
  -- The commit number that the snapshot stands for, or the exception.
  abbrev pub Run : Type 0
  Run = Io b.Store (Option (Result ℕ))

  unfoldable pub on_put : ℕ → Result Bool → Option (Result ℕ)
  on_put number (raised e) = some (raised e)
  on_put number (ok created) = some (ok number)

  unfoldable pub on_replayed : Option (Outcome Tables) → Run
  on_replayed none = pure none
  on_replayed (some (raised e, d)) = pure (some (raised e))
  on_replayed (some (ok none, d)) = pure (some (raised replay_error))
  on_replayed (some (ok (some q), d)) =
      attempt (call (put_snapshot schema q.commit (dump d))) >>= λ r. pure (on_put q.commit r)

  unfoldable pub build : ℕ → Option ℕ → Run
  build fuel end_at = elim (new_database Tables empty init_schema) [
    | raised e ↦ pure (some (raised e))
    | ok d ↦ replay Tables b c p registry fuel d 0 end_at >>= on_replayed
  ]
