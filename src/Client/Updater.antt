-- ===== src/Client/Updater.antt =====
-- src/cairndb/client/updater.py: the update loop by its turns, and the wait for a sequence number, on
-- fuel for its polls. The task of the loop is its number of turns; the clock of the event loop is the
-- clock of the world, and `timeout` is in its unit.
pub mod Turns
use cairndb.Prelude.{
  ℕ, zero, suc, ◌-◌, Text, Bytes, Bool, true, false, Option, none, some, List, [], ◌∷◌, leb,
}
use mathlib.Core.Option
use cairndb.Core.Value.{Codec}
use cairndb.Core.Log.{SequenceNumber, MsgPack}
use cairndb.Core.Sequence.{to_string, from_string, is_before}
use cairndb.Jobs.Gc.{RetainedStorage}
use cairndb.Storage.Effects.{Result, ok, raised, Io, pure, now, attempt, ◌>>=◌}
use cairndb.Client.Replay.{Database, Registry}
use cairndb.Client.Projector.{Projection, Update, get_current_sequence, apply_updates}

module _ (Tables : Type 0) where
  pub record Updater : Type 0 where
    pub projection : Projection Tables
    pub running : Bool
    pub update_count : ℕ

  unfoldable pub start : Updater → Updater
  start u = record u { running = true }

  unfoldable pub stop : Updater → Updater
  stop u = record u { running = false }

  -- An exception is logged, and the loop goes on.
  unfoldable pub on_turn : Updater → Update Tables → Updater
  on_turn u (raised e, pr) = record u { projection = pr }
  on_turn u (ok (false, q), pr) = record u { projection = pr }
  on_turn u (ok (true, q), pr) = record u { projection = pr; update_count = suc u.update_count }

  unfoldable pub after_turn : Updater → Option (Update Tables) → Option Updater
  after_turn u o = Option.map (on_turn u) o

  -- current and current >= target
  unfoldable pub has_reached : SequenceNumber → Option SequenceNumber → Bool
  has_reached target none = false
  has_reached target (some current) = elim (is_before current target) [
    | true ↦ false
    | false ↦ true
  ]

  unfoldable pub told : Update Tables → Result (Bool × Option Text) × Projection Tables
  told (raised e, pr) = (raised e, pr)
  told (ok (updated, q), pr) = (ok (updated, Option.map to_string q), pr)

  module _ (empty : Tables) (init_schema : Option (Tables → Result Tables)) (b : RetainedStorage)
      (c : Codec) (p : MsgPack) (registry : Registry Tables) (schema : Text)
      (get_snapshot : Text → ℕ → b.log.Store → Option Bytes)
      (load : Bytes → Result (Database Tables)) (fuel : ℕ) where
    abbrev pub Run : Type 0 → Type 0
    Run = Io b.log.Store

    abbrev pub updates : Projection Tables → Run (Option (Update Tables))
    updates pr =
        apply_updates Tables empty init_schema b c p registry schema get_snapshot load fuel pr

    -- One turn of _update_loop.
    unfoldable pub update_turn : Updater → Run (Option Updater)
    update_turn u = updates u.projection >>= λ o. pure (after_turn u o)

    unfoldable pub next_turn :
        Run (Option Updater) → (Updater → Run (Option Updater)) → Run (Option Updater)
    next_turn turn again = turn >>= λ o. elim o [ none ↦ pure none | some u ↦ again u ]

    -- As many turns as are left until the loop is stopped.
    unfoldable pub update_loop : ℕ → Updater → Run (Option Updater)
    update_loop zero u = pure (some u)
    update_loop (suc turns) u = elim u.running [
      | false ↦ pure (some u)
      | true ↦ next_turn (update_turn u) (update_loop turns)
    ]

    unfoldable pub trigger_update :
        Projection Tables → Run (Option (Result (Bool × Option Text) × Projection Tables))
    trigger_update pr = updates pr >>= λ o. pure (Option.map told o)

    abbrev pub Waits : Type 0
    Waits = Projection Tables → Run (Option (Result Bool × Projection Tables))

    unfoldable pub on_triggered :
        Waits
        → Option (Result (Bool × Option Text) × Projection Tables)
        → Run (Option (Result Bool × Projection Tables))
    on_triggered again none = pure none
    on_triggered again (some (raised e, pr)) = pure (some (raised e, pr))
    on_triggered again (some (ok x, pr)) = again pr

    unfoldable pub wait_on :
        ℕ → ℕ → Waits → Projection Tables → ℕ → Run (Option (Result Bool × Projection Tables))
    wait_on timeout start_time again pr time = elim (leb timeout (time - start_time)) [
      | true ↦ pure (some (ok false, pr))
      | false ↦ trigger_update pr >>= on_triggered again
    ]

    unfoldable pub wait_loop : ℕ → SequenceNumber → ℕ → ℕ → Waits
    wait_loop zero target timeout start_time pr = pure none
    wait_loop (suc polls) target timeout start_time pr =
        elim (has_reached target (get_current_sequence Tables pr)) [
          | true ↦ pure (some (ok true, pr))
          | false ↦
              now >>= wait_on timeout start_time (wait_loop polls target timeout start_time) pr
        ]

    unfoldable pub wait_for_sequence : ℕ → Text → ℕ → Waits
    wait_for_sequence polls target_sequence timeout pr = elim (from_string target_sequence) [
      | raised e ↦ pure (some (raised e, pr))
      | ok target ↦ now >>= λ start_time. wait_loop polls target timeout start_time pr
    ]
