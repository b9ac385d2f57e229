-- ===== src/Client/Updater/Turns.antt =====
-- A turn of the update loop ends, whatever faults occur, and counts the updates.
use cairndb.Prelude.{
  ℕ, suc, ◌<◌, Text, Bytes, ◌≡◌, refl, ◌⊎◌, inl, inr, true, false, Option, none, some,
}
use cairndb.Core.Value.{Codec}
use cairndb.Core.Log.{MsgPack}
use cairndb.Jobs.Gc.{RetainedStorage}
use cairndb.Storage.Effects.{Result, ok, raised, World, pure, ◌>>=◌, continue}
use cairndb.Storage.Rely.{Respects}
use cairndb.Committer.Log.{grows}
use cairndb.Client.Projector.Applies.{Applied, Applies}
use cairndb.Committer.Ends.{IsBelow, KeepBelow}
use cairndb.Client.Replay.{Database, Registry}
use cairndb.Client.Projector.{Update}
use cairndb.Client.Projector.Atomic.{Atomic, apply_updates-Atomic}
use cairndb.Client.Updater.{Updater, on_turn, after_turn, updates, update_turn}

module _ (Tables : Type 0) (empty : Tables) (init_schema : Option (Tables → Result Tables))
    (b : RetainedStorage) (c : Codec) (p : MsgPack) (registry : Registry Tables) (schema : Text)
    (get_snapshot : Text → ℕ → b.log.Store → Option Bytes)
    (load : Bytes → Result (Database Tables)) where
  open b.log use {Store}

  -- The updater goes on. Either nothing has changed, or it counts one more update and has put a new
  -- database in place, as an update that began at the store `s0` does.
  abbrev pub Served : Updater Tables → Store → Result (Option (Updater Tables)) → Store → Type 0
  Served u s0 (ok (some u')) s =
      (u'.projection.new_db ≡ none)
      × ((u'.running ≡ u.running)
          × (((u'.update_count ≡ u.update_count) × (u'.projection.db ≡ u.projection.db))
              ⊎ ((u'.update_count ≡ suc u.update_count)
                  × Applied Tables empty init_schema b c p registry schema get_snapshot load
                      u.projection s0 u'.projection s)))
  Served u s0 _ s = ⊥

  abbrev Updates : Updater Tables → Store → Result (Option (Update Tables)) → Store → Type 0
  Updates u s0 x s =
      Atomic Tables u.projection x
      × Applies Tables empty init_schema b c p registry schema get_snapshot load u.projection s0 x s

  on_turn-Served :
      (u : Updater Tables) (s0 : Store) (x : Update Tables) (s : Store)
      → Updates u s0 (ok (some x)) s
      → Served u s0 (ok (some (on_turn Tables u x))) s
  unfolding on_turn
  on_turn-Served u s0 (raised e, pr) s (h, a) = (h.0, (refl, inl (refl, h.1)))
  on_turn-Served u s0 (ok (false, q), pr) s (h, a) = (h.0, (refl, inl (refl, h.1.0)))
  on_turn-Served u s0 (ok (true, q), pr) s (h, a) = (h.0, (refl, inr (refl, a)))

  after_turn-Served :
      (u : Updater Tables) (s0 : Store) (x : Result (Option (Update Tables))) (w : World Store)
      → Updates u s0 x w.store
      → let y = continue (λ o. pure (after_turn Tables u o)) x w in Served u s0 y.0 y.1.store
  unfolding after_turn pure
  after_turn-Served u s0 (raised e) w h = h.0
  after_turn-Served u s0 (ok none) w h = h.0
  after_turn-Served u s0 (ok (some x)) w h = on_turn-Served u s0 x w.store h

  -- While the log only grows and no commit is numbered above a limit, with fuel for the commits up to
  -- it, and whatever faults occur, a turn of the update loop from a state without a new file ends without
  -- an exception. Either the projection and the count are as they were; or the count is one more, and the
  -- projection is a base (a snapshot, or with at least one commit the projection that was there or a new
  -- database) into which the commits after it have been folded, all that the log had at the start.
  pub update_turn-Served :
      (limit fuel : ℕ) (u : Updater Tables) (w : World Store)
      → limit < fuel
      → u.projection.new_db ≡ none
      → Respects (grows b.log) w.turns
      → KeepBelow b.log limit w.turns
      → IsBelow b.log limit w.store
      → let x =
          update_turn Tables empty init_schema b c p registry schema get_snapshot load
            (suc fuel)
            u
            w in
        Served u w.store x.0 x.1.store
  unfolding update_turn ◌>>=◌
  update_turn-Served limit fuel u w enough clean respects keep below =
      let x =
        updates Tables empty init_schema b c p registry schema get_snapshot load (suc fuel)
          u.projection w in
      after_turn-Served u w.store x.0 x.1 (
        apply_updates-Atomic Tables empty init_schema b c p registry schema get_snapshot load limit
          fuel enough u.projection clean w respects keep below)
