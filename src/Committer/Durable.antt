-- ===== src/Committer/Durable.antt =====
-- What a batch leaves, whatever the other writers and the faults do.
use cairndb.Prelude.{ℕ, suc, ◌<◌, Option, none, some, List}
use cairndb.Core.Value.{Codec}
use cairndb.Core.Log.{Event, MsgPack}
use cairndb.Storage.LogInterface.{LogStorage}
use cairndb.Storage.Effects.{Result, ok, raised, World}
use cairndb.Storage.Rely.{Respects}
use cairndb.Committer.{CommitterConfig, Pending, Committer, Step, Hook, commit_batch}
use cairndb.Committer.Log.{IsDense, grows}
use cairndb.Committer.Fetch.{AllFit, IsGood}
use cairndb.Committer.Batch.{Leaves, IsFitting}
use cairndb.Committer.Loop.{commit_loop-Leaves}
use cairndb.Committer.Ends.{IsBelow, KeepBelow, Ended, commit_loop-Ended}

module _ (b : LogStorage) (c : Codec) (p : MsgPack) (config : CommitterConfig)
    (Fits : ℕ → Event → Type 0) where
  open b use {Store}

  -- The batch ended, done or with an exception `r` for the flusher to catch, and its committer is right about the log.
  abbrev pub Settled : Result (Option (Step (Unit {0}))) → Store → Type 0
  Settled (ok (some (r, cm))) s = IsGood b c p config Fits cm s
  Settled _ s = ⊥

  Settled-intro :
      (x : Result (Option (Step (Unit {0})))) (w : World Store)
      → Leaves b c p config Fits x w.store
      → Ended b 0 x w
      → Settled x w.store
  Settled-intro (raised e) w h q = h
  Settled-intro (ok none) w h q = q
  Settled-intro (ok (some (r, cm))) w h q = h

  -- While the other writers only add commits, leave no gap and stay below a limit, and every fault is
  -- possible, a batch from a dense log and a committer that is right about it ends, done or with an
  -- exception that the flusher catches. The log has only grown and is dense. The committer is right
  -- again: its tail is one, and each sequence number that a future was set to names a stored commit,
  -- which reads back, whose event at that index is one that fits the future.
  pub commit_batch-Settled :
      (hook : Option Hook) (limit fuel : ℕ) (cm : Committer) (ps : List Pending) (w : World Store)
      → limit < fuel
      → IsFitting b c p config Fits hook
      → AllFit b c p config Fits ps
      → Respects (grows b) w.turns
      → KeepBelow b limit w.turns
      → IsBelow b limit w.store
      → IsGood b c p config Fits cm w.store
      → let x = commit_batch b c p config hook (suc fuel) cm ps w in
        (grows b).rel w.store x.1.store × IsDense b x.1.store × Settled x.0 x.1.store
  unfolding commit_batch
  commit_batch-Settled hook limit fuel cm ps w enough fitting fit respects keep below good =
      (grown.0, grown.0.1 good.2.1, Settled-intro x.0 x.1 grown.2 ended)
    where
      x : Result (Option (Step (Unit {0}))) × World Store
      x = commit_batch b c p config hook (suc fuel) cm ps w

      grown :
          (grows b).rel w.store x.1.store
          × Respects (grows b) x.1.turns
          × Leaves b c p config Fits x.0 x.1.store
      grown =
          (commit_loop-Leaves b c p config Fits hook (suc fuel) fitting config.max_commit_attempts
              cm ps fit).at
            w respects good

      ended : Ended b 0 x.0 x.1
      ended =
          (commit_loop-Ended b limit c p config hook fuel enough config.max_commit_attempts cm
              ps).at
            w (below, keep)
