-- ===== src/Client/Projector/Atomic.antt =====
-- An update replaces the projection whole, or leaves it.
use cairndb.Prelude.{
  ℕ, suc, ◌<◌, Text, Bytes, ◌≡◌, refl, ◌⊎◌, inl, inr, Bool, true, false, Option, none, some, arith,
}
use cairndb.Core.Value.{Codec}
use cairndb.Core.Log.{SequenceNumber, MsgPack}
use cairndb.Jobs.Gc.{RetainedStorage}
use cairndb.Storage.Effects.{Result, ok, raised, World, pure, call, attempt, ◌>>=◌, continue}
use cairndb.Storage.Rely.{Respects}
use cairndb.Committer.Log.{grows}
use cairndb.Committer.Ends.{
  IsBelow, KeepBelow, IsCalm, Ends, Ended, Calm, Ends-pure, Ends-attempt, Ends-call, Ends-read,
}
use cairndb.Client.Discovery.{find_latest_snapshot, has_new_commits}
use cairndb.Client.Replay.{Database, Registry, Outcome, replay}
use cairndb.Client.Replay.Ends.{replay_loop-Ended}
use cairndb.Client.Replay.Told.{Told, replay_loop-Told}
use cairndb.Client.Projector.Applies.{Applies, apply_updates-Applies}
use cairndb.Client.Projector.{
  Projection, atomic_swap, remove_new, get_current_sequence, Update, Prepared, failed, on_last,
  on_replayed, on_replay, prepare_local, on_snapshot, prepare_new_db, opened, on_prepared, update,
  on_poll, on_found, find_snapshot, apply_updates,
}

module _ (Tables : Type 0) where
  -- An update that was not told leaves the projection; one that was put the new database in its place,
  -- which has applied what is told. The new file is gone.
  abbrev pub Atomic : Projection Tables → Result (Option (Update Tables)) → Type 0
  Atomic pr (ok (some (ok (true, q), pr'))) =
      (pr'.new_db ≡ none)
      × ((get_current_sequence Tables pr' ≡ q) × ((n : SequenceNumber) × (q ≡ some n)))
  Atomic pr (ok (some (ok (false, q), pr'))) =
      (pr'.new_db ≡ none) × ((pr'.db ≡ pr.db) × (q ≡ get_current_sequence Tables pr))
  Atomic pr (ok (some (raised e, pr'))) = (pr'.new_db ≡ none) × (pr'.db ≡ pr.db)
  Atomic pr _ = ⊥

  on_last-Atomic :
      (pr pr' : Projection Tables) (d : Database Tables) (q : Option SequenceNumber)
      → pr'.db ≡ pr.db
      → pr'.new_db ≡ some d
      → (q ≡ none) ⊎ (d.last_applied ≡ q)
      → Atomic pr (ok (some (on_last Tables pr' q)))
  unfolding on_last remove_new atomic_swap get_current_sequence
  on_last-Atomic pr pr' d none e e' h = (refl, (e, rw e refl))
  on_last-Atomic pr pr' d (some q) e e' (inl h) = absurd (ground (arith, h))
  on_last-Atomic pr pr' d (some q) e e' (inr h) = (refl, (rw e' h, (q, refl)))

  on_replayed-Atomic :
      (pr pr' : Projection Tables) (start : Database Tables) (bootstrapped : Bool)
      (o : Outcome Tables)
      → pr'.db ≡ pr.db
      → Told Tables start (ok (some o))
      → Atomic pr (ok (some (on_replayed Tables bootstrapped pr' o)))
  unfolding on_replayed failed remove_new
  on_replayed-Atomic pr pr' start bootstrapped (raised x, d) e h = (refl, e)
  on_replayed-Atomic pr pr' start bootstrapped (ok (some q), d) e h =
      on_last-Atomic pr (record pr' { new_db = some d }) d (some q) e refl (inr h)
  on_replayed-Atomic pr pr' start true (ok none, d) e h =
      on_last-Atomic pr (record pr' { new_db = some d }) d d.last_applied e refl (inr refl)
  on_replayed-Atomic pr pr' start false (ok none, d) e h =
      on_last-Atomic pr (record pr' { new_db = some d }) d none e refl (inl refl)

  module _ (empty : Tables) (init_schema : Option (Tables → Result Tables)) (b : RetainedStorage)
      (c : Codec) (p : MsgPack) (registry : Registry Tables) (schema : Text)
      (get_snapshot : Text → ℕ → b.log.Store → Option Bytes)
      (load : Bytes → Result (Database Tables)) (limit fuel : ℕ) (enough : limit < fuel)
      (pr : Projection Tables) where
    open b.log use {Store}

    abbrev Whole : Result (Option (Update Tables)) → World Store → Type 0
    Whole x w = Atomic pr x

    -- Preparing leaves the projection.
    abbrev Keeps : Prepared Tables → Type 0
    Keeps x = x.1.db ≡ pr.db

    prepare_local-Keeps : Keeps (prepare_local Tables empty init_schema pr)
    unfolding prepare_local
    prepare_local-Keeps = ground arith

    on_snapshot-Keeps :
        (number : ℕ) (r : Result (Option Bytes))
        → Keeps (
            on_snapshot Tables empty init_schema b c p registry schema get_snapshot load number pr
              r)
    unfolding on_snapshot
    on_snapshot-Keeps number (raised e) = refl
    on_snapshot-Keeps number (ok none) = refl
    on_snapshot-Keeps number (ok (some bytes)) = ground arith

    replayed :
        (pr' : Projection Tables) (start : Database Tables) (bootstrapped : Bool)
        (x : Result (Option (Outcome Tables)) × World Store)
        → pr'.db ≡ pr.db
        → Told Tables start x.0
        → Ended b.log limit x.0 x.1
        → Atomic pr (continue (λ o. pure (on_replay Tables bootstrapped pr' o)) x.0 x.1).0
    unfolding on_replay pure
    replayed pr' start bootstrapped (raised e, w) h t n = absurd t
    replayed pr' start bootstrapped (ok none, w) h t n = absurd n
    replayed pr' start bootstrapped (ok (some o), w) h t n =
        on_replayed-Atomic pr pr' start bootstrapped o h t

    on_prepared-Atomic :
        (x : Prepared Tables)
        → Keeps x
        → Ends b.log limit
            (on_prepared Tables empty init_schema b c p registry schema get_snapshot load
              (suc fuel)
              x)
            Whole
    unfolding on_prepared failed remove_new ◌>>=◌ replay
    on_prepared-Atomic (raised e, pr') h = Ends-pure b.log limit _ (λ w calm. (refl, h))
    on_prepared-Atomic (ok (after, bootstrapped), pr') h =
        let start = opened Tables empty init_schema b c p registry schema get_snapshot load pr' in
        record {
          at = λ w calm.
              replayed pr' start bootstrapped
                (replay Tables b.log c p registry (suc fuel) start after none w) h
                (told start after w)
                ((replay_loop-Ended Tables b.log limit c p registry fuel (suc after) none
                    (record { db = start; last = none }) (omega (arith, enough))).at
                  w calm);
        }
      where
        told :
            (start : Database Tables) (after : ℕ) (w : World Store)
            → Told Tables start (replay Tables b.log c p registry (suc fuel) start after none w).0
        told start after w =
            unfold replay in
            replay_loop-Told Tables b.log c p registry start (suc fuel) none (suc after)
              (record { db = start; last = none }) w refl

    update-Atomic :
        (snapshot : Option ℕ)
        → Ends b.log limit
            (update Tables empty init_schema b c p registry schema get_snapshot load
              (suc fuel)
              pr
              snapshot)
            Whole
    unfolding update prepare_new_db ◌>>=◌ attempt pure
    update-Atomic none = record {
      at = λ w calm.
          (on_prepared-Atomic (prepare_local Tables empty init_schema pr) prepare_local-Keeps).at w
            calm;
    }
    update-Atomic (some number) = record {
      at = λ w calm.
          let x = call (λ s. (get_snapshot schema number s, s)) w in
          (on_prepared-Atomic
              (on_snapshot Tables empty init_schema b c p registry schema get_snapshot load number
                pr x.0)
              (on_snapshot-Keeps number x.0)).at
            x.1
            ((Ends-call b.log limit {Q = Calm b.log limit} (λ s. (get_snapshot schema number s, s))
                (λ w' k. k) (λ w' k. k) (λ w' k. k)).at
              w calm);
    }

    has_new_commits-Calm :
        (current : Option SequenceNumber)
        → Ends b.log limit (has_new_commits b.log current) (Calm b.log limit)
    unfolding has_new_commits
    has_new_commits-Calm current =
        Ends-read b.log limit _ _ (λ s below. Ends-pure b.log limit _ (λ w calm. calm))
          (λ w calm. calm)

    find_snapshot-Calm :
        (current : Option SequenceNumber)
        → Ends b.log limit
            (find_snapshot Tables empty init_schema b c p registry schema get_snapshot load current)
            (Calm b.log limit)
    unfolding find_snapshot find_latest_snapshot
    find_snapshot-Calm none =
        Ends-read b.log limit _ _ (λ s below. Ends-pure b.log limit _ (λ w calm. calm))
          (λ w calm. calm)
    find_snapshot-Calm (some q) = Ends-pure b.log limit _ (λ w calm. calm)

    module _ (clean : pr.new_db ≡ none) where
      on_poll-Atomic :
          (r : Result Bool) (w : World Store)
          → IsCalm b.log limit w
          → Atomic pr
              (on_poll Tables empty init_schema b c p registry schema get_snapshot load
                (suc fuel)
                pr
                r
                w).0
      unfolding on_poll pure
      on_poll-Atomic (raised e) w calm = (clean, refl)
      on_poll-Atomic (ok false) w calm = (clean, (refl, refl))
      on_poll-Atomic (ok true) w calm = (update-Atomic none).at w calm

      on_found-Atomic :
          (r : Result (Option ℕ)) (w : World Store)
          → IsCalm b.log limit w
          → Atomic pr
              (on_found Tables empty init_schema b c p registry schema get_snapshot load
                (suc fuel)
                pr
                r
                w).0
      unfolding on_found pure
      on_found-Atomic (raised e) w calm = (clean, refl)
      on_found-Atomic (ok (some number)) w calm = (update-Atomic (some number)).at w calm
      on_found-Atomic (ok none) w calm =
          (Ends-attempt b.log limit {Q = Whole} _ _
              (has_new_commits-Calm (get_current_sequence Tables pr)) on_poll-Atomic).at
            w calm

      apply_updates-Whole :
          (w : World Store)
          → KeepBelow b.log limit w.turns
          → IsBelow b.log limit w.store
          → Atomic pr
              (apply_updates Tables empty init_schema b c p registry schema get_snapshot load
                (suc fuel)
                pr
                w).0
      unfolding apply_updates
      apply_updates-Whole w keep below =
          (Ends-attempt b.log limit {Q = Whole} _ _
              (find_snapshot-Calm (get_current_sequence Tables pr)) on_found-Atomic).at
            w (below, keep)

      -- While the log only grows and no commit is numbered above a limit, with fuel for the commits up
      -- to it, and whatever faults occur, an update from a state without a new file ends, and the new
      -- file is gone. When it raises, or tells that nothing was applied, the projection is as it was.
      -- When it tells that there was an update, the projection has been replaced by a database that has
      -- applied what is told: a base into which the commits after it have been folded, all that the log
      -- had when the update began. The base is a snapshot, if nothing had been applied, or else, and
      -- then there is at least one such commit, the projection that was there or a new database.
      pub apply_updates-Atomic :
          (w : World Store)
          → Respects (grows b.log) w.turns
          → KeepBelow b.log limit w.turns
          → IsBelow b.log limit w.store
          → let x =
              apply_updates Tables empty init_schema b c p registry schema get_snapshot load
                (suc fuel)
                pr
                w in
            Atomic pr x.0
            × Applies Tables empty init_schema b c p registry schema get_snapshot load pr w.store
                x.0 x.1.store
      apply_updates-Atomic w respects keep below = (
        apply_updates-Whole w keep below,
        ((apply_updates-Applies Tables empty init_schema b c p registry schema get_snapshot load pr
              w.store (suc fuel)).at
            w respects ((grows b.log).here w.store)).2,
      )
