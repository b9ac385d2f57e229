-- ===== src/Client/Replay/Ends.antt =====
-- A replay comes to an end: fuel for every commit up to a limit is enough.
use cairndb.Prelude.{
  ℕ, zero, suc, ◌+◌, ◌<◌, Bytes, ◌≡◌, Bool, true, false, Option, none, some, List, ◌∙◌, arith,
}
use cairndb.Core.Value.{Codec}
use cairndb.Core.Log.{SequenceNumber, Commit, MsgPack, from_msgpack, last_sequence}
use cairndb.Storage.LogInterface.{LogStorage}
use cairndb.Storage.Effects.{Result, ok, raised, World, pure}
use cairndb.Storage.Rely.{Respects}
use cairndb.Committer.Log.{grows}
use cairndb.Committer.Ends.{
  IsBelow, KeepBelow, IsCalm, Ends, Ended, Ends-attempt, Ends-call, Ends-pure,
}
use cairndb.Client.Replay.{
  Database, Registry, apply_commit, Progress, Outcome, Rest, on_applied, on_commit, on_data,
  goes_on, replay_step, replay_loop, replay,
}
use cairndb.Client.Replay.Reaches.{Reached, Returns, Complete, Within, Holds, replay-Reached}
use cairndb.Client.Replay.Folds.{last_read, last_from-last_read, fold_commits, apply_all-fold}

module _ (Tables : Type 0) (b : LogStorage) (limit : ℕ) (c : Codec) (p : MsgPack)
    (registry : Registry Tables) where
  open b use {Store}

  abbrev AllEnd : Rest Tables b c p registry → Type 0
  AllEnd again = (pr : Progress Tables) → Ends b limit (again pr) (Ended b limit)

  on_commit-Ended :
      (again : Rest Tables b c p registry) (pr : Progress Tables) (r : Result Commit)
      → AllEnd again
      → Ends b limit (on_commit Tables b c p registry again pr r) (Ended b limit)
  unfolding on_commit on_applied
  on_commit-Ended again pr (raised e) h = Ends-pure b limit _ (λ w calm. tt)
  on_commit-Ended again pr (ok x) h = applied (apply_commit Tables registry x pr.db)
    where
      applied :
          (a : Result (Unit {0}) × Database Tables)
          → Ends b limit (on_applied Tables b c p registry again x pr a) (Ended b limit)
      applied (raised e, db) = Ends-pure b limit _ (λ w calm. tt)
      applied (ok u, db) = h (record { db = db; last = some (last_sequence x) })

  -- A read above the limit finds nothing.
  abbrev Data : Type 0 → Result (Option Bytes) → World Store → Type 0
  Data Above (ok (some bytes)) w = IsCalm b limit w × (Above → ⊥)
  Data Above x w = Unit {0}

  on_data-Ended :
      (Above : Type 0) (again : Rest Tables b c p registry) (pr : Progress Tables)
      (r : Result (Option Bytes)) (w : World Store)
      → ((Above → ⊥) → AllEnd again)
      → Data Above r w
      → Ended b limit
          (on_data Tables b c p registry again pr r w).0
          (on_data Tables b c p registry again pr r w).1
  unfolding on_data pure
  on_data-Ended Above again pr (raised e) w h q = tt
  on_data-Ended Above again pr (ok none) w h q = tt
  on_data-Ended Above again pr (ok (some bytes)) w h q =
      (on_commit-Ended again pr (from_msgpack c p bytes) (h q.1)).at w q.0

  replay_step-Ended :
      (n : ℕ) (on : Bool) (again : Rest Tables b c p registry) (pr : Progress Tables)
      → ((limit < n → ⊥) → AllEnd again)
      → Ends b limit (replay_step Tables b c p registry on n again pr) (Ended b limit)
  unfolding replay_step
  replay_step-Ended n false again pr h = Ends-pure b limit _ (λ w calm. tt)
  replay_step-Ended n true again pr h =
      Ends-attempt b limit {P = Data (limit < n)} _ (on_data Tables b c p registry again pr)
        (Ends-call b limit _ (λ w calm. found w (b.get_commit n w.store) calm (λ l. calm.0 n l))
          (λ w calm. tt) (λ w calm. tt))
        (λ r w. on_data-Ended (limit < n) again pr r w h)
    where
      found :
          (w : World Store) (o : Option Bytes)
          → IsCalm b limit w
          → (limit < n → o ≡ none)
          → Data (limit < n) (ok o) w
      found w none calm none_above = tt
      found w (some x) calm none_above = (calm, λ l. absurd (ground (arith, none_above l)))

  pub replay_loop-Ended :
      (f n : ℕ) (end_at : Option ℕ) (pr : Progress Tables)
      → limit < f + n
      → Ends b limit (replay_loop Tables b c p registry (suc f) end_at n pr) (Ended b limit)
  unfolding replay_loop
  replay_loop-Ended zero n end_at pr enough =
      replay_step-Ended n (goes_on Tables b c p registry end_at n)
        (replay_loop Tables b c p registry zero end_at (suc n)) pr
        (λ below. absurd (below (omega (arith, enough))))
  replay_loop-Ended (suc f) n end_at pr enough =
      replay_step-Ended n (goes_on Tables b c p registry end_at n)
        (replay_loop Tables b c p registry (suc f) end_at (suc n)) pr
        (λ below pr'. replay_loop-Ended f (suc n) end_at pr' (omega (arith, enough)))

  -- What a replay that started from the store `s0` returns: the sequence number of the last event
  -- applied, if there is any; and it stopped where there was no commit at the start, or at its end.
  abbrev pub Returned : Store → Option ℕ → ℕ → List Commit → Result (Option SequenceNumber) → Type 0
  Returned s0 end_at after xs (ok q) =
      (q ≡ last_read none xs) × Complete Tables b c p registry s0 end_at after xs
  Returned s0 end_at after xs (raised e) = Unit {0}

  -- A replay that has an outcome: the commits that follow `after`, which stand in the log, have been
  -- folded into the database.
  abbrev pub Replayed :
      Store → Option ℕ → ℕ → Database Tables → Result (Option (Outcome Tables)) → Store → Type 0
  Replayed s0 end_at after db (ok (some (r, d))) s =
      (xs : List Commit) × Holds Tables b c p after xs s
      × (fold_commits Tables registry xs db ≡ some d)
      × Within Tables b c p registry s0 end_at end_at after xs
      × Returned s0 end_at after xs r
  Replayed s0 end_at after db _ s = ⊥

  Returned-intro :
      (s0 : Store) (end_at : Option ℕ) (after : ℕ) (xs : List Commit)
      (r : Result (Option SequenceNumber))
      → Returns Tables b c p registry s0 end_at after none xs r
      → Returned s0 end_at after xs r
  Returned-intro s0 end_at after xs (ok q) h = (h.0 ∙ last_from-last_read Tables none xs, h.1)
  Returned-intro s0 end_at after xs (raised e) h = tt

  Replayed-intro :
      (s0 : Store) (end_at : Option ℕ) (after : ℕ) (db : Database Tables)
      (x : Result (Option (Outcome Tables))) (w : World Store)
      → Reached Tables b c p registry s0 end_at after (record { db = db; last = none }) x w.store
      → Ended b limit x w
      → Replayed s0 end_at after db x w.store
  Replayed-intro s0 end_at after db (raised e) w h q = h
  Replayed-intro s0 end_at after db (ok none) w h q = q
  Replayed-intro s0 end_at after db (ok (some (r, d))) w (xs, held, folded, within, returned) q = (
    xs,
    held,
    apply_all-fold Tables registry xs db d folded,
    within,
    Returned-intro s0 end_at after xs r returned,
  )

  -- While the log only grows and no commit is numbered above the limit, and whatever faults occur, a
  -- replay with fuel for the commits up to the limit ends with an outcome. The database is then what it
  -- becomes when commits that follow `after` in the log, without a gap and none beyond `end_at`, are
  -- applied: each of their events in its order, by the handler of its type if there is one, the last one
  -- remembered as the last applied. If no exception is returned, the sequence number of the last event
  -- of the last of these commits is, if there is any; and they go on to `end_at`, or to a number at which
  -- the log had no commit when the replay began.
  pub replay-Replayed :
      (fuel after : ℕ) (end_at : Option ℕ) (db : Database Tables) (w : World Store)
      → limit < fuel + suc after
      → Respects (grows b) w.turns
      → KeepBelow b limit w.turns
      → IsBelow b limit w.store
      → let x = replay Tables b c p registry (suc fuel) db after end_at w in
        Replayed w.store end_at after db x.0 x.1.store
  unfolding replay
  replay-Replayed fuel after end_at db w enough respects keep below =
      Replayed-intro w.store end_at after db x.0 x.1
        ((replay-Reached Tables b c p registry w.store end_at (suc fuel) after db).at w respects
          ((grows b).here w.store)).2
        ((replay_loop-Ended fuel (suc after) end_at (record { db = db; last = none }) enough).at w
          (below, keep))
    where
      x : Result (Option (Outcome Tables)) × World Store
      x = replay Tables b c p registry (suc fuel) db after end_at w
