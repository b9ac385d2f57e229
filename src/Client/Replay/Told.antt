-- ===== src/Client/Replay/Told.antt =====
-- What a replay tells, whatever the others and the faults do.
use cairndb.Prelude.{ℕ, zero, suc, Bytes, ◌≡◌, refl, Bool, true, false, Option, none, some, arith}
use cairndb.Core.Value.{Codec}
use cairndb.Core.Log.{Commit, MsgPack, from_msgpack, last_sequence}
use cairndb.Storage.LogInterface.{LogStorage}
use cairndb.Storage.Effects.{Result, ok, raised, World, pure, call, attempt, ◌>>=◌}
use cairndb.Client.Replay.{
  Database, Registry, apply_commit, Progress, Outcome, Rest, on_applied, on_commit, on_data,
  goes_on, replay_step, replay_loop,
}

module _ (Tables : Type 0) where
  -- A replay that applies nothing leaves the database, and one that tells a sequence number has
  -- recorded it.
  abbrev pub Told : Database Tables → Result (Option (Outcome Tables)) → Type 0
  Told start (ok (some (ok (some q), d))) = d.last_applied ≡ some q
  Told start (ok (some (ok none, d))) = d ≡ start
  Told start (raised e) = ⊥
  Told start x = Unit {0}

  abbrev Known : Database Tables → Progress Tables → Type 0
  Known start pr = Told start (ok (some (ok pr.last, pr.db)))

  module _ (b : LogStorage) (c : Codec) (p : MsgPack) (registry : Registry Tables)
      (start : Database Tables) where
    open b use {Store}

    abbrev AllTell : Rest Tables b c p registry → Type 0
    AllTell again =
        (pr : Progress Tables) (w : World Store) → Known start pr → Told start (again pr w).0

    recorded :
        (commit : Commit) (d d' : Database Tables) (u : Unit {0})
        → apply_commit Tables registry commit d ≡ (ok u, d')
        → d'.last_applied ≡ some (last_sequence commit)
    unfolding apply_commit
    recorded commit d d' u h = ground (arith, h)

    on_commit-Told :
        (again : Rest Tables b c p registry) (pr : Progress Tables) (r : Result Commit)
        (w : World Store)
        → AllTell again
        → Told start (on_commit Tables b c p registry again pr r w).0
    unfolding on_commit on_applied pure
    on_commit-Told again pr (raised e) w h = tt
    on_commit-Told again pr (ok x) w h = applied (apply_commit Tables registry x pr.db) refl
      where
        applied :
            (a : Result (Unit {0}) × Database Tables)
            → apply_commit Tables registry x pr.db ≡ a
            → Told start (on_applied Tables b c p registry again x pr a w).0
        applied (raised e, d) e' = tt
        applied (ok u, d) e' =
            h (record { db = d; last = some (last_sequence x) }) w (recorded x pr.db d u e')

    on_data-Told :
        (again : Rest Tables b c p registry) (pr : Progress Tables) (r : Result (Option Bytes))
        (w : World Store)
        → AllTell again
        → Known start pr
        → Told start (on_data Tables b c p registry again pr r w).0
    unfolding on_data pure
    on_data-Told again pr (raised e) w h k = tt
    on_data-Told again pr (ok none) w h k = k
    on_data-Told again pr (ok (some bytes)) w h k =
        on_commit-Told again pr (from_msgpack c p bytes) w h

    replay_step-Told :
        (on : Bool) (n : ℕ) (again : Rest Tables b c p registry) (pr : Progress Tables)
        (w : World Store)
        → AllTell again
        → Known start pr
        → Told start (replay_step Tables b c p registry on n again pr w).0
    unfolding replay_step pure ◌>>=◌ attempt
    replay_step-Told false n again pr w h k = k
    replay_step-Told true n again pr w h k =
        let x = call (λ s. (b.get_commit n s, s)) w in on_data-Told again pr x.0 x.1 h k

    pub replay_loop-Told :
        (f : ℕ) (end_at : Option ℕ) (n : ℕ) → AllTell (replay_loop Tables b c p registry f end_at n)
    unfolding replay_loop pure
    replay_loop-Told zero end_at n = λ pr w k. tt
    replay_loop-Told (suc f) end_at n = λ pr w k.
        replay_step-Told (goes_on Tables b c p registry end_at n) n
          (replay_loop Tables b c p registry f end_at (suc n)) pr w
          (replay_loop-Told f end_at (suc n)) k
