-- ===== src/Jobs/Snapshot/Built.antt =====
-- What a build of a snapshot puts.
use cairndb.Prelude.{
  ℕ, suc, ◌+◌, ◌<◌, Text, Bytes, ◌≡◌, refl, sym, Bool, Option, none, some, List, [], ◌∷◌,
}
use cairndb.Core.Value.{Codec}
use cairndb.Core.Log.{SequenceNumber, Commit, MsgPack}
use cairndb.Storage.LogInterface.{LogStorage}
use cairndb.Storage.Effects.{
  Result, ok, raised, World, Io, Turn, Fate, answered, unreached, cut_off, deliver, next_turn, pure,
  call, attempt, ◌>>=◌, continue,
}
use cairndb.Storage.Rely.{Rely, Respects, IsStable}
use cairndb.Committer.Log.{grows}
use cairndb.Committer.Ends.{IsBelow, KeepBelow}
use cairndb.Client.Replay.{Database, Registry, Outcome, replay}
use cairndb.Client.Replay.Ends.{Replayed, replay-Replayed}
use cairndb.Client.Replay.Folds.{last_read, fold_commits}
use cairndb.Client.Replay.Reaches.{Holds, Holds-stable, Within, Complete, replay-Reached}
use cairndb.Client.Projector.{new_database}
use cairndb.Client.Projector.Bases.{IsNew, new_database-IsNew}
use cairndb.Jobs.Snapshot.{on_put, on_replayed, build}

-- A call that is answered has taken effect on a store of which the others have kept P.
abbrev Answered : {S A : Type 0} → (S → Type 0) → (S → A × S) → Result A × World S → Type 0
Answered {S} P f (ok a, w) = (s : S) × P s × (w.store ≡ (f s).1)
Answered P f (raised e, w) = Unit {0}

call-Answered :
    {S A : Type 0} (R : Rely S) (P : S → Type 0) (f : S → A × S) (w : World S)
    → IsStable R P
    → Respects R w.turns
    → P w.store
    → Answered P f (call f w)
unfolding call
call-Answered {S} {A} R P f w stable respects p = taken w.turns respects
  where
    delivered : (w' : World S) (x : Fate) → P w'.store → Answered P f (deliver f w' x)
    delivered w' answered h = unfold deliver in (w'.store, h, refl)
    delivered w' unreached h = unfold deliver in tt
    delivered w' cut_off h = unfold deliver in tt

    taken :
        (ts : List (Turn S))
        → Respects R ts
        → Answered P f (let (w', fate) = next_turn ts w.clock w.store in deliver f w' fate)
    taken [] g =
        unfold next_turn in
        delivered (record { store = w.store; clock = w.clock; turns = [] }) answered p
    taken (t ∷ ts) g =
        unfold next_turn in
        delivered (record { store = t.others w.store; clock = t.clock; turns = ts }) t.fate
          (stable w.store (t.others w.store) (g.0 w.store) p)

module _ (Tables : Type 0) (empty : Tables) (init_schema : Option (Tables → Result Tables))
    (b : LogStorage) (c : Codec) (p : MsgPack) (registry : Registry Tables) (schema : Text)
    (dump : Database Tables → Bytes)
    (put_snapshot : Text → ℕ → Bytes → b.Store → Bool × b.Store) where
  open b use {Store}

  module _ (limit : ℕ) (s0 : Store) (end_at : Option ℕ) where
    -- The commits of the log from the first on, up to the end, folded into a new database.
    abbrev pub Stands : List Commit → Database Tables → Store → Type 0
    Stands xs d s =
        Holds Tables b c p 0 xs s
        × Within Tables b c p registry s0 end_at end_at 0 xs
        × Complete Tables b c p registry s0 end_at 0 xs
        × ((d0 : Database Tables) × IsNew Tables empty init_schema d0
            × (fold_commits Tables registry xs d0 ≡ some d))

    -- The number is that of the last of these commits, and the store is what the put of the bytes of
    -- their database under the number left of a store in which they stand.
    abbrev pub Built : Result (Option (Result ℕ)) → World Store → Type 0
    Built (ok (some (ok n))) w =
        (xs : List Commit) × (d : Database Tables) × (s : Store) × Stands xs d s
        × ((q : SequenceNumber) × (last_read none xs ≡ some q) × (q.commit ≡ n))
        × (w.store ≡ (put_snapshot schema n (dump d) s).1)
    Built (ok (some (raised e))) w = Unit {0}
    Built _ w = ⊥

    put-Built :
        (q : SequenceNumber) (xs : List Commit) (d : Database Tables)
        (x : Result Bool × World Store)
        → last_read none xs ≡ some q
        → Answered (Stands xs d) (put_snapshot schema q.commit (dump d)) x
        → Built
            (ok (
              on_put Tables empty init_schema b c p registry schema dump put_snapshot q.commit x.0))
            x.1
    unfolding on_put
    put-Built q xs d (raised e, w) h a = tt
    put-Built q xs d (ok created, w) h (s, stands, put) = (xs, d, s, stands, (q, h, refl), put)

    on_replayed-Built :
        (d0 : Database Tables) (x : Result (Option (Outcome Tables))) (w : World Store)
        → IsNew Tables empty init_schema d0
        → Respects (grows b) w.turns
        → Replayed Tables b limit c p registry s0 end_at 0 d0 x w.store
        → let y =
            continue
              (on_replayed Tables empty init_schema b c p registry schema dump put_snapshot)
              x
              w in
          Built y.0 y.1
    unfolding on_replayed pure ◌>>=◌ attempt
    on_replayed-Built d0 (raised e) w new g h = h
    on_replayed-Built d0 (ok none) w new g h = h
    on_replayed-Built d0 (ok (some (raised e, d))) w new g h = tt
    on_replayed-Built d0 (ok (some (ok none, d))) w new g h = tt
    on_replayed-Built d0 (ok (some (ok (some q), d))) w new g
          (xs, held, folded, within, (last, complete)) =
        put-Built q xs d (call (put_snapshot schema q.commit (dump d)) w) (sym last) (
          call-Answered (grows b) (Stands xs d) (put_snapshot schema q.commit (dump d)) w
            (λ s t r k. (Holds-stable Tables b c p 0 xs s t r k.0, k.1, k.2, k.3)) g
            (held, within, complete, (d0, new, folded)))

  -- While the log only grows and no commit is numbered above a limit, with fuel for the commits up to
  -- it, and whatever faults occur, a build ends. When it returns a number, its put under this number has
  -- been answered, of the bytes of a new database into which the commits of the log have been folded, from
  -- the first one to the one of the number, none beyond `end_at`; and the next number is beyond it, or had
  -- no commit when the build began.
  pub build-Built :
      (limit fuel : ℕ) (end_at : Option ℕ) (w : World Store)
      → limit < fuel + 1
      → Respects (grows b) w.turns
      → KeepBelow b limit w.turns
      → IsBelow b limit w.store
      → let x =
          build Tables empty init_schema b c p registry schema dump put_snapshot
            (suc fuel)
            end_at
            w in
        Built limit w.store end_at x.0 x.1
  unfolding build
  build-Built limit fuel end_at w enough respects keep below =
      from_base (new_database Tables empty init_schema)
        (new_database-IsNew Tables empty init_schema)
    where
      from_base :
          (r : Result (Database Tables))
          → ((d : Database Tables) → r ≡ ok d → IsNew Tables empty init_schema d)
          → let x =
              (elim r as (λ y. Io Store (Option (Result ℕ))) [
                | raised e ↦ pure (some (raised e))
                | ok d ↦
                    replay Tables b c p registry (suc fuel) d 0 end_at
                    >>= on_replayed Tables empty init_schema b c p registry schema dump put_snapshot
              ])
                w in
            Built limit w.store end_at x.0 x.1
      from_base (raised e) new = unfold pure in tt
      from_base (ok d) new =
          unfold ◌>>=◌ in
          let x = replay Tables b c p registry (suc fuel) d 0 end_at w in
          on_replayed-Built limit w.store end_at d x.0 x.1 (new d refl)
            ((replay-Reached Tables b c p registry w.store end_at (suc fuel) 0 d).at w respects
              ((grows b).here w.store)).1
            (replay-Replayed Tables b limit c p registry fuel 0 end_at d w enough respects keep
              below)
