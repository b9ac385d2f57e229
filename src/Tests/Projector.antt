-- ===== src/Tests/Projector.antt =====
-- An update of a projection, a turn of the updater and the build of a snapshot, while another writer
-- puts commit 1.
use cairndb.Prelude.{
  ℕ, Text, Bytes, codes, refl, inl, Bool, true, false, Option, none, [], ◌∷◌, arith,
}
use cairndb.Storage.Effects.{Result, raised, decode_error, World, answered}
use cairndb.Committer.Log.{grows, put-grows}
use cairndb.Storage.Rely.{Respects}
use cairndb.Client.Projector.Applies.{Applies}
use cairndb.Client.Replay.{Database}
use cairndb.Client.Projector.{Projection, apply_updates}
use cairndb.Client.Projector.Atomic.{Atomic, apply_updates-Atomic}
use cairndb.Client.Updater.{Updater, update_turn}
use cairndb.Client.Updater.Turns.{Served, update_turn-Served}
use cairndb.Jobs.Snapshot.{build}
use cairndb.Jobs.Snapshot.Built.{Built, build-Built}
use cairndb.Tests.Codec.Instances.{codec, msgpack}
use cairndb.Tests.Gc.{Kept, retained}
use cairndb.Tests.Log.{log, Slots, fill, winner_bytes, start, race-IsBelow, empty-IsBelow}
use cairndb.Tests.Replay.{Times, registry}

abbrev kept_start : World Kept
kept_start = record {
  store = ([], ([], tt));
  clock = 5;
  turns =
      record { others = λ s. ((fill 1 winner_bytes s.0).1, s.1); clock = 6; fate = answered } ∷ [];
}

kept_grows : Respects (grows retained.log) kept_start.turns
kept_grows = ((λ s. put-grows log 0 winner_bytes s.0 (inl refl)), tt)

abbrev no_snapshot : Text → ℕ → Kept → Option Bytes
no_snapshot schema number s = none

abbrev load : Bytes → Result (Database Times)
load bytes = raised decode_error

abbrev nothing : Projection Times
nothing = record { db = none; new_db = none }

apply_updates-Atomic_example :
    let x =
      apply_updates Times [] none retained codec msgpack registry
        (codes "1")
        no_snapshot
        load
        3
        nothing
        kept_start in
    Atomic Times nothing x.0
    × Applies Times [] none retained codec msgpack registry
        (codes "1")
        no_snapshot
        load
        nothing
        kept_start.store
        x.0
        x.1.store
apply_updates-Atomic_example =
    apply_updates-Atomic Times [] none retained codec msgpack registry (codes "1") no_snapshot load
      1 2 (omega arith) nothing refl kept_start kept_grows ((λ s. race-IsBelow s.0), tt)
      empty-IsBelow

abbrev updater : Updater Times
updater = record { projection = nothing; running = true; update_count = 0 }

update_turn-Served_example :
    let x =
      update_turn Times [] none retained codec msgpack registry
        (codes "1")
        no_snapshot
        load
        3
        updater
        kept_start in
    Served Times [] none retained codec msgpack registry
      (codes "1")
      no_snapshot
      load
      updater
      kept_start.store
      x.0
      x.1.store
update_turn-Served_example =
    update_turn-Served Times [] none retained codec msgpack registry (codes "1") no_snapshot load 1
      2 updater kept_start (omega arith) refl kept_grows ((λ s. race-IsBelow s.0), tt) empty-IsBelow

abbrev dump : Database Times → Bytes
dump d = d.tables

-- The log of Tests/Log.antt keeps no snapshots.
abbrev keep_none : Text → ℕ → Bytes → Slots → Bool × Slots
keep_none schema number bytes s = (false, s)

build-Built_example :
    let x =
      build Times [] none log codec msgpack registry (codes "1") dump keep_none 3 none start in
    Built Times [] none log codec msgpack registry
      (codes "1")
      dump
      keep_none
      1
      start.store
      none
      x.0
      x.1
build-Built_example =
    build-Built Times [] none log codec msgpack registry (codes "1") dump keep_none 1 2 none start
      (omega arith) ((λ s. put-grows log 0 winner_bytes s (inl refl)), tt) (race-IsBelow, tt)
      empty-IsBelow
