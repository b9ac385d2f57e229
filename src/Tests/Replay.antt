-- ===== src/Tests/Replay.antt =====
-- A replay of the log of Tests/Log.antt, with one handler.
use cairndb.Prelude.{ℕ, codes, refl, none, List, [], ◌∷◌, inl, arith}
use cairndb.Storage.Effects.{ok}
use cairndb.Committer.Log.{put-grows}
use cairndb.Client.Registry.Lookup.{Registered, Unregistered, registry-look_up}
use cairndb.Client.Registry.{register, unregister}
use cairndb.Client.Replay.{Database, Registry, EventHandler, replay}
use cairndb.Client.Replay.Ends.{Replayed, replay-Replayed}
use cairndb.Tests.Codec.Instances.{codec, msgpack}
use cairndb.Tests.Log.{log, winner_bytes, start, race-IsBelow, empty-IsBelow}

-- The events' times, the latest first.
abbrev pub Times : Type 0
Times = List ℕ

abbrev pub keep_time : EventHandler Times
keep_time times e = ok (e.event.timestamp ∷ times)

abbrev pub registry : Registry Times
registry = (codes "order_placed", keep_time) ∷ []

abbrev blank : Database Times
blank = record { tables = []; last_applied = none }

replay-Replayed_example :
    let x = replay Times log codec msgpack registry 2 blank 0 none start in
    Replayed Times log 1 codec msgpack registry start.store none 0 blank x.0 x.1.store
replay-Replayed_example =
    replay-Replayed Times log 1 codec msgpack registry 1 0 none blank start (omega arith)
      ((λ s. put-grows log 0 winner_bytes s (inl refl)), tt) (race-IsBelow, tt) empty-IsBelow

registry-look_up_example :
    Registered
      (codes "order_paid")
      keep_time
      registry
      (codes "order_placed")
      (register (codes "order_paid") keep_time registry)
    × Unregistered
        (codes "order_paid")
        registry
        (codes "order_placed")
        (unregister (codes "order_paid") registry)
registry-look_up_example =
    registry-look_up (codes "order_paid") (codes "order_placed") keep_time registry
