-- ===== src/Client/Projector/Bases.antt =====
-- A database that an update or a build starts from when there is none.
use cairndb.Prelude.{◌≡◌, Option, none, some, arith}
use cairndb.Core.Results
use cairndb.Storage.Effects.{Result, ok, raised}
use cairndb.Client.Replay.{Database}
use cairndb.Client.Projector.{new_database}

-- A new database: the empty tables, or what the application's schema makes of them; nothing applied.
abbrev pub IsNew :
    (Tables : Type 0) → Tables → Option (Tables → Result Tables) → Database Tables → Type 0
IsNew Tables empty none d = (d.last_applied ≡ none) × (d.tables ≡ empty)
IsNew Tables empty (some f) d = (d.last_applied ≡ none) × (f empty ≡ ok d.tables)

pub new_database-IsNew :
    (Tables : Type 0) (empty : Tables) (init_schema : Option (Tables → Result Tables))
    (d : Database Tables)
    → new_database Tables empty init_schema ≡ ok d
    → IsNew Tables empty init_schema d
unfolding new_database
new_database-IsNew Tables empty none d h = ground (arith, h)
new_database-IsNew Tables empty (some f) d h = made (f empty) h
  where
    made :
        (r : Result Tables)
        → Results.◌>>=◌ r (λ t. ok (record { tables = t; last_applied = none })) ≡ ok d
        → (d.last_applied ≡ none) × (r ≡ ok d.tables)
    made (ok t) e = ground (arith, e)
    made (raised x) e = absurd (ground (arith, e))
