-- ===== src/Jobs/Gc/Retention.antt =====
-- What a garbage collection keeps.
use cairndb.Prelude.{ℕ, ◌≤◌, ◌<◌, Text, ◌≡◌, Option, none, some, All}
use cairndb.Jobs.Gc.{RetainedStorage}

module _ (b : RetainedStorage) (schema : Text) where
  abbrev Store : Type 0
  Store = b.log.Store

  -- Every snapshot that is left still has all the commits after it.
  abbrev pub Replayable : Store → Store → Type 0
  Replayable s s' =
      All (λ n. (m : ℕ) → n < m → b.log.get_commit m s' ≡ b.log.get_commit m s)
        (b.list_snapshots schema s')

  -- What pruning is told of the store that it starts from.
  abbrev Oldest : Option ℕ → Store → Type 0
  Oldest none s = Unit {0}
  Oldest (some oldest) s = All (λ n. oldest ≤ n) (b.list_snapshots schema s)
