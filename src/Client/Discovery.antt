-- ===== src/Client/Discovery.antt =====
-- src/cairndb/client/discovery.py: the latest snapshot, and the poll for new commits.
pub mod Dense
use cairndb.Prelude.{ℕ, suc, Text, Bytes, Bool, true, false, Option, none, some, List, [], ◌∷◌}
use cairndb.Core.Log.{SequenceNumber}
use cairndb.Storage.LogInterface.{LogStorage}
use cairndb.Storage.Effects.{Io, pure, call, ◌>>=◌}
use cairndb.Jobs.Gc.{RetainedStorage}

-- numbers[-1] if numbers else None
unfoldable pub last_number : List ℕ → Option ℕ
last_number [] = none
last_number (n ∷ []) = some n
last_number (n ∷ m ∷ ns) = last_number (m ∷ ns)

unfoldable pub find_latest_snapshot : (b : RetainedStorage) → Text → Io b.log.Store (Option ℕ)
find_latest_snapshot b schema = do
  numbers ← call (λ s. (b.list_snapshots schema s, s))
  pure (last_number numbers)

unfoldable pub next_number : Option SequenceNumber → ℕ
next_number none = 1
next_number (some current) = suc current.commit

-- data is not None
unfoldable pub is_present : Option Bytes → Bool
is_present none = false
is_present (some x) = true

unfoldable pub has_new_commits : (b : LogStorage) → Option SequenceNumber → Io b.Store Bool
has_new_commits b current = do
  found ← call (λ s. (b.get_commit (next_number current) s, s))
  pure (is_present found)
