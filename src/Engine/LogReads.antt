-- ===== src/Engine/LogReads.antt =====
-- src/cairndb/engine/logs.py: the reads of a Log, over the commits of its storage, on fuel.
use cairndb.Prelude.{
  ℕ, zero, suc, Bytes, Bool, true, false, Option, none, some, List, [], ◌∷◌, ◌++◌, ltb,
}
use cairndb.Core.Value.{Codec}
use cairndb.Core.Log.{Commit, SequencedEvent, MsgPack, from_msgpack, sequenced_events}
use cairndb.Storage.Effects.{Io, pure, lift, call, ◌>>=◌}
use cairndb.Client.Discovery.{last_number}

unfoldable pub events_in : List Commit → List SequencedEvent
events_in [] = []
events_in (x ∷ xs) = sequenced_events x ++ events_in xs

unfoldable pub within : Option ℕ → ℕ → Bool
within none number = true
within (some end_at) number = elim (ltb end_at number) [ true ↦ false | false ↦ true ]

module _ {S : Type 0} (c : Codec) (p : MsgPack) (get_commit : ℕ → S → Option Bytes) where
  unfoldable pub add_commit : Commit → Option (List Commit) → Option (List Commit)
  add_commit commit none = none
  add_commit commit (some commits) = some (commit ∷ commits)

  unfoldable pub on_bytes : Io S (Option (List Commit)) → Option Bytes → Io S (Option (List Commit))
  on_bytes again none = pure (some [])
  on_bytes again (some bytes) = do
    commit ← lift (from_msgpack c p bytes)
    rest ← again
    pure (add_commit commit rest)

  -- The commits that read_commits yields from `number` on; `none`: the fuel ran out.
  unfoldable pub read_from : ℕ → Option ℕ → ℕ → Io S (Option (List Commit))
  read_from zero end_at number = pure none
  read_from (suc f) end_at number = elim (within end_at number) [
    | false ↦ pure (some [])
    | true ↦ do
      found ← call (λ s. (get_commit number s, s))
      on_bytes (read_from f end_at (suc number)) found
  ]

  unfoldable pub read_commits : ℕ → ℕ → Option ℕ → Io S (Option (List Commit))
  read_commits fuel after end_at = read_from fuel end_at (suc after)

unfoldable pub tail_of : Option ℕ → ℕ
tail_of none = 0
tail_of (some n) = n

unfoldable pub current_tail : {S : Type 0} → (ℕ → S → List ℕ) → Io S ℕ
current_tail list_commits = do
  commits ← call (λ s. (list_commits 0 s, s))
  pure (tail_of (last_number commits))
