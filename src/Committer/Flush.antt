-- ===== src/Committer/Flush.antt =====
-- src/cairndb/committer.py: the queue of pending events and the flusher task. The flusher is the only
-- one that takes from the queue, and an append only adds to it, so a turn of the flusher's loop is one
-- step on the queue and its batch runs apart from it.
pub mod Sets
pub mod Append
use cairndb.Prelude.{
  ℕ, zero, suc, ◌+◌, Bool, true, false, Option, none, some, List, [], ◌∷◌, ◌++◌, ◌==◌, ◌||◌,
  if◌then◌else◌,
}
use cairndb.Core.Value.{Codec}
use cairndb.Core.Log.{Event, SequenceNumber, MsgPack}
use cairndb.Storage.LogInterface.{LogStorage}
use cairndb.Storage.Effects.{Result, ok, raised, Error, commit_error, Io, pure, ◌>>=◌}
use cairndb.Committer.{
  CommitterConfig, Pending, Resolution, Committer, Step, Hook, fail_all, resolve, commit_batch,
}

-- `created` counts the futures made so far.
pub record Flusher : Type 0 where
  pub committer : Committer
  pub pending : List Pending
  pub closed : Bool
  pub created : ℕ

-- A future for each event.
unfoldable pub pend : ℕ → List Event → List Pending
pend n [] = []
pend n (e ∷ es) = record { event = e; future = n } ∷ pend (suc n) es

unfoldable pub count : List Event → ℕ
count [] = 0
count (e ∷ es) = suc (count es)

-- append_many, until it waits: the pendings whose futures it gathers.
unfoldable pub append_many : List Event → Flusher → Result (List Pending) × Flusher
append_many es fl = if fl.closed then (raised commit_error, fl) else (
  ok (pend fl.created es),
  record fl { pending = fl.pending ++ pend fl.created es; created = fl.created + count es },
)

-- What a future was set to.
unfoldable pub outcome : ℕ → List Resolution → Option (Result SequenceNumber)
outcome f [] = none
outcome f (r ∷ rs) = if r.future == f then some r.value else outcome f rs

unfoldable pub with_sequence :
    Result SequenceNumber → Result (List SequenceNumber) → Result (List SequenceNumber)
with_sequence (raised e) rest = raised e
with_sequence (ok q) (raised e) = raised e
with_sequence (ok q) (ok qs) = ok (q ∷ qs)

-- The rest of append_many, when every future has been set: the first exception, or the results.
unfoldable pub gather : List Pending → List Resolution → Option (Result (List SequenceNumber))
gather [] rs = some (ok [])
gather (p ∷ ps) rs = elim (outcome p.future rs) [
  | none ↦ none
  | some value ↦ elim (gather ps rs) [ none ↦ none | some rest ↦ some (with_sequence value rest) ]
]

unfoldable pub close : Flusher → Flusher
close fl = record fl { closed = true }

-- popleft, at most `n` times: the batch and the queue that is left.
unfoldable pub take_batch : ℕ → List Pending → List Pending × List Pending
take_batch zero ps = ([], ps)
take_batch (suc n) [] = ([], [])
take_batch (suc n) (p ∷ ps) = let (batch, rest) = take_batch n ps in (p ∷ batch, rest)

-- pending.future.done()
unfoldable pub done : ℕ → List Resolution → Bool
done f [] = false
done f (r ∷ rs) = r.future == f || done f rs

unfoldable pub unfinished : List Resolution → List Pending → List Pending
unfinished rs [] = []
unfinished rs (p ∷ ps) = let rest = unfinished rs ps in if done p.future rs then rest else p ∷ rest

-- The `except` clause of _run.
unfoldable pub recover : List Pending → Step (Unit {0}) → Committer
recover batch (ok x, cm) = cm
recover batch (raised e, cm) = resolve cm (fail_all commit_error (unfinished cm.resolved batch))

module _ (b : LogStorage) (c : Codec) (p : MsgPack) (config : CommitterConfig) (hook : Option Hook)
    (fuel : ℕ) where
  open b use {Store}

  unfoldable pub finish_batch :
      Flusher → List Pending → List Pending → Option (Step (Unit {0})) → Io Store (Option Flusher)
  finish_batch fl batch rest none = pure none
  finish_batch fl batch rest (some step) =
      pure (some (record fl { committer = recover batch step; pending = rest }))

  -- One turn of the loop of _run, on a queue that is not empty.
  unfoldable pub flush : Flusher → Io Store (Option Flusher)
  flush fl = do
    step ←
        commit_batch b c p config hook fuel fl.committer
          (take_batch config.max_events_per_commit fl.pending).0
    finish_batch fl (take_batch config.max_events_per_commit fl.pending).0
        (take_batch config.max_events_per_commit fl.pending).1 step
