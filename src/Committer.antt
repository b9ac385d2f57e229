-- ===== src/Committer.antt =====
-- src/cairndb/committer.py: the commit protocol. A future is the number of its append call, and what it
-- is set to is recorded in order.
pub mod Log
pub mod Fetch
pub mod Batch
pub mod Loop
pub mod Ends
pub mod Durable
pub mod Futures
pub mod Once
pub mod Flush
use cairndb.Prelude.{
  ℕ, zero, suc, ◌+◌, Text, Bytes, Bool, true, false, Option, none, some, List, [], ◌∷◌, ◌++◌,
  length, ltb, ◌==◌, if◌then◌else◌,
}
use cairndb.Core.Value.{Codec}
use cairndb.Core.Log.{Event, Commit, SequenceNumber, MsgPack, to_msgpack, from_msgpack, make_commit}
use cairndb.Storage.LogInterface.{LogStorage}
use cairndb.Storage.Effects.{
  Result, ok, raised, Error, commit_error, event_rejected, Io, pure, raise, lift, now, call,
  attempt, ◌>>=◌, ◌>>◌,
}

pub record CommitterConfig : Type 0 where
  pub max_events_per_commit : ℕ
  pub max_commit_attempts : ℕ
  pub tail_hint : ℕ

pub record Pending : Type 0 where
  pub event : Event
  pub future : ℕ

pub record Resolution : Type 0 where
  pub future : ℕ
  pub value : Result SequenceNumber

-- `_tail`, and the futures that have been set, the latest first.
pub record Committer : Type 0 where
  pub tail : Option ℕ
  pub resolved : List Resolution

-- What a step that may raise leaves.
abbrev pub Step : Type 0 → Type 0
Step A = Result A × Committer

-- The revalidate hook: the events to commit in place of the pending ones, or None for each rejected.
abbrev pub Hook : Type 0
Hook = List Event → List Commit → Result (List (Option Event))

unfoldable pub fail_all : Error → List Pending → List Resolution
fail_all e [] = []
fail_all e (p ∷ ps) = record { future = p.future; value = raised e } ∷ fail_all e ps

-- `for index, pending in enumerate(pendings): pending.future.set_result(…)`
unfoldable pub succeed_from : ℕ → ℕ → List Pending → List Resolution
succeed_from number i [] = []
succeed_from number i (p ∷ ps) =
    record { future = p.future; value = ok (record { commit = number; index = i }) }
    ∷ succeed_from number (suc i) ps

abbrev pub resolve : Committer → List Resolution → Committer
resolve cm rs = record cm { resolved = rs ++ cm.resolved }

abbrev pub events_of : List Pending → List Event
events_of [] = []
events_of (p ∷ ps) = p.event ∷ events_of ps

-- max(commits, default=hint)
unfoldable pub max_of : ℕ → List ℕ → ℕ
max_of d [] = d
max_of d (n ∷ []) = n
max_of d (n ∷ m ∷ ns) = let rest = max_of d (m ∷ ns) in if ltb rest n then n else rest

-- The pendings that the hook keeps, and the futures of those that it rejects.
unfoldable pub sort_out : List Pending → List (Option Event) → List Pending × List Resolution
sort_out (p ∷ ps) (none ∷ ds) =
    let (kept, failed) = sort_out ps ds in
    (kept, record { future = p.future; value = raised event_rejected } ∷ failed)
sort_out (p ∷ ps) (some e ∷ ds) =
    let (kept, failed) = sort_out ps ds in (record p { event = e } ∷ kept, failed)
sort_out ps ds = ([], [])

-- _apply_revalidation: the hook's exception, or a wrong number of decisions, is raised.
unfoldable pub apply_revalidation :
    Hook → Committer → List Pending → List Commit → Step (List Pending)
unfolding sort_out
apply_revalidation hook cm ps interleaved = elim (hook (events_of ps) interleaved) [
  | raised e ↦ (raised e, cm)
  | ok decisions ↦
      if length decisions == length ps
      then (let (kept, failed) = sort_out ps decisions in (ok kept, resolve cm failed))
      else (raised commit_error, cm)
]

module _ (b : LogStorage) (c : Codec) (p : MsgPack) (config : CommitterConfig) where
  open b use {Store}

  -- The tail that _next_number goes by, which it discovers on first use; the number is the next.
  unfoldable pub discover : Committer → Result (List ℕ) → Io Store (Step ℕ)
  discover cm (raised e) = pure (raised e, cm)
  discover cm (ok ns) =
      pure (ok (max_of config.tail_hint ns), record cm { tail = some (max_of config.tail_hint ns) })

  unfoldable pub known_tail : Committer → Io Store (Step ℕ)
  known_tail cm = elim cm.tail [
    | some tail ↦ pure (ok tail, cm)
    | none ↦ do
      commits ← attempt (call (λ s. (b.list_commits config.tail_hint s, s)))
      discover cm commits
  ]

  -- The reads of _advance_tail, on fuel: the commits from `number` on until a gap. `none`: the fuel
  -- ran out.
  unfoldable pub keep_commit : Commit → Option (List Commit) → Option (List Commit)
  keep_commit commit none = none
  keep_commit commit (some commits) = some (commit ∷ commits)

  unfoldable pub on_found :
      Io Store (Option (List Commit)) → Option Bytes → Io Store (Option (List Commit))
  on_found again none = pure (some [])
  on_found again (some bytes) = do
    commit ← lift (from_msgpack c p bytes)
    rest ← again
    pure (keep_commit commit rest)

  unfoldable pub fetch : ℕ → ℕ → Io Store (Option (List Commit))
  fetch zero number = pure none
  fetch (suc f) number = do
    found ← call (λ s. (b.get_commit number s, s))
    on_found (fetch f (suc number)) found

  module _ (hook : Option Hook) (fuel : ℕ) where
    -- How the rest of the attempts goes on, from a committer and the pendings that are left.
    abbrev pub Attempts : Type 0
    Attempts = Committer → List Pending → Io Store (Option (Step (Unit {0})))

    unfoldable pub go_on : Attempts → Step (List Pending) → Io Store (Option (Step (Unit {0})))
    go_on again (raised e, cm) = pure (some (raised e, cm))
    go_on again (ok [], cm) = pure (some (ok tt, cm))
    go_on again (ok (q ∷ qs), cm) = again cm (q ∷ qs)

    unfoldable pub revalidate :
        Option Hook
        → Attempts
        → Committer
        → List Pending
        → List Commit
        → Io Store (Option (Step (Unit {0})))
    revalidate none again cm ps interleaved = again cm ps
    revalidate (some h) again cm ps interleaved =
        go_on again (apply_revalidation h cm ps interleaved)

    -- After a lost race: `k` was the tail, and the put was for the number after it.
    unfoldable pub after_lost :
        Attempts
        → Committer
        → List Pending
        → ℕ
        → Result (Option (List Commit))
        → Io Store (Option (Step (Unit {0})))
    after_lost again cm ps k (raised e) = pure (some (raised e, cm))
    after_lost again cm ps k (ok none) = pure none
    after_lost again cm ps k (ok (some [])) = again cm ps
    after_lost again cm ps k (ok (some (x ∷ xs))) =
        revalidate hook again (record cm { tail = some (k + length (x ∷ xs)) }) ps (x ∷ xs)

    unfoldable pub after_put :
        Attempts → Committer → List Pending → ℕ → Result Bool → Io Store (Option (Step (Unit {0})))
    after_put again cm ps k (raised e) = pure (some (ok tt, resolve cm (fail_all e ps)))
    after_put again cm ps k (ok true) =
        pure (some (ok tt, resolve (record cm { tail = some (suc k) }) (succeed_from (suc k) 0 ps)))
    after_put again cm ps k (ok false) = do
      interleaved ← attempt (fetch fuel (suc k))
      after_lost again cm ps k interleaved

    unfoldable pub try_commit :
        Attempts
        → Committer
        → List Pending
        → ℕ
        → Result Commit
        → Io Store (Option (Step (Unit {0})))
    try_commit again cm ps k (raised e) = pure (some (raised e, cm))
    try_commit again cm ps k (ok commit) = do
      won ← attempt (call (b.put_commit (suc k) (to_msgpack c p commit)))
      after_put again cm ps k won

    unfoldable pub at_number :
        Attempts → List Pending → Step ℕ → Io Store (Option (Step (Unit {0})))
    at_number again ps (raised e, cm) = pure (some (raised e, cm))
    at_number again ps (ok k, cm) = do
      t ← now
      try_commit again cm ps k (make_commit (suc k) t (events_of ps))

    -- The loop of _commit_batch, by the attempts left.
    unfoldable pub commit_loop : ℕ → Attempts
    commit_loop zero cm ps = pure (some (ok tt, resolve cm (fail_all commit_error ps)))
    commit_loop (suc n) cm ps = do number ← known_tail cm; at_number (commit_loop n) ps number

    unfoldable pub commit_batch : Attempts
    commit_batch = commit_loop config.max_commit_attempts
