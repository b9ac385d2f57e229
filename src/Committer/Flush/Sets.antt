-- ===== src/Committer/Flush/Sets.antt =====
-- A turn of the flusher sets each future of its batch once.
use cairndb.Prelude.{
  ℕ, zero, suc, ◌+◌, ◌≤◌, ◌<◌, ◌≡◌, refl, ap, ◌∙◌, ◌⊎◌, inl, inr, All, true, false, Option, none,
  some, List, [], ◌∷◌, ◌++◌, length, arith, ◌==◌, if◌then◌else◌, Bool-cases,
}
use cairndb.Core.Value.{Codec}
use cairndb.Core.Log.{Event, MsgPack}
use cairndb.Storage.LogInterface.{LogStorage}
use cairndb.Storage.Effects.{Result, ok, raised, commit_error, World, pure, ◌>>=◌, continue}
use cairndb.Storage.Rely.{Respects}
use cairndb.Committer.{
  CommitterConfig, Pending, Resolution, Committer, Step, Hook, fail_all, commit_batch,
}
use cairndb.Committer.Log.{IsDense, grows}
use cairndb.Committer.Fetch.{AllFit, IsGood, Durable-fail_all}
use cairndb.Committer.Batch.{IsFitting, Good-resolve}
use cairndb.Committer.Ends.{IsBelow, KeepBelow}
use cairndb.Committer.Durable.{Settled, commit_batch-Settled}
use cairndb.Committer.Futures.{awaited, set, set-append, set-fail_all, one_if}
use cairndb.Committer.Once.{Once, commit_loop-Once}
use cairndb.Committer.Flush.{Flusher, take_batch, done, unfinished, recover, finish_batch, flush}

-- done tells whether the future was set.
done-set :
    (f : ℕ) (rs : List Resolution)
    → ((done f rs ≡ true) × (1 ≤ set f rs)) ⊎ ((done f rs ≡ false) × (set f rs ≡ 0))
unfolding done
done-set f [] = inr (refl, refl)
done-set f (r ∷ rs) = elim (Bool-cases (r.future == f)) [
  | inl same ↦ inl (rw same refl, omega (arith, ap one_if same))
  | inr other ↦ elim (done-set f rs) [
    | inl (d, n) ↦ inl (rw (other, d) refl, omega (arith, n))
    | inr (d, n) ↦ inr (rw (other, d) refl, omega (arith, n, ap one_if other))
  ]
]

-- Only futures that were not set are left.
awaited-unfinished :
    (f : ℕ) (rs : List Resolution) (ps : List Pending)
    → awaited f (unfinished rs ps) ≡ (if done f rs then 0 else awaited f ps)
unfolding unfinished
awaited-unfinished f rs [] = elim (Bool-cases (done f rs)) [ inl d ↦ rw d refl | inr d ↦ rw d refl ]
awaited-unfinished f rs (p ∷ ps) = ground (arith, awaited-unfinished f rs ps, ap (λ x. done x rs))

set-recover :
    (batch : List Pending) (cm : Committer) (step : Step (Unit {0})) (f : ℕ)
    → Once batch cm (ok (some step))
    → awaited f batch + set f cm.resolved ≤ 1
    → set f (recover batch step).resolved ≡ awaited f batch + set f cm.resolved
unfolding recover
set-recover batch cm (ok x, cm') f once one = once f
set-recover batch cm (raised e, cm') f once one =
    set-append f (fail_all commit_error (unfinished cm'.resolved batch)) cm'.resolved
    ∙ ap (λ n. n + set f cm'.resolved)
        (set-fail_all f commit_error (unfinished cm'.resolved batch)
          ∙ awaited-unfinished f cm'.resolved batch)
    ∙ elim (done-set f cm'.resolved) [
      | inl (d, n) ↦ rw d (omega (arith, n, one, (once f).0, (once f).1))
      | inr (d, n) ↦ rw d (omega (arith, n, one, (once f).0, (once f).1))
    ]

awaited-take_batch :
    (f n : ℕ) (ps : List Pending)
    → awaited f (take_batch n ps).0 + awaited f (take_batch n ps).1 ≡ awaited f ps
unfolding take_batch
awaited-take_batch f zero ps = omega arith
awaited-take_batch f (suc n) [] = refl
awaited-take_batch f (suc n) (p ∷ ps) = omega (arith, awaited-take_batch f n ps)

-- The batch and the rest are the queue, in its order.
take_batch-append : (n : ℕ) (ps : List Pending) → ps ≡ (take_batch n ps).0 ++ (take_batch n ps).1
unfolding take_batch
take_batch-append zero ps = refl
take_batch-append (suc n) [] = refl
take_batch-append (suc n) (p ∷ ps) = ap (λ qs. p ∷ qs) (take_batch-append n ps)

-- A batch of that size, or one that is smaller and leaves nothing.
abbrev pub IsFull : ℕ → List Pending → List Pending → Type 0
IsFull n batch rest = (length batch ≡ n) ⊎ ((length batch < n) × (rest ≡ []))

take_batch-IsFull : (n : ℕ) (ps : List Pending) → IsFull n (take_batch n ps).0 (take_batch n ps).1
unfolding take_batch
take_batch-IsFull zero ps = inl refl
take_batch-IsFull (suc n) [] = inr (omega arith, refl)
take_batch-IsFull (suc n) (p ∷ ps) = elim (take_batch-IsFull n ps) [
  | inl full ↦ inl (ap suc full)
  | inr (less, empty) ↦ inr (omega (arith, less), empty)
]

-- A batch and the rest of the queue inherit what holds of its events.
All-take_batch :
    (P : Pending → Type 0) (n : ℕ) (ps : List Pending)
    → All P ps
    → All P (take_batch n ps).0 × All P (take_batch n ps).1
unfolding take_batch
All-take_batch P zero ps h = (tt, h)
All-take_batch P (suc n) [] h = (tt, tt)
All-take_batch P (suc n) (p ∷ ps) h =
    let (hs, rest) = All-take_batch P n ps h.1 in ((h.0, hs), rest)

-- Nothing waits twice, or waits when it has been set.
abbrev pub IsOnce : Flusher → Type 0
IsOnce fl = (f : ℕ) → awaited f fl.pending + set f fl.committer.resolved ≤ 1

module _ (b : LogStorage) (c : Codec) (p : MsgPack) (config : CommitterConfig)
    (Fits : ℕ → Event → Type 0) where
  open b use {Store}

  recover-IsGood :
      (batch : List Pending) (step : Step (Unit {0})) (s : Store)
      → IsGood b c p config Fits step.1 s
      → IsGood b c p config Fits (recover batch step) s
  unfolding recover
  recover-IsGood batch (ok x, cm) s g = g
  recover-IsGood batch (raised e, cm) s g =
      Good-resolve b c p config Fits cm (fail_all commit_error (unfinished cm.resolved batch)) s
        (Durable-fail_all b c p config Fits commit_error (unfinished cm.resolved batch) s) g

  -- A turn of the flusher is over: its batch, from the front of the queue, has left it, and each future
  -- of the batch is set.
  abbrev pub Flushed : Flusher → Result (Option Flusher) → Store → Type 0
  Flushed fl (ok (some fl')) s =
      IsGood b c p config Fits fl'.committer s
      × ((batch : List Pending) × (fl.pending ≡ batch ++ fl'.pending)
          × IsFull config.max_events_per_commit batch fl'.pending
          × ((f : ℕ)
              → set f fl'.committer.resolved ≡ awaited f batch + set f fl.committer.resolved))
      × AllFit b c p config Fits fl'.pending
      × IsOnce fl'
  Flushed fl _ s = ⊥

  module _ (hook : Option Hook) (fuel : ℕ) (fl : Flusher) where
    abbrev batch : List Pending
    batch = (take_batch config.max_events_per_commit fl.pending).0

    abbrev rest : List Pending
    rest = (take_batch config.max_events_per_commit fl.pending).1

    finish_batch-Flushed :
        (x : Result (Option (Step (Unit {0})))) (w : World Store)
        → AllFit b c p config Fits rest
        → IsOnce fl
        → Once batch fl.committer x
        → Settled b c p config Fits x w.store
        → let y = continue (finish_batch b c p config hook (suc fuel) fl batch rest) x w in
          (y.1 ≡ w) × Flushed fl y.0 w.store
    unfolding finish_batch pure
    finish_batch-Flushed (raised e) w fit one once settled = absurd settled
    finish_batch-Flushed (ok none) w fit one once settled = absurd settled
    finish_batch-Flushed (ok (some step)) w fit one once settled = (
      refl,
      (
        recover-IsGood batch step w.store settled,
        (
          batch,
          take_batch-append config.max_events_per_commit fl.pending,
          take_batch-IsFull config.max_events_per_commit fl.pending,
          sets,
        ),
        fit,
        leaves,
      ),
    )
      where
        split : (f : ℕ) → awaited f batch + awaited f rest ≡ awaited f fl.pending
        split f = awaited-take_batch f config.max_events_per_commit fl.pending

        sets :
            (f : ℕ)
            → set f (recover batch step).resolved ≡ awaited f batch + set f fl.committer.resolved
        sets f = set-recover batch fl.committer step f once (omega (arith, one f, split f))

        leaves : (f : ℕ) → awaited f rest + set f (recover batch step).resolved ≤ 1
        leaves f = omega (arith, sets f, one f, split f)

    -- Under what commit_batch-Settled asks of the log and of the other writers, and when no future
    -- waits twice or waits when it has been set, a turn of the flusher ends. Its batch is the events at
    -- the front of the queue, as many as a commit may have or else all of them; the rest of the queue is
    -- what is left of it, in its order; each future of the batch has been set once and no other; and
    -- the committer is right about the log, which has only grown and is dense.
    pub flush-Flushed :
        (limit : ℕ) (w : World Store)
        → limit < fuel
        → IsFitting b c p config Fits hook
        → AllFit b c p config Fits fl.pending
        → IsOnce fl
        → Respects (grows b) w.turns
        → KeepBelow b limit w.turns
        → IsBelow b limit w.store
        → IsGood b c p config Fits fl.committer w.store
        → let x = flush b c p config hook (suc fuel) fl w in
          (grows b).rel w.store x.1.store × IsDense b x.1.store × Flushed fl x.0 x.1.store
    unfolding flush ◌>>=◌ commit_batch
    flush-Flushed limit w enough fitting fit one respects keep below good =
        let (grown, dense', settled) =
          commit_batch-Settled b c p config Fits hook limit fuel fl.committer batch w enough fitting
            fits.0 respects keep below good in
        let (same, flushed) =
          finish_batch-Flushed ran.0 ran.1 fits.1 one
            (commit_loop-Once b c p config hook (suc fuel) config.max_commit_attempts fl.committer
              batch w)
            settled in
        rw same (grown, dense', flushed)
      where
        ran : Result (Option (Step (Unit {0}))) × World Store
        ran = commit_batch b c p config hook (suc fuel) fl.committer batch w

        fits : AllFit b c p config Fits batch × AllFit b c p config Fits rest
        fits =
            All-take_batch (λ q. Fits q.future q.event) config.max_events_per_commit fl.pending fit
