-- ===== src/Engine/Transactions/Hook.antt =====
-- TransactionManager._revalidate: which records it keeps, and that it suits the committer.
use cairndb.Prelude.{
  ℕ, suc, ◌<◌, Text, ◌≡◌, refl, sym, ap, subst, ◌⊎◌, inl, inr, Bool-cases, Option, none, some, List,
  [], ◌∷◌, ◌++◌, arith,
}
use cairndb.Core.Value.{Codec}
use cairndb.Core.Log.{Event, Commit, MsgPack}
use cairndb.Core.Results
use cairndb.Core.Results.{ok-injective}
use cairndb.Storage.Effects.{Result, ok, raised, World}
use cairndb.Storage.LogInterface.{LogStorage}
use cairndb.Committer.{CommitterConfig, Pending, Committer, events_of, sort_out, commit_batch}
use cairndb.Committer.Fetch.{AllFit, IsGood}
use cairndb.Committer.Batch.{IsFitting}
use cairndb.Committer.Log.{IsDense, grows}
use cairndb.Committer.Ends.{IsBelow, KeepBelow}
use cairndb.Committer.Durable.{Settled, commit_batch-Settled}
use cairndb.Storage.Rely.{Respects}
use cairndb.Engine.Transactions.{Op, Transaction, to_event, op_keys, dict_keys}
use cairndb.Engine.Transactions.Manager.{
  overlaps, commits_writes, decide, decide_all, reads_of, revalidate,
}
use cairndb.Engine.Transactions.Applied.{records, all_ops}
use cairndb.Engine.Transactions.Overlap.{
  Meets, overlaps-Meets, Meets-overlaps, reads_of-to_event, op_keys-append, events_writes-records,
}

-- Commits that hold these records and no other events.
abbrev pub Recorded : List Commit → List (List (ℕ × Transaction)) → Type 0
Recorded [] [] = Unit {0}
Recorded (x ∷ xs) (txs ∷ rest) = (x.events ≡ records txs) × Recorded xs rest
Recorded _ _ = ⊥

abbrev pub batch_ops : List (List (ℕ × Transaction)) → List Op
batch_ops [] = []
batch_ops (txs ∷ rest) = all_ops txs ++ batch_ops rest

-- A record is kept as it is if its transaction has read none of the keys, and else rejected.
abbrev pub Decided : List Text → List (ℕ × Transaction) → List (Option Event) → Type 0
Decided writes [] [] = Unit {0}
Decided writes ((at, tx) ∷ txs) (d ∷ ds) =
    (((d ≡ some (to_event at tx)) × (Meets (dict_keys tx.reads) writes → ⊥))
      ⊎ ((d ≡ none) × Meets (dict_keys tx.reads) writes))
    × Decided writes txs ds
Decided _ _ _ = ⊥

commits_writes-Recorded :
    (xs : List Commit) (txss : List (List (ℕ × Transaction)))
    → Recorded xs txss
    → commits_writes xs ≡ ok (op_keys (batch_ops txss))
unfolding commits_writes op_keys
commits_writes-Recorded [] [] h = refl
commits_writes-Recorded [] (txs ∷ rest) h = elim h [ ]
commits_writes-Recorded (x ∷ xs) [] h = elim h [ ]
commits_writes-Recorded (x ∷ xs) (txs ∷ rest) (e, h) =
    rw (e, events_writes-records txs, commits_writes-Recorded xs rest h)
      (ap ok (sym (op_keys-append (all_ops txs) (batch_ops rest))))

decide-Decided :
    (writes : List Text) (at : ℕ) (tx : Transaction)
    → ((decide writes (to_event at tx) (dict_keys tx.reads) ≡ some (to_event at tx))
        × (Meets (dict_keys tx.reads) writes → ⊥))
      ⊎ ((decide writes (to_event at tx) (dict_keys tx.reads) ≡ none)
          × Meets (dict_keys tx.reads) writes)
unfolding decide
decide-Decided writes at tx = elim (Bool-cases (overlaps (dict_keys tx.reads) writes)) [
  | inl e ↦ inr (rw e refl, overlaps-Meets (dict_keys tx.reads) writes e)
  | inr e ↦ inl (rw e refl, λ m. ground (arith, e, Meets-overlaps (dict_keys tx.reads) writes m))
]

decide_all-Decided :
    (writes : List Text) (txs : List (ℕ × Transaction))
    → (ds : List (Option Event)) × ((decide_all writes (records txs) ≡ ok ds)
        × Decided writes txs ds)
unfolding decide_all
decide_all-Decided writes [] = ([], (refl, tt))
decide_all-Decided writes ((at, tx) ∷ txs) =
    let (ds, (e, h)) = decide_all-Decided writes txs in
    (
      decide writes (to_event at tx) (dict_keys tx.reads) ∷ ds,
      (rw (reads_of-to_event at tx, e) refl, (decide-Decided writes at tx, h)),
    )

-- Of pending records and of commits of records that came between, the hook keeps exactly the pending
-- records whose transaction has read no key that these commits write, each as it is.
pub revalidate-Decided :
    (txs : List (ℕ × Transaction)) (interleaved : List Commit)
    (txss : List (List (ℕ × Transaction)))
    → Recorded interleaved txss
    → (ds : List (Option Event)) × ((revalidate (records txs) interleaved ≡ ok ds)
        × Decided (op_keys (batch_ops txss)) txs ds)
unfolding revalidate
revalidate-Decided txs interleaved txss h =
    rw (commits_writes-Recorded interleaved txss h)
      (decide_all-Decided (op_keys (batch_ops txss)) txs)

decide-same : (writes reads : List Text) (e e' : Event) → decide writes e reads ≡ some e' → e ≡ e'
unfolding decide
decide-same writes reads e e' h = ground (arith, h)

module _ (b : LogStorage) (c : Codec) (p : MsgPack) (config : CommitterConfig)
    (Fits : ℕ → Event → Type 0) where
  open b use {Store}

  abbrev Fit : List Pending → Type 0
  Fit = AllFit b c p config Fits

  decided-Fit :
      (writes reads : List Text) (q : Pending) (ps : List Pending) (d : Option Event)
      (ds : List (Option Event))
      → decide writes q.event reads ≡ d
      → Fits q.future q.event
      → Fit (sort_out ps ds).0
      → Fit (sort_out (q ∷ ps) (d ∷ ds)).0
  unfolding sort_out
  decided-Fit writes reads q ps none ds e h hs = hs
  decided-Fit writes reads q ps (some e') ds e h hs =
      (subst (Fits q.future) (decide-same writes reads q.event e' e) h, hs)

  sort_out-decide_all :
      (writes : List Text) (ps : List Pending) (ds : List (Option Event))
      → Fit ps
      → decide_all writes (events_of ps) ≡ ok ds
      → Fit (sort_out ps ds).0
  unfolding decide_all sort_out
  sort_out-decide_all writes [] ds h e = tt
  sort_out-decide_all writes (q ∷ ps) ds h e =
      chosen (reads_of q.event.payload) (decide_all writes (events_of ps)) e
        (λ rest. sort_out-decide_all writes ps rest h.1)
    where
      chosen :
          (r : Result (List Text)) (m : Result (List (Option Event)))
          → Results.◌>>=◌ r
              (λ reads. Results.◌>>=◌ m (λ rest. ok (decide writes q.event reads ∷ rest)))
            ≡ ok ds
          → ((rest : List (Option Event)) → m ≡ ok rest → Fit (sort_out ps rest).0)
          → Fit (sort_out (q ∷ ps) ds).0
      chosen (raised x) m e' k = absurd (ground arith)
      chosen (ok reads) (raised x) e' k = absurd (ground arith)
      chosen (ok reads) (ok rest) e' k =
          subst (λ y. Fit (sort_out (q ∷ ps) y).0) (ok-injective e')
            (decided-Fit writes reads q ps (decide writes q.event reads) rest refl h.0
              (k rest refl))

  -- The hook keeps events as they are, in their places.
  revalidate-IsFitting : IsFitting b c p config Fits (some revalidate)
  unfolding revalidate
  revalidate-IsFitting ps commits ds h e = written (commits_writes commits) e
    where
      written :
          (m : Result (List Text))
          → Results.◌>>=◌ m (λ writes. decide_all writes (events_of ps)) ≡ ok ds
          → Fit (sort_out ps ds).0
      written (raised x) e' = absurd (ground arith)
      written (ok writes) e' = sort_out-decide_all writes ps ds h e'

  -- What commit_batch-Settled states of a batch holds with this hook: no other record is acknowledged in
  -- the place of one.
  commit_batch-Isolated :
      (limit fuel : ℕ) (cm : Committer) (ps : List Pending) (w : World Store)
      → limit < fuel
      → Fit ps
      → Respects (grows b) w.turns
      → KeepBelow b limit w.turns
      → IsBelow b limit w.store
      → IsGood b c p config Fits cm w.store
      → let x = commit_batch b c p config (some revalidate) (suc fuel) cm ps w in
        (grows b).rel w.store x.1.store
        × IsDense b x.1.store
        × Settled b c p config Fits x.0 x.1.store
  commit_batch-Isolated limit fuel cm ps w enough fit respects keep below good =
      commit_batch-Settled b c p config Fits (some revalidate) limit fuel cm ps w enough
        revalidate-IsFitting fit respects keep below good
