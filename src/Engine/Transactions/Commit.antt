-- ===== src/Engine/Transactions/Commit.antt =====
-- TransactionManager.commit with nobody else about: which transactions are refused, and what the
-- others leave.
use cairndb.Prelude.{
  ℕ, suc, zero, ◌<◌, Text, ◌≡◌, ◌≢◌, refl, sym, ap, subst, ◌∙◌, ◌⊎◌, inl, inr, true, false, ◌&&◌,
  ◌==◌, Bool-cases, Option, none, some, List, [], ◌∷◌, ◌++◌, length, All, arith,
}
use cairndb.Core.Value.{Codec}
use cairndb.Core.Log.{Event, SequenceNumber, MsgPack}
use cairndb.Core.Log.RoundTrip.{from_msgpack-to_msgpack}
use mathlib.Core.List.{append-nil}
use cairndb.Storage.Listed.{ListedStorage}
use cairndb.Storage.Effects.{
  ok, raised, transaction_conflict, Io, World, pure, lift, raise, now, attempt, call, get_object,
  ◌>>=◌,
}
use cairndb.Storage.Alone.{alone}
use cairndb.Engine.Transactions.{Transaction, etag_seen, to_event, op_keys, dict_keys}
use cairndb.Engine.Transactions.Records.{write_set-to_event}
use cairndb.Engine.Transactions.Manager.{
  marker_key, overlaps, same_etag, check_events, check_read, validate_reads, check_record,
  check_committed, appended, finish, append_record, commit_from, commit,
}
use cairndb.Engine.Transactions.Applied.{records, all_ops, written_by, bytes_at}
use cairndb.Engine.Transactions.Overlap.{
  Meets, overlaps-Meets, Meets-overlaps, Meets-left, Meets-right, Meets-append,
}
use cairndb.Engine.Transactions.Hook.{batch_ops}
use cairndb.Engine.Transactions.Marked.{applied, Holds, bytes_at-applied, apply_commit-done}
use cairndb.Engine.Transactions.Recovery.{Batches, LogOf}

same_etag-eq : (a b : Option Text) → same_etag a b ≡ true → a ≡ b
unfolding same_etag
same_etag-eq none none h = refl
same_etag-eq none (some y) h = absurd (ground arith)
same_etag-eq (some x) none h = absurd (ground arith)
same_etag-eq (some x) (some y) h = ground arith

same_etag_self : (a : Option Text) → same_etag a a ≡ true
unfolding same_etag
same_etag_self none = refl
same_etag_self (some x) = ground arith

-- The scan of a commit of records.
check_events-records :
    (reads : List Text) (txs : List (ℕ × Transaction))
    → ((check_events reads (records txs) ≡ ok tt) × (Meets reads (op_keys (all_ops txs)) → ⊥))
      ⊎ ((check_events reads (records txs) ≡ raised transaction_conflict)
          × Meets reads (op_keys (all_ops txs)))
unfolding check_events op_keys
check_events-records reads [] = inl (refl, λ m. elim m.1.1 [ ])
check_events-records reads ((at, tx) ∷ txs) = elim (Bool-cases (overlaps reads (op_keys tx.ops))) [
  | inl e ↦ inr (
    rw (write_set-to_event at tx, e) refl,
    Meets-left reads tx.ops (all_ops txs) (overlaps-Meets reads (op_keys tx.ops) e),
  )
  | inr e ↦ elim (check_events-records reads txs) [
    | inl (h, apart) ↦ inl (
      rw (write_set-to_event at tx, e) h,
      λ m. elim (Meets-append reads tx.ops (all_ops txs) m) [
        | inl m' ↦ ground (arith, e, Meets-overlaps reads (op_keys tx.ops) m')
        | inr m' ↦ apart m'
      ],
    )
    | inr (h, meets) ↦
        inr (rw (write_set-to_event at tx, e) h, Meets-right reads tx.ops (all_ops txs) meets)
  ]
]

module _ (b : ListedStorage) (c : Codec) (p : MsgPack) where
  -- Each etag that was read is the one that is there.
  abbrev pub IsCurrent : List (Text × Option Text) → b.blob.Store → Type 0
  IsCurrent reads s = All (λ r. etag_seen (b.blob.get_object r.0 s) ≡ r.1) reads

  validate_reads-Decides :
      (reads : List (Text × Option Text)) (s : b.blob.Store) (t : ℕ)
      → ((validate_reads b c p reads (alone s t) ≡ (ok tt, alone s t)) × IsCurrent reads s)
        ⊎ ((validate_reads b c p reads (alone s t) ≡ (raised transaction_conflict, alone s t))
            × (IsCurrent reads s → ⊥))
  unfolding validate_reads check_read ◌>>=◌ get_object call pure raise
  validate_reads-Decides [] s t = inl (refl, tt)
  validate_reads-Decides ((key, etag) ∷ reads) s t =
      elim (Bool-cases (same_etag (etag_seen (b.blob.get_object key s)) etag)) [
        | inl e ↦ elim (validate_reads-Decides reads s t) [
          | inl (h, current) ↦
              inl (rw e h, (same_etag-eq (etag_seen (b.blob.get_object key s)) etag e, current))
          | inr (h, stale) ↦ inr (rw e h, λ k. stale k.1)
        ]
        | inr e ↦ inr (
          rw e refl,
          λ k. ground (
            arith,
            e,
            ap (same_etag (etag_seen (b.blob.get_object key s))) k.0,
            same_etag_self (etag_seen (b.blob.get_object key s)),
          ),
        )
      ]

  check_committed-Decides :
      (f n : ℕ) (reads : List Text) (txss : Batches) (s : b.blob.Store) (t : ℕ)
      → length txss < f
      → LogOf b c p n txss s
      → ((check_committed b c p f reads n (alone s t) ≡ (ok (some tt), alone s t))
          × (Meets reads (op_keys (batch_ops txss)) → ⊥))
        ⊎ ((check_committed b c p f reads n (alone s t) ≡ (raised transaction_conflict, alone s t))
            × Meets reads (op_keys (batch_ops txss)))
  unfolding check_committed check_record ◌>>=◌ call lift pure op_keys
  check_committed-Decides zero n reads txss s t less log = absurd (omega arith)
  check_committed-Decides (suc f) n reads [] s t less log =
      inl (rw (log n (omega arith)) refl, λ m. elim m.1.1 [ ])
  check_committed-Decides (suc f) n reads (txs ∷ rest) s t less
        ((x, (stored, (number, (pos, (events, nonempty))))), (allowed, log)) =
      let read = from_msgpack-to_msgpack c p x (subst (λ m. 0 < m) (sym number) pos) nonempty in
      elim (check_events-records reads txs) [
        | inl (h, apart) ↦
            elim (check_committed-Decides f (suc n) reads rest s t (omega arith) log) [
              | inl (h', apart') ↦ inl (
                rw (stored, read, events, h) h',
                λ m. elim (Meets-append reads (all_ops txs) (batch_ops rest) m) [
                  | inl m' ↦ apart m'
                  | inr m' ↦ apart' m'
                ],
              )
              | inr (h', meets) ↦ inr (
                rw (stored, read, events, h) h',
                Meets-right reads (all_ops txs) (batch_ops rest) meets,
              )
            ]
        | inr (h, meets) ↦ inr (
          rw (stored, read, events, h) refl,
          Meets-left reads (all_ops txs) (batch_ops rest) meets,
        )
      ]

  -- Nothing that the transaction read has changed, and no commit since it began writes a key it read.
  abbrev pub IsIsolated : Transaction → Batches → b.blob.Store → Type 0
  IsIsolated tx txss s =
      IsCurrent tx.reads s × (Meets (dict_keys tx.reads) (op_keys (batch_ops txss)) → ⊥)

  module _ (fuel : ℕ) (append : Event → Io b.blob.Store SequenceNumber) where
    -- The record is appended if the transaction is isolated, and else the commit is refused.
    commit_from-Decides :
        (tx : Transaction) (tail : ℕ) (txss : Batches) (s : b.blob.Store) (t : ℕ)
        → length txss < fuel
        → LogOf b c p (suc tail) txss s
        → ((commit_from b c p fuel append tx (some tail) (alone s t)
              ≡ append_record b c p fuel append tx (some tt) (alone s t))
            × IsIsolated tx txss s)
          ⊎ ((commit_from b c p fuel append tx (some tail) (alone s t)
                ≡ (raised transaction_conflict, alone s t))
              × (IsIsolated tx txss s → ⊥))
    unfolding commit_from ◌>>=◌
    commit_from-Decides tx tail txss s t less log = elim (validate_reads-Decides tx.reads s t) [
      | inr (h, stale) ↦ inr (rw h refl, λ k. stale k.0)
      | inl (h, current) ↦
          elim (check_committed-Decides fuel (suc tail) (dict_keys tx.reads) txss s t less log) [
            | inl (h', apart) ↦ inl (rw (h, h') refl, (current, apart))
            | inr (h', meets) ↦ inr (rw (h, h') refl, λ k. k.1 meets)
          ]
    ]

    abbrev pub IsWriting : Transaction → Type 0
    IsWriting tx = (length tx.ops == 0 && length tx.notes == 0) ≡ false

    commit_begun :
        (tx : Transaction) (tail : ℕ) (w : World b.blob.Store)
        → IsWriting tx
        → tx.begin_tail ≡ some tail
        → commit b c p fuel append tx w ≡ commit_from b c p fuel append tx (some tail) w
    unfolding commit
    commit_begun tx tail w writing begun =
        rw (commit, writing) (ap (λ o. commit_from b c p fuel append tx o w) begun)

    -- With nobody else about, a transaction with something to write, of which a key that it read has
    -- another etag than it saw, or is written by a commit since it began, is refused with
    -- TransactionConflict, and nothing has changed.
    pub commit-Conflicts :
        (tx : Transaction) (tail : ℕ) (txss : Batches) (s : b.blob.Store) (t : ℕ)
        → IsWriting tx
        → tx.begin_tail ≡ some tail
        → length txss < fuel
        → LogOf b c p (suc tail) txss s
        → (IsIsolated tx txss s → ⊥)
        → commit b c p fuel append tx (alone s t) ≡ (raised transaction_conflict, alone s t)
    commit-Conflicts tx tail txss s t writing begun less log conflict =
        commit_begun tx tail (alone s t) writing begun
        ∙ (elim (commit_from-Decides tx tail txss s t less log) [
          | inl (h, isolated) ↦ absurd (conflict isolated)
          | inr (h, k) ↦ h
        ])

    -- And one that is isolated, whose record the append puts into the log, is committed: it has the
    -- sequence number of the record, and each key but the marker's is as the operations of the
    -- transaction leave what it held when the record was appended.
    pub commit-Commits :
        (tx : Transaction) (tail : ℕ) (txss : Batches) (q : SequenceNumber) (s s' : b.blob.Store)
        (t t' : ℕ)
        → IsWriting tx
        → tx.begin_tail ≡ some tail
        → length txss < fuel
        → LogOf b c p (suc tail) txss s
        → IsIsolated tx txss s
        → append (to_event t tx) (alone s t) ≡ (ok q, alone s' t')
        → Holds b c p q.commit ((t, tx) ∷ []) s'
        → (s'' : b.blob.Store) × ((commit b c p fuel append tx (alone s t)
              ≡ (ok (some (some q, record tx { sequence = some q })), alone s'' t'))
            × ((k : Text)
                → marker_key q.commit ≢ k
                → bytes_at b c p k s'' ≡ written_by tx.ops k (bytes_at b c p k s')))
    unfolding append_record now attempt lift appended finish pure ◌>>=◌
    commit-Commits tx tail txss q s s' t t' writing begun less log isolated appends holds =
        let done = applied b c p q.commit (tx.ops ++ []) s' in
        (
          done,
          (
            commit_begun tx tail (alone s t) writing begun
                ∙ (elim (commit_from-Decides tx tail txss s t less log) [
                  | inr (h, k) ↦ absurd (k isolated)
                  | inl (h, k) ↦
                      h
                      ∙ rw (appends, apply_commit-done b c p q.commit ((t, tx) ∷ []) s' t' holds)
                          refl
                ]),
            λ k ne.
                bytes_at-applied b c p q.commit (tx.ops ++ []) k s' ne
                ∙ ap (λ ops. written_by ops k (bytes_at b c p k s')) (append-nil tx.ops),
          ),
        )
