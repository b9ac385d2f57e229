-- ===== src/Engine/Transactions/Manager.antt =====
-- src/cairndb/engine/transactions.py: TransactionManager, on the log named _tx. The log's append is an
-- argument of `commit`, whose lock admits one commit at a time, and the scans are on fuel. The dict
-- that the revalidation reads by the identity of an event holds the read set that the event's record
-- holds too, and is read there.
use cairndb.Prelude.{
  ℕ, zero, suc, Text, Bytes, codes, text_discrete, ite, Bool, true, false, ◌&&◌, ◌||◌, Option, none,
  some, List, [], ◌∷◌, ◌++◌, ◌==◌, if◌then◌else◌, length,
}
use cairndb.Core.Value.{
  Codec, Packed, Items, Fields, str, raw, nil, cons, end, field, find, get_item,
}
use cairndb.Core.Results
use cairndb.Core.Decimal.{zero_padded, is_digit}
use cairndb.Core.Decimal.Digits.{spelled}
use cairndb.Core.Log.{Event, Commit, SequenceNumber, MsgPack, as_text, as_dict, from_msgpack}
use cairndb.Storage.Interface.{StoredObject}
use cairndb.Storage.Listed.{ListedStorage}
use cairndb.Storage.Effects.{
  Result, ok, raised, type_error, transaction_conflict, event_rejected, runtime_error, Io, pure,
  raise, lift, call, now, attempt, get_object, put_object, delete_object, ◌>>=◌, ◌>>◌,
}
use cairndb.Engine.Keys.{starts_with}
use cairndb.Engine.Logs.{log_namespace, get_commit}
use cairndb.Engine.Transactions.{
  Transaction, etag_seen, dict_keys, to_event, tx_event_type, ops_of, write_set,
}

abbrev pub tx_namespace : Text
tx_namespace = log_namespace (codes "_tx")

abbrev pub marker_prefix : Text
marker_prefix = codes "txapplied/"

unfoldable pub marker_key : ℕ → Text
marker_key number = marker_prefix ++ zero_padded 12 number

-- a & b, is it empty?
unfoldable pub contains : List Text → Text → Bool
contains [] k = false
contains (j ∷ js) k = let rest = contains js k in ite (text_discrete j k) true rest

unfoldable pub overlaps : List Text → List Text → Bool
overlaps [] ks = false
overlaps (j ∷ js) ks = let rest = overlaps js ks in contains ks j || rest

unfoldable pub same_etag : Option Text → Option Text → Bool
same_etag none none = true
same_etag (some a) (some c) = ite (text_discrete a c) true false
same_etag _ _ = false

-- The keys of payload.get("reads", {}).
unfoldable pub field_keys : Fields Bytes → List Text
field_keys end = []
field_keys (field k v fs) = k ∷ field_keys fs

unfoldable pub reads_of : Fields Bytes → Result (List Text)
reads_of payload = elim (find (codes "reads") payload) [
  | none ↦ ok []
  | some v ↦ Results.◌>>=◌ (as_dict v) (λ fs. ok (field_keys fs))
]

unfoldable pub events_writes : List Event → Result (List Text)
events_writes [] = ok []
events_writes (e ∷ es) =
    Results.◌>>=◌ (write_set e) (λ ks. Results.◌>>=◌ (events_writes es) (λ rest. ok (ks ++ rest)))

unfoldable pub commits_writes : List Commit → Result (List Text)
commits_writes [] = ok []
commits_writes (x ∷ xs) =
    Results.◌>>=◌ (events_writes x.events)
      (λ ks. Results.◌>>=◌ (commits_writes xs) (λ rest. ok (ks ++ rest)))

unfoldable pub decide : List Text → Event → List Text → Option Event
decide writes e reads = if overlaps reads writes then none else some e

unfoldable pub decide_all : List Text → List Event → Result (List (Option Event))
decide_all writes [] = ok []
decide_all writes (e ∷ es) =
    Results.◌>>=◌ (reads_of e.payload)
      (λ reads. Results.◌>>=◌ (decide_all writes es) (λ rest. ok (decide writes e reads ∷ rest)))

-- TransactionManager._revalidate, the hook of the log's committer.
unfoldable pub revalidate : List Event → List Commit → Result (List (Option Event))
revalidate events interleaved =
    Results.◌>>=◌ (commits_writes interleaved) (λ writes. decide_all writes events)

unfoldable pub as_bytes : Packed → Result Bytes
as_bytes (raw x) = ok x
as_bytes _ = raised type_error

-- The test of _check_committed_since, on the events of a commit.
unfoldable pub check_events : List Text → List Event → Result (Unit {0})
check_events reads [] = ok tt
check_events reads (e ∷ es) =
    Results.◌>>=◌ (write_set e)
      (λ ks. if overlaps reads ks then raised transaction_conflict else check_events reads es)

-- A conflict on the way to the log.
unfoldable pub appended : Result SequenceNumber → Result SequenceNumber
appended (ok q) = ok q
appended (raised event_rejected) = raised transaction_conflict
appended (raised e) = raised e

-- removeprefix, and then isdigit and int
unfoldable pub without_prefix : Text → Text → Text
without_prefix [] t = t
without_prefix (c ∷ p) [] = []
without_prefix (c ∷ p) (d ∷ t) = without_prefix p t

unfoldable pub all_digits : Text → Bool
all_digits [] = true
all_digits (c ∷ t) = is_digit c && all_digits t

unfoldable pub number_of : Text → Option ℕ
number_of [] = none
number_of (c ∷ t) = if all_digits (c ∷ t) then some (spelled 0 (c ∷ t)) else none

unfoldable pub marker_number : Text → Option ℕ
marker_number k =
    number_of (if starts_with marker_prefix k then without_prefix marker_prefix k else k)

unfoldable pub applied_numbers : List Text → List ℕ
applied_numbers [] = []
applied_numbers (k ∷ ks) = elim (marker_number k) [
  | none ↦ applied_numbers ks
  | some n ↦ n ∷ applied_numbers ks
]

unfoldable pub is_applied : ℕ → List ℕ → Bool
is_applied n [] = false
is_applied n (m ∷ ms) = m == n || is_applied n ms

-- while start + 1 in applied: at most one step for each of them.
unfoldable pub skip_applied : ℕ → List ℕ → ℕ → ℕ
skip_applied zero applied start = start
skip_applied (suc f) applied start = elim (is_applied (suc start) applied) [
  | true ↦ skip_applied f applied (suc start)
  | false ↦ start
]

module _ (b : ListedStorage) (c : Codec) (p : MsgPack) where
  abbrev pub Run : Type 0 → Type 0
  Run = Io b.blob.Store

  abbrev pub read_record : ℕ → Run (Option Bytes)
  read_record number = call (λ s. (get_commit b tx_namespace number s, s))

  unfoldable pub check_read : Option Text → Option StoredObject → Run (Unit {0})
  check_read etag o = if same_etag (etag_seen o) etag then pure tt else raise transaction_conflict

  unfoldable pub validate_reads : List (Text × Option Text) → Run (Unit {0})
  validate_reads [] = pure tt
  validate_reads ((key, etag) ∷ reads) = do
    o ← get_object b.blob key
    check_read etag o
    validate_reads reads

  unfoldable pub check_record :
      List Text → Run (Option (Unit {0})) → Option Bytes → Run (Option (Unit {0}))
  check_record reads again none = pure (some tt)
  check_record reads again (some bytes) = do
    commit ← lift (from_msgpack c p bytes)
    lift (check_events reads commit.events)
    again

  -- _check_committed_since, from `number` on
  unfoldable pub check_committed : ℕ → List Text → ℕ → Run (Option (Unit {0}))
  check_committed zero reads number = pure none
  check_committed (suc f) reads number = do
    found ← read_record number
    check_record reads (check_committed f reads (suc number)) found

  unfoldable pub apply_op : Packed → Packed → Run (Unit {0})
  apply_op (str kind) op =
      ite (text_discrete kind (codes "put"))
        (do
          key ← lift (Results.◌>>=◌ (get_item (codes "key") op) as_text)
          bytes ← lift (Results.◌>>=◌ (get_item (codes "data") op) as_bytes)
          etag ← put_object b.blob key bytes none false
          pure tt)
        (ite (text_discrete kind (codes "delete"))
          (do
            key ← lift (Results.◌>>=◌ (get_item (codes "key") op) as_text)
            delete_object b.blob key)
          (pure tt))
  apply_op _ op = pure tt

  unfoldable pub apply_ops : Items Bytes → Run (Unit {0})
  apply_ops nil = pure tt
  apply_ops (cons op ops) = do
    kind ← lift (get_item (codes "op") op)
    apply_op kind op
    apply_ops ops

  unfoldable pub apply_event : Event → Run (Unit {0})
  apply_event e =
      ite (text_discrete e.event_type tx_event_type)
        (do ops ← lift (ops_of e.payload); apply_ops ops) (pure tt)

  unfoldable pub apply_events : List Event → Run (Unit {0})
  apply_events [] = pure tt
  apply_events (e ∷ es) = do apply_event e; apply_events es

  unfoldable pub apply_record : ℕ → Option Bytes → Run (Unit {0})
  apply_record number none = raise transaction_conflict
  apply_record number (some bytes) = do
    commit ← lift (from_msgpack c p bytes)
    apply_events commit.events
    etag ← put_object b.blob (marker_key number) [] none true
    pure tt

  -- _apply_commit
  unfoldable pub apply_commit : ℕ → Run (Unit {0})
  apply_commit number = do found ← read_record number; apply_record number found

  module _ (fuel : ℕ) (append : Event → Run SequenceNumber) where
    unfoldable pub finish :
        Transaction → SequenceNumber → Run (Option (Option SequenceNumber × Transaction))
    finish tx q = do apply_commit q.commit; pure (some (some q, record tx { sequence = some q }))

    unfoldable pub append_record :
        Transaction → Option (Unit {0}) → Run (Option (Option SequenceNumber × Transaction))
    append_record tx none = pure none
    append_record tx (some x) = do
      t ← now
      r ← attempt (append (to_event t tx))
      q ← lift (appended r)
      finish tx q

    unfoldable pub commit_from :
        Transaction → Option ℕ → Run (Option (Option SequenceNumber × Transaction))
    commit_from tx none = raise runtime_error
    commit_from tx (some tail) = do
      validate_reads tx.reads
      checked ← check_committed fuel (dict_keys tx.reads) (suc tail)
      append_record tx checked

    -- TransactionManager.commit; nothing to write is None.
    unfoldable pub commit : Transaction → Run (Option (Option SequenceNumber × Transaction))
    commit tx = elim (length tx.ops == 0 && length tx.notes == 0) [
      | true ↦ pure (some (none, tx))
      | false ↦ commit_from tx tx.begin_tail
    ]

  -- The rest of recover's loop, with the number of commits applied.
  unfoldable pub recover_next : List ℕ → ℕ → (ℕ → Run (Option ℕ)) → Option Bytes → Run (Option ℕ)
  recover_next applied recovered again none = pure (some recovered)
  recover_next applied recovered again (some bytes) = do
    commit ← lift (from_msgpack c p bytes)
    elim (is_applied commit.number applied) [
      | true ↦ again recovered
      | false ↦ do apply_commit commit.number; again (suc recovered)
    ]

  unfoldable pub recover_from : ℕ → List ℕ → ℕ → ℕ → Run (Option ℕ)
  recover_from zero applied number recovered = pure none
  recover_from (suc f) applied number recovered = do
    found ← read_record number
    recover_next applied recovered (recover_from f applied (suc number)) found

  unfoldable pub recover : ℕ → Run (Option ℕ)
  recover fuel = do
    keys ← call (λ s. (b.list_objects marker_prefix s, s))
    recover_from fuel (applied_numbers keys)
        (suc (skip_applied (length (applied_numbers keys)) (applied_numbers keys) 0)) 0
