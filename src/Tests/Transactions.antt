-- ===== src/Tests/Transactions.antt =====
-- Transactions on a directory of files, and the commit of one.
use cairndb.Prelude.{
  ℕ, ◌≤◌, Text, Bytes, codes, text_discrete, ite, ◌≡◌, ◌≢◌, refl, ap, ◌∙◌, inl, Option, none, some,
  List, [], ◌∷◌, arith,
}
use mathlib.Core.Option
use mathlib.Core.List.{head-eq_of_cons-eq}
use cairndb.Core.Log.{Event, Commit, SequenceNumber, to_msgpack}
use cairndb.Storage.Files.{Files, read_file}
use cairndb.Storage.Filesystem.{stored}
use cairndb.Storage.Filesystem.Contract.{get_at}
use cairndb.Storage.Effects.{ok, raised, transaction_conflict, Io, call}
use cairndb.Storage.Alone.{alone}
use cairndb.Engine.Logs.{get_commit, get_bytes, name_key, log_namespace}
use cairndb.Engine.Logs.Contract.{key_of_injective}
use cairndb.Engine.Keys.{check_key, check_prefixes, starts_with}
use cairndb.Engine.Transactions.{
  Op, put, delete, get, stage_put, dict_set, Transaction, new_transaction, etag_seen, to_event,
  write_set, op_key, op_keys, dict_keys,
}
use cairndb.Engine.Transactions.Records.{write_set-to_event}
use cairndb.Engine.Transactions.Manager.{
  tx_namespace, marker_key, recover, commit, revalidate, marker_prefix,
}
use cairndb.Engine.Transactions.Applied.{written_by, bytes_at, records}
use cairndb.Engine.Transactions.Markers.{HasMarkers, is_marked}
use cairndb.Engine.Transactions.Marked.{record_key, Holds}
use cairndb.Engine.Transactions.Hook.{Decided, batch_ops, revalidate-Decided}
use cairndb.Engine.Transactions.Recovery.{LogOf, pending, pending_count, recover-Written}
use cairndb.Engine.Transactions.Commit.{IsIsolated, commit-Conflicts, commit-Commits}
use cairndb.Engine.Transactions.View.{
  Viewed, IsView, Reached, begun, stepped, puts, get-Viewed, Reached-IsView,
}
use cairndb.Tests.Files.{listed, paths, digest}
use cairndb.Tests.Codec.Instances.{codec, msgpack}

abbrev two_ops : List Op
two_ops = put (codes "a") (codes "1") ∷ delete (codes "b") ∷ []

abbrev writing : Transaction
writing = record new_transaction { ops = two_ops }

write_set-to_event_example : write_set (to_event 7 writing) ≡ ok (op_keys two_ops)
write_set-to_event_example = write_set-to_event 7 writing

abbrev reading : Transaction
reading = record new_transaction {
  reads = (codes "a", none) ∷ [];
  ops = put (codes "c") (codes "2") ∷ [];
  begin_tail = some 0;
}

abbrev batch : List (ℕ × Transaction)
batch = (7, writing) ∷ []

abbrev first : Commit
first = record { number = 1; created_at = 7; events = records batch }

-- A log of one commit, which has not been applied.
abbrev files : Files
files = (record_key 1, to_msgpack codec msgpack first) ∷ (codes "b", codes "0") ∷ []

cons-nil : (e : Event) (es : List Event) → e ∷ es ≢ []
cons-nil e es h = cc

read_first :
    (k : Text) (x : Bytes) (fs : Files)
    → Option.map (λ o. o.bytes) (get_at digest k ((k, x) ∷ fs)) ≡ some x
unfolding get_at read_file stored
read_first k x fs =
    elim (text_discrete k k)
      as (λ d.
        Option.map (λ o. o.bytes) (Option.map (stored digest) (ite d (some x) (read_file k fs)))
        ≡ some x) [ yes e ↦ refl | no ne ↦ absurd (ne refl) ]

read_later :
    (k j : Text) (x : Bytes) (fs : Files)
    → j ≢ k
    → get_at digest k ((j, x) ∷ fs) ≡ get_at digest k fs
unfolding get_at read_file stored
read_later k j x fs ne = ground (arith, ne)

files-first : get_commit listed tx_namespace 1 files ≡ some (to_msgpack codec msgpack first)
unfolding get_commit get_bytes
files-first =
    read_first (record_key 1) (to_msgpack codec msgpack first) ((codes "b", codes "0") ∷ [])

files-later : (m : ℕ) → 2 ≤ m → get_commit listed tx_namespace m files ≡ none
unfolding get_commit get_bytes get_at read_file name_key log_namespace
files-later m le = ap (Option.map (λ o. o.bytes)) (
    read_later (record_key m) (record_key 1) (to_msgpack codec msgpack first)
      ((codes "b", codes "0") ∷ [])
      (λ e. omega (arith, key_of_injective listed tx_namespace 1 m e, le))
    ∙ read_later (record_key m) (codes "b") (codes "0") []
        (λ e. omega (arith, head-eq_of_cons-eq e)))

files-LogOf : LogOf listed codec msgpack 1 (batch ∷ []) files
unfolding op_key check_key check_prefixes starts_with
files-LogOf = (
  (first, (files-first, (refl, (omega arith, (refl, cons-nil _ _))))),
  ((refl, (refl, tt)), files-later),
)

files-HasMarkers : HasMarkers listed files
unfolding paths starts_with name_key log_namespace
files-HasMarkers k o there h = absurd (listed.listed_all marker_prefix k o files there h)

recover-Written_example :
    (s' : Files) × ((recover listed codec msgpack 2 (alone files 9)
        ≡ (ok (some (pending_count (is_marked listed files) 1 (batch ∷ []))), alone s' 9))
      × ((k : Text)
          → ((m : ℕ) → marker_key m ≢ k)
          → bytes_at listed codec msgpack k s'
            ≡ written_by
                (pending (is_marked listed files) 1 (batch ∷ []))
                k
                (bytes_at listed codec msgpack k files)))
recover-Written_example =
    recover-Written listed codec msgpack 2 (batch ∷ []) files 9 (omega arith) files-HasMarkers
      files-LogOf

revalidate-Decided_example :
    (ds : List (Option Event)) × ((revalidate (records ((8, reading) ∷ [])) (first ∷ []) ≡ ok ds)
      × Decided (op_keys (batch_ops (batch ∷ []))) ((8, reading) ∷ []) ds)
revalidate-Decided_example =
    revalidate-Decided ((8, reading) ∷ []) (first ∷ []) (batch ∷ []) (refl, tt)

-- `a` was read, and the commit writes it.
conflict : IsIsolated listed codec msgpack reading (batch ∷ []) files → ⊥
unfolding dict_keys op_keys op_key
conflict k = k.1 (codes "a", (inl refl, inl refl))

nowhere : Event → Io Files SequenceNumber
nowhere e = call (λ s. (record { commit = 0; index = 0 }, s))

commit-Conflicts_example :
    commit listed codec msgpack 2 nowhere reading (alone files 9)
    ≡ (raised transaction_conflict, alone files 9)
commit-Conflicts_example =
    commit-Conflicts listed codec msgpack 2 nowhere reading 0 (batch ∷ []) files 9 refl refl
      (omega arith) files-LogOf conflict

-- The append of a transaction's record, to an empty log.
put_record : Event → Io Files SequenceNumber
put_record e = call (λ s. (
  record { commit = 1; index = 0 },
  (record_key 1, to_msgpack codec msgpack (record { number = 1; created_at = 9; events = e ∷ [] }))
      ∷ s,
))

abbrev lone : Files
lone = (codes "b", codes "0") ∷ []

lone-LogOf : LogOf listed codec msgpack 1 [] lone
unfolding get_commit get_bytes get_at read_file name_key log_namespace
lone-LogOf = λ m le. ap (Option.map (λ o. o.bytes)) (
    read_later (record_key m) (codes "b") (codes "0") [] (λ e. omega (arith, head-eq_of_cons-eq e)))

lone-IsIsolated : IsIsolated listed codec msgpack reading [] lone
unfolding etag_seen get_at read_file text_discrete op_keys
lone-IsIsolated = ((refl, tt), λ m. m.1.1)

abbrev here : SequenceNumber
here = record { commit = 1; index = 0 }

abbrev committed : Files
committed =
    (
      record_key 1,
      to_msgpack codec msgpack
          (record { number = 1; created_at = 9; events = to_event 9 reading ∷ [] }),
    )
    ∷ lone

put_record-appends : put_record (to_event 9 reading) (alone lone 9) ≡ (ok here, alone committed 9)
unfolding put_record call
put_record-appends = refl

committed-Holds : Holds listed codec msgpack 1 ((9, reading) ∷ []) committed
unfolding get_commit get_bytes
committed-Holds = (
  record { number = 1; created_at = 9; events = to_event 9 reading ∷ [] },
  (read_first (record_key 1) _ lone, (refl, (omega arith, (refl, cons-nil _ _)))),
)

commit-Commits_example :
    (s'' : Files) × ((commit listed codec msgpack 1 put_record reading (alone lone 9)
        ≡ (ok (some (some here, record reading { sequence = some here })), alone s'' 9))
      × ((k : Text)
          → marker_key 1 ≢ k
          → bytes_at listed codec msgpack k s''
            ≡ written_by reading.ops k (bytes_at listed codec msgpack k committed)))
commit-Commits_example =
    commit-Commits listed codec msgpack 1 put_record reading 0 [] here lone committed 9 9 refl refl
      (omega arith) lone-LogOf lone-IsIsolated put_record-appends committed-Holds

-- Reading what was staged, and what is there.
abbrev viewed : Transaction
viewed = record reading { staged = (codes "c", some (codes "2")) ∷ [] }

b-valid : check_key (codes "b") ≡ ok tt
unfolding check_key check_prefixes starts_with
b-valid = refl

get-Viewed_example :
    (v : Option Bytes) × ((tx' : Transaction) × ((get listed.blob (codes "b") viewed (alone lone 9)
          ≡ (ok (v, tx'), alone lone 9))
        × Viewed listed.blob (codes "b") viewed lone v tx'))
get-Viewed_example = get-Viewed listed.blob (codes "b") viewed lone 9 b-valid

put_c : Transaction
put_c = record new_transaction {
  ops = put (codes "c") (codes "2") ∷ [];
  staged = (codes "c", some (codes "2")) ∷ [];
}

put_c-Reached : Reached listed.blob put_c
unfolding put_c stage_put check_key check_prefixes starts_with dict_set new_transaction
put_c-Reached =
    stepped new_transaction put_c begun (puts (codes "c") (codes "2") new_transaction put_c refl)

Reached-IsView_example : IsView put_c
Reached-IsView_example = Reached-IsView listed.blob put_c put_c-Reached
