-- ===== src/Engine/Transactions.antt =====
-- src/cairndb/engine/transactions.py: the staging of a transaction and its record. The manager, which
-- commits, applies and recovers, is in the modules below.
pub mod Records
pub mod Manager
pub mod Applied
pub mod Marked
pub mod Markers
pub mod Recovery
pub mod Overlap
pub mod Hook
pub mod Commit
pub mod View
use cairndb.Prelude.{
  ℕ, Text, Bytes, codes, text_discrete, ite, Bool, true, false, Option, none, some, List, [], ◌∷◌,
  ◌++◌, if◌then◌else◌,
}
use mathlib.Core.Option
use cairndb.Core.Value.{
  Packed, Tree, Items, Fields, null, str, raw, arr, obj, nil, cons, end, field, find, get_item,
}
use cairndb.Core.Results.{◌>>=◌}
use cairndb.Core.Log.{Event, SequenceNumber, as_text, as_items}
use cairndb.Storage.Interface.{BlobStorage, StoredObject}
use cairndb.Storage.Effects.{Result, ok, raised, type_error, Io, pure, lift, now, get_object}
use cairndb.Storage.Effects
use cairndb.Engine.Keys.{check_key}

pub data Op : Type 0 where
  put : Text → Bytes → Op
  delete : Text → Op

pub record Note : Type 0 where
  pub event_type : Text
  pub payload : Fields Bytes

-- `reads` has the etag observed at a key, `staged` the bytes written there, None for a deletion.
pub record Transaction : Type 0 where
  pub reads : List (Text × Option Text)
  pub ops : List Op
  pub staged : List (Text × Option Bytes)
  pub notes : List Note
  pub begin_tail : Option ℕ
  pub sequence : Option SequenceNumber

unfoldable pub new_transaction : Transaction
new_transaction = record {
  reads = [];
  ops = [];
  staged = [];
  notes = [];
  begin_tail = none;
  sequence = none;
}

module _ {V : Type 0} where
  -- A dict: `d.get(key)` and `d[key] = v`.
  unfoldable pub dict_get : Text → List (Text × V) → Option V
  dict_get key [] = none
  dict_get key ((k, v) ∷ d) = let rest = dict_get key d in ite (text_discrete k key) (some v) rest

  unfoldable pub dict_set : Text → V → List (Text × V) → List (Text × V)
  dict_set key v [] = (key, v) ∷ []
  dict_set key v ((k, w) ∷ d) =
      let rest = dict_set key v d in ite (text_discrete k key) ((k, v) ∷ d) ((k, w) ∷ rest)

  unfoldable pub dict_keys : List (Text × V) → List Text
  dict_keys [] = []
  dict_keys ((k, v) ∷ d) = k ∷ dict_keys d

unfoldable pub etag_seen : Option StoredObject → Option Text
etag_seen o = Option.map (λ x. x.etag) o

unfoldable pub bytes_seen : Option StoredObject → Option Bytes
bytes_seen o = Option.map (λ x. x.bytes) o

module _ (b : BlobStorage) where
  open b use {Store}

  unfoldable pub reread : Text → Transaction → Io Store (Option Bytes × Transaction)
  reread key tx = Effects.◌>>=◌ (get_object b key) (λ o. pure (bytes_seen o, tx))

  -- `if key in self._staged`, for a key that is in the read set.
  unfoldable pub view_key :
      Text → Transaction → Option (Option Bytes) → Io Store (Option Bytes × Transaction)
  view_key key tx (some staged) = pure (staged, tx)
  view_key key tx none = reread key tx

  unfoldable pub first_read :
      Text
      → Transaction
      → Option (Option Bytes)
      → Option StoredObject
      → Io Store (Option Bytes × Transaction)
  first_read key tx none o =
      pure (bytes_seen o, record tx { reads = dict_set key (etag_seen o) tx.reads })
  first_read key tx (some staged) o =
      pure (staged, record tx { reads = dict_set key (etag_seen o) tx.reads })

  unfoldable pub get_known :
      Text → Transaction → Option (Option Text) → Io Store (Option Bytes × Transaction)
  get_known key tx (some etag) = view_key key tx (dict_get key tx.staged)
  get_known key tx none =
      Effects.◌>>=◌ (get_object b key) (λ o. first_read key tx (dict_get key tx.staged) o)

  -- Transaction.get
  unfoldable pub get : Text → Transaction → Io Store (Option Bytes × Transaction)
  get key tx = Effects.◌>>=◌ (lift (check_key key)) (λ x. get_known key tx (dict_get key tx.reads))

unfoldable pub stage_put : Text → Bytes → Transaction → Result Transaction
stage_put key bytes tx = do
  x ← check_key key
  ok (record tx {
    ops = tx.ops ++ (put key bytes ∷ []);
    staged = dict_set key (some bytes) tx.staged;
  })

unfoldable pub stage_delete : Text → Transaction → Result Transaction
stage_delete key tx = do
  x ← check_key key
  ok (record tx { ops = tx.ops ++ (delete key ∷ []); staged = dict_set key none tx.staged })

unfoldable pub note : Text → Fields Bytes → Transaction → Transaction
note event_type payload tx = record tx {
  notes = tx.notes ++ (record { event_type = event_type; payload = payload } ∷ []);
}

abbrev pub tx_event_type : Text
tx_event_type = codes "cairndb.tx"

abbrev pub tx_schema_version : Text
tx_schema_version = codes "1.0.0"

unfoldable pub etag_value : Option Text → Packed
etag_value none = null
etag_value (some etag) = str etag

unfoldable pub reads_value : List (Text × Option Text) → Fields Bytes
reads_value [] = end
reads_value ((k, etag) ∷ reads) = field k (etag_value etag) (reads_value reads)

unfoldable pub op_value : Op → Packed
op_value (put key bytes) = obj (
    field (codes "op") (str (codes "put"))
      (field (codes "key") (str key) (field (codes "data") (raw bytes) end)))
op_value (delete key) =
    obj (field (codes "op") (str (codes "delete")) (field (codes "key") (str key) end))

unfoldable pub ops_value : List Op → Items Bytes
ops_value [] = nil
ops_value (op ∷ ops) = cons (op_value op) (ops_value ops)

unfoldable pub notes_value : List Note → Items Bytes
notes_value [] = nil
notes_value (n ∷ ns) =
    cons
      (obj (
        field (codes "event_type") (str n.event_type)
          (field (codes "payload") (obj n.payload) end)))
      (notes_value ns)

-- Transaction.to_event, at a time.
unfoldable pub to_event : ℕ → Transaction → Event
to_event t tx = record {
  event_type = tx_event_type;
  timestamp = t;
  payload = field (codes "reads") (obj (reads_value tx.reads)) (
      field (codes "ops") (arr (ops_value tx.ops))
        (field (codes "notes") (arr (notes_value tx.notes)) end));
  schema_version = tx_schema_version;
  metadata = end;
}

unfoldable pub op_key : Op → Text
op_key (put key bytes) = key
op_key (delete key) = key

-- Transaction.write_keys
unfoldable pub op_keys : List Op → List Text
op_keys [] = []
op_keys (op ∷ ops) = op_key op ∷ op_keys ops

-- {op["key"] for op in ops}
unfoldable pub item_keys : Items Bytes → Result (List Text)
item_keys nil = ok []
item_keys (cons op ops) = do
  key ← get_item (codes "key") op
  text ← as_text key
  rest ← item_keys ops
  ok (text ∷ rest)

-- payload.get("ops", [])
unfoldable pub ops_of : Fields Bytes → Result (Items Bytes)
ops_of payload = elim (find (codes "ops") payload) [ none ↦ ok nil | some ops ↦ as_items ops ]

-- _write_set
unfoldable pub write_set : Event → Result (List Text)
write_set e =
    ite (text_discrete e.event_type tx_event_type) (do ops ← ops_of e.payload; item_keys ops)
      (ok [])
