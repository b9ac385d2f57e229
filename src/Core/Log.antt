-- ===== src/Core/Log.antt =====
-- src/cairndb/core/log.py and the SequenceNumber of src/cairndb/core/types.py: events, commits, and
-- their form in storage. The fields that the code takes over unchecked (event type, schema version,
-- payload, metadata) are texts and dicts here, so stored data of another shape is refused.
pub mod RoundTrip
use cairndb.Prelude.{
  ℕ, length, ◌-◌, zero, suc, Text, Bytes, codes, ◌≡◌, Option, none, some, List, [], ◌∷◌, length,
}
use cairndb.Core.Value.{
  Tree, Items, Fields, Packed, num, str, arr, obj, nil, cons, end, field, find, get_item, Codec,
}
use cairndb.Core.Results.{◌>>=◌}
use cairndb.Storage.Effects.{Result, ok, raised, value_error, type_error, decode_error}

pub record Event : Type 0 where
  pub event_type : Text
  pub timestamp : ℕ
  pub payload : Fields Bytes
  pub schema_version : Text
  pub metadata : Fields Bytes

-- SequenceNumber: the position of an event in the log.
pub record SequenceNumber : Type 0 where
  pub commit : ℕ
  pub index : ℕ

pub record SequencedEvent : Type 0 where
  pub sequence : SequenceNumber
  pub event : Event

pub record Commit : Type 0 where
  pub number : ℕ
  pub created_at : ℕ
  pub events : List Event

-- Commit(...): __post_init__ refuses number 0 and an empty batch.
unfoldable pub make_commit : ℕ → ℕ → List Event → Result Commit
make_commit zero t events = raised value_error
make_commit (suc n) t [] = raised value_error
make_commit (suc n) t (e ∷ es) = ok (record { number = suc n; created_at = t; events = e ∷ es })

-- SequenceNumber(...): an index is not negative, so only the commit is tested.
unfoldable pub make_sequence : ℕ → ℕ → Result SequenceNumber
make_sequence zero i = raised value_error
make_sequence (suc n) i = ok (record { commit = suc n; index = i })

-- Commit.sequenced_events, from index `i` on
unfoldable pub sequence_from : ℕ → ℕ → List Event → List SequencedEvent
sequence_from number i [] = []
sequence_from number i (e ∷ es) =
    record { sequence = record { commit = number; index = i }; event = e }
    ∷ sequence_from number (suc i) es

unfoldable pub sequenced_events : Commit → List SequencedEvent
unfolding sequence_from
sequenced_events c = sequence_from c.number 0 c.events

-- Commit.sequences, from index `i` on
unfoldable pub sequences_from : ℕ → ℕ → List Event → List SequenceNumber
sequences_from number i [] = []
sequences_from number i (e ∷ es) =
    record { commit = number; index = i } ∷ sequences_from number (suc i) es

unfoldable pub sequences : Commit → List SequenceNumber
unfolding sequences_from
sequences c = sequences_from c.number 0 c.events

-- A commit has an event, so the index of its last one is not negative.
unfoldable pub last_sequence : Commit → SequenceNumber
last_sequence c = record { commit = c.number; index = length c.events - 1 }

-- msgpack.packb(data, use_bin_type=True) and msgpack.unpackb(data, raw=False)
pub record MsgPack : Type 0 where
  pub packb : Packed → Bytes
  pub unpackb : Bytes → Option Packed
  pub unpackb-packb : (v : Packed) → unpackb (packb v) ≡ some v

unfoldable pub as_text : Packed → Result Text
as_text (str t) = ok t
as_text _ = raised type_error

unfoldable pub as_number : Packed → Result ℕ
as_number (num n) = ok n
as_number _ = raised type_error

unfoldable pub as_dict : Packed → Result (Fields Bytes)
as_dict (obj fs) = ok fs
as_dict _ = raised type_error

unfoldable pub as_items : Packed → Result (Items Bytes)
as_items (arr xs) = ok xs
as_items _ = raised type_error

-- data.get("metadata", {})
unfoldable pub dict_or_empty : Option Packed → Result (Fields Bytes)
unfolding as_dict
dict_or_empty none = ok end
dict_or_empty (some v) = as_dict v

module _ (c : Codec) where
  unfoldable pub to_dict : Event → Packed
  to_dict e = obj (
      field (codes "event_type") (str e.event_type) (
        field (codes "timestamp") (str (c.to_iso e.timestamp)) (
          field (codes "payload") (obj e.payload) (
            field (codes "schema_version") (str e.schema_version)
              (field (codes "metadata") (obj e.metadata) end)))))

  unfoldable pub from_iso : Text → Result ℕ
  from_iso t = elim (c.from_iso t) [ none ↦ raised value_error | some n ↦ ok n ]

  unfoldable pub from_dict : Packed → Result Event
  unfolding as_text as_dict find get_item
  from_dict (obj fs) = do
    event_type ← get_item (codes "event_type") (obj fs)
    event_type_text ← as_text event_type
    timestamp ← get_item (codes "timestamp") (obj fs)
    iso ← as_text timestamp
    t ← from_iso iso
    payload ← get_item (codes "payload") (obj fs)
    payload_dict ← as_dict payload
    schema_version ← get_item (codes "schema_version") (obj fs)
    schema_text ← as_text schema_version
    metadata ← dict_or_empty (find (codes "metadata") fs)
    ok (record {
      event_type = event_type_text;
      timestamp = t;
      payload = payload_dict;
      schema_version = schema_text;
      metadata = metadata;
    })
  from_dict _ = raised type_error

  -- [e.to_dict() for e in self.events], tuple(Event.from_dict(e) for e in …)
  unfoldable pub to_dicts : List Event → Items Bytes
  to_dicts [] = nil
  to_dicts (e ∷ es) = cons (to_dict e) (to_dicts es)

  unfoldable pub from_dicts : Items Bytes → Result (List Event)
  from_dicts nil = ok []
  from_dicts (cons v vs) = do e ← from_dict v; es ← from_dicts vs; ok (e ∷ es)

  module _ (p : MsgPack) where
    unfoldable pub to_msgpack : Commit → Bytes
    to_msgpack commit = p.packb (
        obj (
          field (codes "number") (num commit.number) (
            field (codes "created_at") (str (c.to_iso commit.created_at))
              (field (codes "events") (arr (to_dicts commit.events)) end))))

    unfoldable pub unpack : Bytes → Result Packed
    unpack bytes = elim (p.unpackb bytes) [ none ↦ raised decode_error | some v ↦ ok v ]

    unfoldable pub from_unpacked : Packed → Result Commit
    from_unpacked data' = do
      number ← get_item (codes "number") data'
      n ← as_number number
      created_at ← get_item (codes "created_at") data'
      iso ← as_text created_at
      t ← from_iso iso
      events ← get_item (codes "events") data'
      items ← as_items events
      es ← from_dicts items
      make_commit n t es

    unfoldable pub from_msgpack : Bytes → Result Commit
    from_msgpack bytes = do data' ← unpack bytes; from_unpacked data'
