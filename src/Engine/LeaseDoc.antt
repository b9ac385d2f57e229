-- ===== src/Engine/LeaseDoc.antt =====
-- src/cairndb/engine/coordination.py: the lease document {epoch, holder, deadline_at, state}, how it
-- is written and read, and when it is free to take.
use cairndb.Prelude.{
  ℕ, Text, Bytes, text_discrete, codes, ◌≡◌, refl, Bool, true, Option, none, some, leb,
}
use cairndb.Core.Value.{
  Value, Fields, null, num, str, obj, end, field, find, get_item, Codec, decode, decode-dumps,
}
use cairndb.Storage.Effects.{Result, ok, raised, type_error, key_error, value_error}
use cairndb.Core.Results.{◌>>=◌}

-- `state` is None where the document has no such field; a field that holds null is `some null`.
pub record LeaseDoc : Type 0 where
  pub epoch : ℕ
  pub holder : Option Text
  pub deadline_at : ℕ
  pub state : Option Value

abbrev pub holder_value : Option Text → Value
holder_value none = null
holder_value (some h) = str h

unfoldable pub as_epoch : Value → Result ℕ
as_epoch (num n) = ok n
as_epoch _ = raised type_error

unfoldable pub as_holder : Value → Result (Option Text)
as_holder null = ok none
as_holder (str h) = ok (some h)
as_holder _ = raised type_error

unfoldable pub fields_of : Value → Fields ⊥
fields_of (obj fs) = fs
fields_of _ = end

-- doc["state"], doc.get("state")
unfoldable pub state_item : LeaseDoc → Result Value
state_item doc = elim doc.state [ none ↦ raised key_error | some v ↦ ok v ]

unfoldable pub state_get : LeaseDoc → Value
state_get doc = elim doc.state [ none ↦ null | some v ↦ v ]

module _ (c : Codec) where
  unfoldable pub as_timestamp : Value → Result ℕ
  as_timestamp (str t) = elim (c.from_iso t) [ none ↦ raised value_error | some n ↦ ok n ]
  as_timestamp _ = raised type_error

  unfoldable pub doc_value : ℕ → Option Text → ℕ → Value → Value
  doc_value epoch holder deadline_at state = obj (
      field (codes "deadline_at") (str (c.to_iso deadline_at)) (
        field (codes "epoch") (num epoch)
          (field (codes "holder") (holder_value holder) (field (codes "state") state end))))

  unfoldable pub doc_bytes : ℕ → Option Text → ℕ → Value → Bytes
  doc_bytes epoch holder deadline_at state = c.dumps (doc_value epoch holder deadline_at state)

  -- The fields that every caller goes on to read are read here.
  unfoldable pub parse_value : Value → Result LeaseDoc
  parse_value doc = do
    iso ← get_item (codes "deadline_at") doc
    deadline ← as_timestamp iso
    epoch_item ← get_item (codes "epoch") doc
    epoch ← as_epoch epoch_item
    holder_item ← get_item (codes "holder") doc
    holder ← as_holder holder_item
    ok (record {
      epoch = epoch;
      holder = holder;
      deadline_at = deadline;
      state = find (codes "state") (fields_of doc);
    })

  unfoldable pub parse : Bytes → Result LeaseDoc
  parse bytes = do doc ← decode c bytes; parse_value doc

-- Lease._is_expired
unfoldable pub is_expired : LeaseDoc → ℕ → Bool
is_expired doc now = elim doc.holder [ none ↦ true | some h ↦ leb doc.deadline_at now ]

module _ (c : Codec) where
  holder_value_lem : (h : Option Text) → as_holder (holder_value h) ≡ ok h
  unfolding as_holder
  holder_value_lem none = refl
  holder_value_lem (some h) = refl

  as_timestamp_lem : (t : ℕ) → as_timestamp c (str (c.to_iso t)) ≡ ok t
  unfolding as_timestamp
  as_timestamp_lem t = rw (c.from_iso-to_iso t, as_timestamp)

  -- A lease document is read as it was written.
  pub parse-doc_bytes :
      (epoch : ℕ) (holder : Option Text) (deadline_at : ℕ) (state : Value)
      → parse c (doc_bytes c epoch holder deadline_at state)
        ≡ ok (record {
          epoch = epoch;
          holder = holder;
          deadline_at = deadline_at;
          state = some state;
        })
  unfolding parse doc_bytes parse_value doc_value get_item find fields_of as_epoch text_discrete
  parse-doc_bytes epoch holder deadline_at state = rw (
    decode-dumps c (doc_value c epoch holder deadline_at state),
    as_timestamp_lem,
    holder_value_lem,
  )
