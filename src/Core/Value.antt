-- ===== src/Core/Value.antt =====
-- The plain values that the program stores as JSON, and what it relies on of `json` and `datetime`.
-- A dict is its fields in the order in which they are written.
-- Numbers are the natural ones: epochs, commit numbers and counts.
use cairndb.Prelude.{ℕ, Text, Bytes, text_discrete, ite, ◌≡◌, Bool, Option, none, some, arith}
use cairndb.Storage.Effects.{Error, Result, ok, raised, type_error, key_error, decode_error}

-- `raw` holds what only one of the formats can: the byte strings of MessagePack, nothing in JSON.
mutual
  pub data Tree (B : Type 0) : Type 0 where
    null : Tree B
    boolean : Bool → Tree B
    num : ℕ → Tree B
    str : Text → Tree B
    raw : B → Tree B
    arr : Items B → Tree B
    obj : Fields B → Tree B

  pub data Items (B : Type 0) : Type 0 where
    nil : Items B
    cons : Tree B → Items B → Items B

  pub data Fields (B : Type 0) : Type 0 where
    end : Fields B
    field : Text → Tree B → Fields B → Fields B

abbrev pub Value : Type 0
Value = Tree ⊥

abbrev pub Packed : Type 0
Packed = Tree Bytes

unfoldable pub find : {B : Type 0} → Text → Fields B → Option (Tree B)
find key end = none
find key (field k v fs) = ite (text_discrete k key) (some v) (find key fs)

-- `doc[key]`
unfoldable pub get_item : {B : Type 0} → Text → Tree B → Result (Tree B)
get_item key (obj fs) = elim (find key fs) [ none ↦ raised key_error | some v ↦ ok v ]
get_item key _ = raised type_error

-- json.dumps(value, separators, sort_keys).encode(), json.loads, and datetime's ISO 8601 form of a
-- UTC time, which is counted in microseconds here.
pub record Codec : Type 0 where
  pub dumps : Value → Bytes
  pub loads : Bytes → Option Value
  pub to_iso : ℕ → Text
  pub from_iso : Text → Option ℕ
  pub loads-dumps : (v : Value) → loads (dumps v) ≡ some v
  pub from_iso-to_iso : (t : ℕ) → from_iso (to_iso t) ≡ some t

-- `_decode`: JSONDecodeError is a ValueError of its own kind.
unfoldable pub decode : Codec → Bytes → Result Value
decode c bytes = elim (c.loads bytes) [ none ↦ raised decode_error | some v ↦ ok v ]

module _ (c : Codec) where
  pub decode-dumps : (v : Value) → decode c (c.dumps v) ≡ ok v
  unfolding decode
  decode-dumps v = rw (c.loads-dumps v, decode)

  pub decode-raised : (bytes : Bytes) {e : Error} → decode c bytes ≡ raised e → e ≡ decode_error
  unfolding decode
  decode-raised bytes h = ground arith
