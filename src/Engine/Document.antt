-- ===== src/Engine/Document.antt =====
-- src/cairndb/engine/coordination.py: Document, a value that is updated by compare-and-swap. The model
-- class is its serializer and validator, parameters here, as is the update function. A put counts as
-- done when the etag it returns is not empty.
pub mod Advances
use cairndb.Prelude.{ℕ, zero, suc, Text, Bytes, true, false, Option, none, some, [], ◌∷◌}
use cairndb.Storage.Interface.{BlobStorage, StoredObject}
use cairndb.Storage.Effects.{
  Result, Io, pure, raise, lift, cairndb_error, get_object, put_object, delete_object, ◌>>=◌,
}
use cairndb.Engine.Keys.{check_key}

pub record Model (V : Type 0) : Type 0 where
  pub to_bytes : V → Bytes
  pub from_bytes : Bytes → Result V

-- The key, which the constructor has checked.
unfoldable pub new_document : Text → Result (Unit {0})
new_document key = check_key key

module _ (b : BlobStorage) {V : Type 0} (m : Model V) (key : Text) where
  open b use {Store}

  unfoldable pub on_object : Option StoredObject → Io Store (Option (V × Text))
  on_object none = pure none
  on_object (some o) = do value ← lift (m.from_bytes o.bytes); pure (some (value, o.etag))

  unfoldable pub read_document : Io Store (Option (V × Text))
  read_document = do o ← get_object b key; on_object o

  unfoldable pub keep_or_retry : V → Io Store V → Option Text → Io Store V
  keep_or_retry new again none = again
  keep_or_retry new again (some []) = again
  keep_or_retry new again (some (c ∷ cs)) = pure new

  module _ (fn : V → Result V) (create : Option V) where
    unfoldable pub create_document : Io Store V → Option V → Io Store V
    create_document again none = raise cairndb_error
    create_document again (some value) = do
      new ← lift (fn value)
      etag ← put_object b key (m.to_bytes new) none true
      keep_or_retry new again etag

    unfoldable pub update_once : Io Store V → Option StoredObject → Io Store V
    update_once again none = create_document again create
    update_once again (some o) = do
      value ← lift (m.from_bytes o.bytes)
      new ← lift (fn value)
      etag ← put_object b key (m.to_bytes new) (some o.etag) false
      keep_or_retry new again etag

    -- update_sync, by the attempts left
    unfoldable pub update_document : ℕ → Io Store V
    update_document zero = raise cairndb_error
    update_document (suc n) = do o ← get_object b key; update_once (update_document n) o

  unfoldable pub delete_document : Io Store (Unit {0})
  delete_document = delete_object b key
