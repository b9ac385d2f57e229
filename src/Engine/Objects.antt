-- ===== src/Engine/Objects.antt =====
-- src/cairndb/engine/objects.py: the object operations behind check_key, and the watch, whose polls
-- are on fuel. The clock stands for time.monotonic().
use cairndb.Prelude.{
  ℕ, zero, suc, ◌+◌, Text, Bytes, text_discrete, ite, Bool, true, false, Option, none, some, leb,
}
use cairndb.Storage.Interface.{BlobStorage, StoredObject}
use cairndb.Storage.Effects.{
  Io, pure, raise, lift, now, timeout_error, get_object, put_object, delete_object, ◌>>=◌, ◌>>◌,
}
use cairndb.Engine.Keys.{check_key}

module _ (b : BlobStorage) where
  open b use {Store}

  unfoldable pub get_sync : Text → Io Store (Option StoredObject)
  get_sync key = do lift (check_key key); get_object b key

  unfoldable pub put_sync : Text → Bytes → Option Text → Bool → Io Store (Option Text)
  put_sync key bytes if_match if_absent = do
    lift (check_key key)
    put_object b key bytes if_match if_absent

  unfoldable pub delete_sync : Text → Io Store (Unit {0})
  delete_sync key = do lift (check_key key); delete_object b key

  -- changed_from is None or obj.etag != changed_from
  unfoldable pub has_changed : Option Text → StoredObject → Bool
  has_changed none o = true
  has_changed (some etag) o = ite (text_discrete o.etag etag) false true

  -- `late` is what happens when the object is not as awaited.
  unfoldable pub on_poll :
      Option Text
      → Io Store (Option StoredObject)
      → Option StoredObject
      → Io Store (Option StoredObject)
  on_poll changed_from late none = late
  on_poll changed_from late (some o) = elim (has_changed changed_from o) [
    | true ↦ pure (some o)
    | false ↦ late
  ]

  unfoldable pub wait_on : ℕ → Io Store (Option StoredObject) → Io Store (Option StoredObject)
  wait_on deadline again = do
    t ← now
    elim (leb deadline t) [ true ↦ raise timeout_error | false ↦ again ]

  unfoldable pub poll_loop : ℕ → Text → ℕ → Option Text → Io Store (Option StoredObject)
  poll_loop zero key deadline changed_from = pure none
  poll_loop (suc f) key deadline changed_from = do
    obj' ← get_object b key
    on_poll changed_from (wait_on deadline (poll_loop f key deadline changed_from)) obj'

  unfoldable pub wait_for : ℕ → Text → ℕ → Option Text → Io Store (Option StoredObject)
  wait_for fuel key timeout changed_from = do
    lift (check_key key)
    t ← now
    poll_loop fuel key (t + timeout) changed_from
