-- ===== src/Engine/Cooperative.antt =====
-- src/cairndb/engine/coordination.py: `cooperative_write_sync`, a write into the lease's state from
-- outside the lease.
pub mod Observed
use cairndb.Prelude.{ℕ, zero, suc, Text, false, Option, none, some}
use cairndb.Core.Value.{Value, Codec}
use cairndb.Storage.Interface.{BlobStorage, StoredObject}
use cairndb.Storage.Effects.{
  cairndb_error, Io, pure, raise, lift, get_object, put_object, ◌>>=◌, ◌>>◌,
}
use cairndb.Engine.Keys.{check_key}
use cairndb.Engine.LeaseDoc.{doc_bytes, parse, state_item}
use cairndb.Engine.Lease.{StateFn}

abbrev pub update_attempts : ℕ
update_attempts = 10

module _ (b : BlobStorage) (c : Codec) where
  open b use {Store}

  unfoldable pub finish : Io Store (Option Value) → Value → Option Text → Io Store (Option Value)
  finish again state none = again
  finish again state (some etag) = pure (some state)

  unfoldable pub rewrite :
      Text → StateFn → Io Store (Option Value) → Option StoredObject → Io Store (Option Value)
  rewrite key fn again none = pure none
  rewrite key fn again (some o) = do
    doc ← lift (parse c o.bytes)
    old ← lift (state_item doc)
    state ← lift (fn old)
    etag ←
        put_object b key (doc_bytes c doc.epoch doc.holder doc.deadline_at state) (some o.etag)
          false
    finish again state etag

  unfoldable pub write_loop : ℕ → Text → StateFn → Io Store (Option Value)
  write_loop zero key fn = raise cairndb_error
  write_loop (suc n) key fn = do
    current ← get_object b key
    rewrite key fn (write_loop n key fn) current

  unfoldable pub cooperative_write_sync : Text → StateFn → Io Store (Option Value)
  cooperative_write_sync key fn = do lift (check_key key); write_loop update_attempts key fn
