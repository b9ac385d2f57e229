-- ===== src/Storage/Append.antt =====
-- src/cairndb/storage/base.py: append_object_sync of the abstract class, a loop of compare-and-swaps.
pub mod Landed
use cairndb.Prelude.{ℕ, zero, suc, Text, Bytes, Bool, true, false, Option, none, some, ◌++◌}
use cairndb.Storage.Interface.{BlobStorage, StoredObject}
use cairndb.Storage.Effects.{Io, pure, get_object, put_object, ◌>>=◌}

-- _APPEND_ATTEMPTS
abbrev pub append_attempts : ℕ
append_attempts = 8

module _ (b : BlobStorage) (key : Text) (data' : Bytes) where
  open b use {Store}

  unfoldable pub retry : Io Store Bool → Option Text → Io Store Bool
  retry again none = again
  retry again (some etag) = pure true

  unfoldable pub extend : Io Store Bool → Option StoredObject → Io Store Bool
  extend again none = do etag ← put_object b key data' none true; retry again etag
  extend again (some o) = do
    etag ← put_object b key (o.bytes ++ data') (some o.etag) false
    retry again etag

  unfoldable pub append_loop : ℕ → Io Store Bool
  append_loop zero = pure false
  append_loop (suc n) = do current ← get_object b key; extend (append_loop n) current

  unfoldable pub append_object : Io Store Bool
  append_object = append_loop append_attempts
