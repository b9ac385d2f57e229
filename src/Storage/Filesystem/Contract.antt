-- ===== src/Storage/Filesystem/Contract.antt =====
-- The filesystem backend keeps the contract of a blob store, on the paths below its root.
use cairndb.Prelude.{
  Text, Bytes, text_discrete, ite, ◌≡◌, ◌≢◌, Bool, true, false, Option, none, some, arith,
  if◌then◌else◌,
}
use mathlib.Core.Option
use cairndb.Storage.Interface.{BlobStorage, StoredObject, admits}
use cairndb.Storage.Files.{Files, read_file, unlink, read_file-unlink, read_file-replace}
use cairndb.Storage.Filesystem.{fails_guard, stored, put_locked}

module _ (md5 : Bytes → Text) where
  -- A read of a path.
  unfoldable pub get_at : Text → Files → Option StoredObject
  unfolding stored
  get_at path fs = Option.map (stored md5) (read_file path fs)

  -- The locked tests are the precondition of the contract.
  fails_guard-admits :
      (path : Text) (fs : Files) (m : Option Text) (a : Bool)
      → (x : Bool) → admits (get_at path fs) m a ≡ x
      → fails_guard (Option.map md5 (read_file path fs)) m a ≡ (if x then false else true)
  unfolding fails_guard admits get_at stored
  fails_guard-admits path fs m a x h = ground arith

  pub put_locked_refused :
      (path : Text) (bytes : Bytes) (m : Option Text) (a : Bool) (fs : Files)
      → admits (get_at path fs) m a ≡ false
      → put_locked md5 path bytes m a fs ≡ (none, fs)
  unfolding put_locked
  put_locked_refused path bytes m a fs h = ground (arith, fails_guard-admits path fs m a false h)

  pub put_locked_admitted :
      (path : Text) (bytes : Bytes) (m : Option Text) (a : Bool) (fs : Files)
      → admits (get_at path fs) m a ≡ true
      → ((put_locked md5 path bytes m a fs).0 ≡ some (md5 bytes))
        × (get_at path (put_locked md5 path bytes m a fs).1
            ≡ some (record { bytes = bytes; etag = md5 bytes }))
  unfolding put_locked get_at stored
  put_locked_admitted path bytes m a fs h =
      ground (arith, fails_guard-admits path fs m a true h, read_file-replace path path bytes fs)

  pub put_locked_other :
      (path j : Text) (bytes : Bytes) (m : Option Text) (a : Bool) (fs : Files)
      → path ≢ j
      → get_at j (put_locked md5 path bytes m a fs).1 ≡ get_at j fs
  unfolding put_locked get_at stored
  put_locked_other path j bytes m a fs h = ground (arith, read_file-replace path j bytes fs)

  pub get_at-unlink :
      (path j : Text) (fs : Files)
      → get_at j (unlink path fs) ≡ ite (text_discrete path j) none (get_at j fs)
  unfolding get_at stored
  get_at-unlink path j fs = ground (arith, read_file-unlink path j fs)

  pub get_at-stored :
      (path : Text) (fs : Files) (o : StoredObject) → get_at path fs ≡ some o → o.etag ≡ md5 o.bytes
  unfolding get_at stored
  get_at-stored path fs o h = ground arith

  module _ (faithful : (a b : Bytes) → md5 a ≡ md5 b → a ≡ b) where
    abbrev pub files_storage : BlobStorage
    files_storage = record {
      Store = Files;
      get_object = get_at;
      put_object = put_locked md5;
      delete_object = unlink;
      etag_of = md5;
      put_refused = put_locked_refused;
      put_admitted = put_locked_admitted;
      put_other = put_locked_other;
      get-delete = get_at-unlink;
      etag_stored = get_at-stored;
      etag_faithful = faithful;
    }
