-- ===== src/Storage/Filesystem.antt =====
-- src/cairndb/storage/filesystem.py: the generic object API of the filesystem backend. The compare
-- and the replace stand under one exclusive flock, so `put_locked` is one step. Lock files and
-- temporary files are dot-files that no operation reads, and are left out.
-- Parameters: `md5`, hashlib's digest, and `resolve`, the path of a key below the root, if it has one.
pub mod Contract
pub mod Commits
use cairndb.Prelude.{
  Text, Bytes, text_discrete, ite, ◌≡◌, refl, ◌≢◌, Bool, true, false, Option, none, some, [], ◌∷◌,
  ◌++◌, arith, Option-cases,
}
use mathlib.Core.Option
use cairndb.Storage.Interface.{BlobStorage, StoredObject, admits}
use cairndb.Storage.Effects.{Result, ok, raised, value_error, storage_error}
use cairndb.Storage.Files.{Files, read_file, replace, unlink, read_file-unlink, read_file-replace}

-- `if_absent and current is not None`, or `if_match is not None and (current is None or …)`
unfoldable pub fails_guard : Option Text → Option Text → Bool → Bool
fails_guard (some found) if_match true = true
fails_guard (some found) none false = false
fails_guard (some found) (some etag) false = ite (text_discrete found etag) false true
fails_guard none (some etag) if_absent = true
fails_guard none none if_absent = false

module _ (md5 : Bytes → Text) where
  unfoldable pub stored : Bytes → StoredObject
  stored bytes = record { bytes = bytes; etag = md5 bytes }

  -- The body of put_object_sync under the lock.
  unfoldable pub put_locked : Text → Bytes → Option Text → Bool → Files → Option Text × Files
  put_locked target bytes if_match if_absent fs =
      elim (fails_guard (Option.map md5 (read_file target fs)) if_match if_absent) [
        | true ↦ (none, fs)
        | false ↦ (some (md5 bytes), replace target bytes fs)
      ]

  module _ (resolve : Text → Option Text) where
    unfoldable pub get_object_sync : Text → Files → Result (Option StoredObject)
    get_object_sync key fs = elim (resolve key) [
      | none ↦ raised storage_error
      | some target ↦ ok (Option.map stored (read_file target fs))
    ]

    -- `_check_object_preconditions` comes first, then the path.
    unfoldable pub put_object_sync :
        Text → Bytes → Option Text → Bool → Files → Result (Option Text) × Files
    put_object_sync key bytes (some etag) true fs = (raised value_error, fs)
    put_object_sync key bytes if_match if_absent fs = elim (resolve key) [
      | none ↦ (raised storage_error, fs)
      | some target ↦
          let (etag, fs') = put_locked target bytes if_match if_absent fs in (ok etag, fs')
    ]

    unfoldable pub append_object_sync : Text → Bytes → Files → Result Bool × Files
    append_object_sync key bytes fs = elim (resolve key) [
      | none ↦ (raised storage_error, fs)
      | some target ↦ (ok true, replace target (Option.get_or (read_file target fs) [] ++ bytes) fs)
    ]

    unfoldable pub delete_object_sync : Text → Files → Result (Unit {0}) × Files
    delete_object_sync key fs = elim (resolve key) [
      | none ↦ (raised storage_error, fs)
      | some target ↦ (ok tt, unlink target fs)
    ]
