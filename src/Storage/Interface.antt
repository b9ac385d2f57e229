-- ===== src/Storage/Interface.antt =====
-- src/cairndb/storage/base.py: the generic conditional object API, as a record of operations on the
-- state of a store and of the laws that its documentation states. A call is one atomic operation.
-- The laws are those of a backend whose etag is a digest of the content, as the filesystem's is.
use cairndb.Prelude.{
  Text, Bytes, text_discrete, ite, ◌≡◌, ◌≢◌, Bool, true, false, not, Option, none, some,
}

pub record StoredObject : Type 0 where
  pub bytes : Bytes
  pub etag : Text

-- The precondition of `put_object`: `if_match` against the etag of what is there, `if_absent`. The source
-- raises ValueError for both of them together; no caller that is modelled passes both.
unfoldable pub admits : Option StoredObject → Option Text → Bool → Bool
admits none none if_absent = true
admits none (some etag) if_absent = false
admits (some o) none if_absent = not if_absent
admits (some o) (some etag) true = false
admits (some o) (some etag) false = ite (text_discrete o.etag etag) true false

pub record BlobStorage : Type 1 where
  pub Store : Type 0
  pub get_object : Text → Store → Option StoredObject
  pub put_object : Text → Bytes → Option Text → Bool → Store → Option Text × Store
  pub delete_object : Text → Store → Store
  pub etag_of : Bytes → Text
  -- A failed precondition changes nothing and returns None.
  pub put_refused :
      (key : Text) (bytes : Bytes) (if_match : Option Text) (if_absent : Bool) (s : Store)
      → admits (get_object key s) if_match if_absent ≡ false
      → put_object key bytes if_match if_absent s ≡ (none, s)
  -- A write that is admitted returns the new etag, and is read back under it.
  pub put_admitted :
      (key : Text) (bytes : Bytes) (if_match : Option Text) (if_absent : Bool) (s : Store)
      → admits (get_object key s) if_match if_absent ≡ true
      → ((put_object key bytes if_match if_absent s).0 ≡ some (etag_of bytes))
        × (get_object key (put_object key bytes if_match if_absent s).1
            ≡ some (record { bytes = bytes; etag = etag_of bytes }))
  pub put_other :
      (key j : Text) (bytes : Bytes) (if_match : Option Text) (if_absent : Bool) (s : Store)
      → key ≢ j
      → get_object j (put_object key bytes if_match if_absent s).1 ≡ get_object j s
  pub get-delete :
      (key j : Text) (s : Store)
      → get_object j (delete_object key s) ≡ ite (text_discrete key j) none (get_object j s)
  -- The etag of a stored object is the digest of its content, and tells contents apart.
  pub etag_stored :
      (key : Text) (s : Store) (o : StoredObject)
      → get_object key s ≡ some o
      → o.etag ≡ etag_of o.bytes
  pub etag_faithful : (a b : Bytes) → etag_of a ≡ etag_of b → a ≡ b
