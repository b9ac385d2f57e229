-- ===== src/Engine/Lease/Handle.antt =====
-- What a store shows of a lease, and what a handle knows: the content that its etag stands for.
use cairndb.Prelude.{Text, Bytes, ◌≡◌, refl, sym, ◌∙◌, Option, none, some, arith}
use cairndb.Core.Value.{Codec}
use cairndb.Storage.Interface.{BlobStorage, StoredObject}
use cairndb.Storage.Effects.{Result, ok, raised}
use cairndb.Engine.LeaseDoc.{LeaseDoc, parse}
use cairndb.Engine.Lease.{Lease}

abbrev pub found_doc : Result LeaseDoc → Option LeaseDoc
found_doc (ok d) = some d
found_doc (raised e) = none

module _ (b : BlobStorage) (c : Codec) where
  open b use {Store}

  abbrev pub object_doc : Option StoredObject → Option LeaseDoc
  object_doc none = none
  object_doc (some o) = found_doc (parse c o.bytes)

  -- The lease document at a key, if there is one.
  unfoldable pub view : Text → Store → Option LeaseDoc
  view key s = object_doc (b.get_object key s)

  -- The handle's etag is that of a document with its epoch, holder and state.
  pub record IsHandle (l : Lease) : Type 0 where
    pub content : Bytes
    pub doc : LeaseDoc
    pub same_etag : b.etag_of content ≡ l.etag
    pub parsed : parse c content ≡ ok doc
    pub same_epoch : doc.epoch ≡ l.epoch
    pub same_holder : doc.holder ≡ l.holder
    pub same_state : doc.state ≡ some l.state

  -- An object under the handle's etag has the content that the handle knows.
  pub IsHandle-view :
      (l : Lease) (h : IsHandle l) (s : Store) (o : StoredObject)
      → b.get_object l.key s ≡ some o
      → o.etag ≡ l.etag
      → view l.key s ≡ some h.doc
  unfolding view
  IsHandle-view l h s o e p =
      let same : o.bytes ≡ h.content =
        b.etag_faithful o.bytes h.content (sym (b.etag_stored l.key s o e) ∙ p ∙ sym h.same_etag) in
      rw (e, same, h.parsed)

  -- What a view says of the object.
  pub view-eq-some :
      (key : Text) (s : Store) (d : LeaseDoc)
      → view key s ≡ some d
      → (o : StoredObject) × (b.get_object key s ≡ some o) × (parse c o.bytes ≡ ok d)
  unfolding view
  view-eq-some key s d h = go (b.get_object key s) refl h
    where
      inner : (r : Result LeaseDoc) → found_doc r ≡ some d → r ≡ ok d
      inner (ok x) p = ground arith
      inner (raised e) p = cc

      go :
          (x : Option StoredObject)
          → b.get_object key s ≡ x
          → object_doc x ≡ some d
          → (o : StoredObject) × (b.get_object key s ≡ some o) × (parse c o.bytes ≡ ok d)
      go none e p = absurd (ground arith)
      go (some o) e p = (o, e, inner (parse c o.bytes) p)
