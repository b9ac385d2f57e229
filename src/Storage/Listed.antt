-- ===== src/Storage/Listed.antt =====
-- src/cairndb/storage/base.py: a blob store with list_objects, and its documented behaviour: the keys
-- with a prefix, each once, ascending.
use cairndb.Prelude.{Text, ◌≡◌, ◌⊎◌, true, some, List, [], ◌∷◌, All}
use cairndb.Storage.Interface.{BlobStorage, StoredObject}
use cairndb.Engine.Keys.{starts_with}

abbrev pub Among : Text → List Text → Type 0
Among k [] = ⊥
Among k (j ∷ js) = (j ≡ k) ⊎ Among k js

pub record ListedStorage : Type 1 where
  pub blob : BlobStorage
  pub list_objects : Text → blob.Store → List Text
  -- What is listed exists and has the prefix.
  pub listed_there :
      (prefix : Text) (s : blob.Store)
      → All
          (λ k.
            (starts_with prefix k ≡ true) × ((o : StoredObject) × (blob.get_object k s ≡ some o)))
          (list_objects prefix s)
  -- What exists and has the prefix is listed.
  pub listed_all :
      (prefix k : Text) (o : StoredObject) (s : blob.Store)
      → blob.get_object k s ≡ some o
      → starts_with prefix k ≡ true
      → Among k (list_objects prefix s)
