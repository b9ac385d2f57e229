-- ===== src/Engine/Cooperative/Observed.antt =====
-- A cooperative write changes the state alone, so it fences nobody.
use cairndb.Prelude.{Text, Bytes, ◌≡◌, false, Option, none, some}
use cairndb.Core.Value.{Value, Codec}
use cairndb.Storage.Interface.{BlobStorage, StoredObject}
use cairndb.Storage.Effects.{Result, ok, put_object}
use cairndb.Storage.Rely.{Rely}
use cairndb.Storage.Recorded.{Between}
use cairndb.Engine.LeaseDoc.{LeaseDoc, doc_bytes, parse}
use cairndb.Engine.Lease.{StateFn}
use cairndb.Engine.Lease.Handle.{view}
use cairndb.Engine.Lease.Protocol.{Evolves, protocol}

module _ (b : BlobStorage) (c : Codec) (G : Rely (Option Value)) (key : Text) (fn : StateFn)
    (within : (x v : Value) → fn x ≡ ok v → G.rel (some x) (some v)) where
  open b use {Store}

  -- The state that was written was once the document's, and what is there now has evolved from it.
  abbrev pub Written : Result (Option Value) → Store → Type 0
  Written (ok (some v)) s =
      (d : LeaseDoc) × (d.state ≡ some v) × Evolves G (some d) (view b c key s)
  Written _ s = Unit {0}

  abbrev with_state : LeaseDoc → Value → LeaseDoc
  with_state d v = record d { state = some v }

  abbrev Put : LeaseDoc → Value → Option Text → Store → Type 0
  Put d v none s = Unit {0}
  Put d v (some etag) s = Evolves G (some (with_state d v)) (view b c key s)

  module _ (x : Bytes) (d : LeaseDoc) (old v : Value) (parsed : parse c x ≡ ok d)
      (was : d.state ≡ some old) (applied : fn old ≡ ok v) where
    put : Store → Option Text × Store
    put = b.put_object key (doc_bytes c d.epoch d.holder d.deadline_at v) (some (b.etag_of x)) false

  module _ (R : Rely Store) (steps : Between b R (protocol G b c key)) where
    abbrev Any : Store → Type 0
    Any s = Unit {0}

    abbrev Current : Option StoredObject → Store → Type 0
    Current none s = Unit {0}
    Current (some o) s = b.etag_of o.bytes ≡ o.etag
