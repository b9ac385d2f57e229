-- ===== src/Engine/Document/Advances.antt =====
-- Updates of a document against other updates: none is lost.
use cairndb.Prelude.{
  ℕ, zero, suc, Text, ◌≡◌, refl, sym, ap, subst, ◌∙◌, inl, inr, true, false, Option, none, some, [],
  ◌∷◌, arith,
}
use cairndb.Storage.Interface.{BlobStorage, StoredObject}
use cairndb.Storage.Effects.{Result, ok, raised, cairndb_error, Io, get_object, put_object}
use cairndb.Storage.Rely.{
  Rely, Ensures, Ensures-pure, Ensures-raise, Ensures-ask, Ensures-lift-bind,
}
use cairndb.Storage.Recorded.{Between, each_write, each_write-Between, recorded}
use cairndb.Storage.Writes.{written, put_absent, put_match}
use cairndb.Core.Results.{ok-injective}
use cairndb.Engine.Document.{Model, keep_or_retry, create_document, update_once, update_document}

same_object : (o o' : StoredObject) → some o ≡ some o' → o ≡ o'
same_object o o' e = cc

-- An order on the values, along which the update function goes.
pub record Order {V : Type 0} (m : Model V) (fn : V → Result V) : Type 1 where
  pub Le : V → V → Type 0
  pub le_refl : (v : V) → Le v v
  pub le_trans : (u v w : V) → Le u v → Le v w → Le u w
  pub fn-Le : (v v' : V) → fn v ≡ ok v' → Le v v'
  pub from_bytes-to_bytes : (v : V) → m.from_bytes (m.to_bytes v) ≡ ok v

module _ (b : BlobStorage) {V : Type 0} (m : Model V) (key : Text) (fn : V → Result V)
    (create : Option V) (order : Order m fn) where
  open b use {Store}
  open order use {Le}

  -- The document is there, with the value.
  abbrev pub Stands : V → Store → Type 0
  Stands v s = (o : StoredObject) × ((b.get_object key s ≡ some o) × (m.from_bytes o.bytes ≡ ok v))

  -- A value that stands is replaced by later ones only.
  abbrev pub advances : Rely Store
  advances = record {
    rel = λ s t. (v : V) → Stands v s → (v' : V) × (Stands v' t × Le v v');
    here = λ s v h. (v, (h, order.le_refl v));
    trans = λ f g v h.
        let (u, (h', le)) = f v h in
        let (w, (h'', le')) = g u h' in (w, (h'', order.le_trans v u w le le'));
  }

  -- What is returned is what the function made of a value, and it stands.
  abbrev pub Updated : Result V → Store → Type 0
  Updated (ok new) s = ((v : V) × (fn v ≡ ok new)) × Stands new s
  Updated (raised e) s = Unit {0}

  module _ (R : Rely Store) (steps : Between b R advances) where
    abbrev Again : Io Store V → Type 0
    Again again = Ensures R (λ s. Unit {0}) again Updated

    abbrev Sent : V → Option Text → Store → Type 0
    Sent new none s = Unit {0}
    Sent new (some etag) s = Stands new s

    keep_or_retry-Updated :
        (v new : V) (again : Io Store V) (x : Option Text)
        → fn v ≡ ok new
        → Again again
        → Ensures R (Sent new x) (keep_or_retry b m key new again x) Updated
    unfolding keep_or_retry
    keep_or_retry-Updated v new again none e h = record { at = λ w r q. h.at w r tt }
    keep_or_retry-Updated v new again (some []) e h = record { at = λ w r q. h.at w r tt }
    keep_or_retry-Updated v new again (some (c ∷ cs)) e h = Ensures-pure R new (λ s q. ((v, e), q))

    Stands-written :
        (new : V) (s : Store)
        → b.get_object key s ≡ some (written b key (m.to_bytes new))
        → Stands new s
    Stands-written new s h = (written b key (m.to_bytes new), (h, order.from_bytes-to_bytes new))

    create_advances :
        (new : V) (s : Store)
        → advances.rel s (b.put_object key (m.to_bytes new) none true s).1
          × Sent new
              (b.put_object key (m.to_bytes new) none true s).0
              (b.put_object key (m.to_bytes new) none true s).1
    create_advances new s = elim (put_absent b key (m.to_bytes new) s) [
      | inl (free, wrote) ↦
          ((λ v h. absurd (ground (arith, free, h.1.0))), rw wrote.0 (Stands-written new _ wrote.1))
      | inr (o, e, refused) ↦ rw refused (advances.here s, tt)
    ]

    swap_advances :
        (o : StoredObject) (v new : V) (s : Store)
        → o.etag ≡ b.etag_of o.bytes
        → m.from_bytes o.bytes ≡ ok v
        → fn v ≡ ok new
        → advances.rel s (b.put_object key (m.to_bytes new) (some o.etag) false s).1
          × Sent new
              (b.put_object key (m.to_bytes new) (some o.etag) false s).0
              (b.put_object key (m.to_bytes new) (some o.etag) false s).1
    swap_advances o v new s own parsed made = elim (put_match b key (m.to_bytes new) o.etag s) [
      | inl (o', there, same, wrote) ↦ (
        (λ u h. (
          new,
          (
            Stands-written new _ wrote.1,
            subst (λ x. Le x new) (read_before u h o' there same) (order.fn-Le v new made),
          ),
        )),
        rw wrote.0 (Stands-written new _ wrote.1),
      )
      | inr (other, refused) ↦ rw refused (advances.here s, tt)
    ]
      where
        read_before :
            (u : V) (h : Stands u s) (o' : StoredObject)
            → b.get_object key s ≡ some o'
            → o'.etag ≡ o.etag
            → v ≡ u
        read_before u h o' there same = ok-injective (
            sym parsed
            ∙ ap m.from_bytes (
                b.etag_faithful o.bytes o'.bytes (sym own ∙ sym same ∙ b.etag_stored key s o' there)
                ∙ ap (λ x. x.bytes) (same_object o' h.0 (sym there ∙ h.1.0)))
            ∙ h.1.1)

    create_document-Updated :
        (again : Io Store V) (c : Option V)
        → Again again
        → Ensures R (λ s. Unit {0}) (create_document b m key fn create again c) Updated
    unfolding create_document put_object
    create_document-Updated again none h = Ensures-raise R cairndb_error (λ s q. tt)
    create_document-Updated again (some value) h =
        Ensures-lift-bind R (fn value) _
          (λ new e.
            Ensures-ask R (Sent new) _ (keep_or_retry b m key new again) (λ s t g q. q)
              (λ s q. steps.writes key (m.to_bytes new) none true s (create_advances new s).0)
              (λ s q. (create_advances new s).1) (λ s. tt)
              (λ x. keep_or_retry-Updated value new again x e h))
          (λ e s r q. tt)

    -- What is read: the object's etag is the digest of its content.
    abbrev Read : Option StoredObject → Store → Type 0
    Read none s = Unit {0}
    Read (some o) s = o.etag ≡ b.etag_of o.bytes

    Read-get_object : (s : Store) (x : Option StoredObject) → b.get_object key s ≡ x → Read x s
    Read-get_object s none e = tt
    Read-get_object s (some o) e = b.etag_stored key s o e

    update_once-Updated :
        (again : Io Store V) (x : Option StoredObject)
        → Again again
        → Ensures R (Read x) (update_once b m key fn create again x) Updated
    unfolding update_once put_object
    update_once-Updated again none h = create_document-Updated again create h
    update_once-Updated again (some o) h =
        Ensures-lift-bind R (m.from_bytes o.bytes) _
          (λ v parsed.
            Ensures-lift-bind R (fn v) _
              (λ new made.
                Ensures-ask R (Sent new) _ (keep_or_retry b m key new again) (λ s t g q. q)
                  (λ s q.
                    steps.writes key (m.to_bytes new) (some o.etag) false s
                      (swap_advances o v new s q parsed made).0)
                  (λ s q. (swap_advances o v new s q parsed made).1) (λ s. tt)
                  (λ x. keep_or_retry-Updated v new again x made h))
              (λ e s r q. tt))
          (λ e s r q. tt)

    update_document-kept : (attempts : ℕ) → Again (update_document b m key fn create attempts)
    unfolding update_document get_object
    update_document-kept zero = Ensures-raise R cairndb_error (λ s q. tt)
    update_document-kept (suc n) =
        Ensures-ask R Read _ (update_once b m key fn create (update_document b m key fn create n))
          (λ s t g q. tt) (λ s q. R.here s) (λ s q. Read-get_object s (b.get_object key s) refl)
          (λ s. tt)
          (λ x.
            update_once-Updated (update_document b m key fn create n) x (update_document-kept n))

-- While the others replace a value of the document only by later ones, in an order along which the
-- update function goes, and whatever faults occur, each write of an update does so too, so it loses
-- none of their changes; and when it returns a value, the update function has made it of another one,
-- and it stands in the document.
pub update_document-Updated :
    (b : BlobStorage) {V : Type 0} (m : Model V) (key : Text) (fn : V → Result V)
    (create : Option V) (order : Order m fn) (attempts : ℕ)
    → Ensures
        (each_write b (advances b m key fn create order))
        (λ w. Unit {0})
        (update_document (recorded b) m key fn create attempts)
        (Updated (recorded b) m key fn create order)
update_document-Updated b m key fn create order =
    update_document-kept (recorded b) m key fn create order
      (each_write b (advances b m key fn create order))
      (each_write-Between b (advances b m key fn create order))
