-- ===== src/Storage/Append/Landed.antt =====
-- Appends against other appends: none is lost.
use cairndb.Prelude.{
  ℕ, zero, suc, Text, Bytes, ◌≡◌, refl, sym, ap, ◌∙◌, inl, inr, Bool, true, false, Option, none,
  some, [], ◌++◌, arith,
}
use mathlib.Core.List.{append-nil, append_assoc}
use cairndb.Storage.Interface.{BlobStorage, StoredObject}
use cairndb.Storage.Effects.{Result, ok, Io, get_object, put_object}
use cairndb.Storage.Rely.{Rely, Ensures, Ensures-pure, Ensures-ask}
use cairndb.Storage.Recorded.{Between, each_write, each_write-Between, recorded}
use cairndb.Storage.Writes.{written, put_absent, put_match}
use cairndb.Storage.Append.{append_attempts, retry, extend, append_loop, append_object}

same_object : (o o' : StoredObject) → some o ≡ some o' → o ≡ o'
same_object o o' e = cc

module _ (b : BlobStorage) (key : Text) where
  open b use {Store}

  -- The object is there, and its content starts with the bytes.
  abbrev pub StartsWith : Bytes → Store → Type 0
  StartsWith bytes s =
      (o : StoredObject) × (b.get_object key s ≡ some o)
      × ((rest : Bytes) × (o.bytes ≡ bytes ++ rest))

  -- What the object holds stays at its start.
  abbrev pub extends : Rely Store
  extends = record {
    rel = λ s t. (bytes : Bytes) → StartsWith bytes s → StartsWith bytes t;
    here = λ s bytes h. h;
    trans = λ f g bytes h. g bytes (f bytes h);
  }

  -- An answer `true` says that the data stands in the object.
  abbrev pub Landed : Bytes → Result Bool → Store → Type 0
  Landed data' (ok true) s = (before : Bytes) × StartsWith (before ++ data') s
  Landed data' x s = Unit {0}

  module _ (data' : Bytes) (R : Rely Store) (steps : Between b R extends) where
    abbrev Sent : Bytes → Option Text → Store → Type 0
    Sent before none s = Unit {0}
    Sent before (some etag) s = StartsWith (before ++ data') s

    Again : Io Store Bool → Type 0
    Again m = Ensures R (λ s. Unit {0}) m (Landed data')

    retry-Landed :
        (before : Bytes) (again : Io Store Bool) (x : Option Text)
        → Again again
        → Ensures R (Sent before x) (retry b key data' again x) (Landed data')
    unfolding retry Again
    retry-Landed before again none h = record { at = λ w r q. h.at w r tt }
    retry-Landed before again (some etag) h = Ensures-pure R true (λ s q. (before, q))

    create_extends :
        (s : Store)
        → extends.rel s (b.put_object key data' none true s).1
          × Sent [] (b.put_object key data' none true s).0 (b.put_object key data' none true s).1
    create_extends s = elim (put_absent b key data' s) [
      | inl (free, wrote) ↦ (
        (λ bytes h. absurd (ground (arith, free, h.1))),
        rw wrote.0 (written b key data', wrote.1, ([], sym (append-nil data'))),
      )
      | inr (o, e, refused) ↦ rw refused ((λ bytes h. h), tt)
    ]

    swap_extends :
        (o : StoredObject) (s : Store)
        → o.etag ≡ b.etag_of o.bytes
        → extends.rel s (b.put_object key (o.bytes ++ data') (some o.etag) false s).1
          × Sent o.bytes
              (b.put_object key (o.bytes ++ data') (some o.etag) false s).0
              (b.put_object key (o.bytes ++ data') (some o.etag) false s).1
    swap_extends o s own = elim (put_match b key (o.bytes ++ data') o.etag s) [
      | inl (o', there, same, wrote) ↦ (
        (λ bytes h. (
          written b key (o.bytes ++ data'),
          wrote.1,
          (h.2.0 ++ data', longer bytes h o' there same),
        )),
        rw wrote.0
            (written b key (o.bytes ++ data'), wrote.1, ([], sym (append-nil (o.bytes ++ data')))),
      )
      | inr (other, refused) ↦ rw refused ((λ bytes h. h), tt)
    ]
      where
        longer :
            (bytes : Bytes) (h : StartsWith bytes s) (o' : StoredObject)
            → b.get_object key s ≡ some o'
            → o'.etag ≡ o.etag
            → o.bytes ++ data' ≡ bytes ++ (h.2.0 ++ data')
        longer bytes h o' there same =
            ap (λ xs. xs ++ data')
              (b.etag_faithful o.bytes o'.bytes (sym own ∙ sym same ∙ b.etag_stored key s o' there)
                ∙ ap (λ x. x.bytes) (same_object o' h.0 (sym there ∙ h.1))
                ∙ h.2.1)
            ∙ append_assoc bytes h.2.0 data'

    -- What is read: the object's etag is the digest of its content.
    abbrev Read : Option StoredObject → Store → Type 0
    Read none s = Unit {0}
    Read (some o) s = o.etag ≡ b.etag_of o.bytes

    Read-get_object : (s : Store) (x : Option StoredObject) → b.get_object key s ≡ x → Read x s
    Read-get_object s none e = tt
    Read-get_object s (some o) e = b.etag_stored key s o e

    extend-Landed :
        (again : Io Store Bool) (x : Option StoredObject)
        → Again again
        → Ensures R (Read x) (extend b key data' again x) (Landed data')
    unfolding extend put_object
    extend-Landed again none h =
        Ensures-ask R (Sent []) _ (retry b key data' again) (λ s t g q. tt)
          (λ s q. steps.writes key data' none true s (create_extends s).0)
          (λ s q. (create_extends s).1) (λ s. tt) (λ x. retry-Landed [] again x h)
    extend-Landed again (some o) h =
        Ensures-ask R (Sent o.bytes) _ (retry b key data' again) (λ s t g q. q)
          (λ s q. steps.writes key (o.bytes ++ data') (some o.etag) false s (swap_extends o s q).0)
          (λ s q. (swap_extends o s q).1) (λ s. tt) (λ x. retry-Landed o.bytes again x h)

    append_loop-Landed : (n : ℕ) → Again (append_loop b key data' n)
    unfolding append_loop get_object Again
    append_loop-Landed zero = Ensures-pure R false (λ s q. tt)
    append_loop-Landed (suc n) =
        Ensures-ask R Read _ (extend b key data' (append_loop b key data' n)) (λ s t g q. tt)
          (λ s q. R.here s) (λ s q. Read-get_object s (b.get_object key s) refl) (λ s. tt)
          (λ x. extend-Landed (append_loop b key data' n) x (append_loop-Landed n))

    append_object-kept : Again (append_object b key data')
    unfolding append_object Again
    append_object-kept = append_loop-Landed append_attempts

-- While the others only extend the object at its end, and whatever faults occur, each write of an
-- append does so too, so it loses none of theirs; and when it answers true, its data stands in the
-- object in one piece.
pub append_object-Landed :
    (b : BlobStorage) (key : Text) (data' : Bytes)
    → Ensures
        (each_write b (extends b key))
        (λ w. Unit {0})
        (append_object (recorded b) key data')
        (Landed (recorded b) key data')
unfolding Again
append_object-Landed b key data' =
    append_object-kept (recorded b) key data' (each_write b (extends b key))
      (each_write-Between b (extends b key))
