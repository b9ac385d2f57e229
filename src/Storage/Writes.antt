-- ===== src/Storage/Writes.antt =====
-- What a conditional write does, by the case of its precondition.
use cairndb.Prelude.{
  Text, Bytes, text_discrete, ◌≡◌, sym, ◌∙◌, ◌≢◌, ◌⊎◌, inl, inr, Bool, true, false, Option, none,
  some, arith, Option-cases,
}
use cairndb.Storage.Interface.{BlobStorage, StoredObject, admits}

etag_same : (o o' : StoredObject) → some o ≡ some o' → o.etag ≡ o'.etag
etag_same o o' e = ground arith

pub admits-hit :
    (o : StoredObject) (etag : Text) → o.etag ≡ etag → admits (some o) (some etag) false ≡ true
unfolding admits
admits-hit o etag h = ground arith

pub admits-miss :
    (o : StoredObject) (etag : Text) → o.etag ≢ etag → admits (some o) (some etag) false ≡ false
unfolding admits
admits-miss o etag h = ground arith

module _ (b : BlobStorage) (key : Text) (bytes : Bytes) where
  open b use {Store}

  -- The object that a write of `bytes` leaves.
  abbrev pub written : StoredObject
  written = record { bytes = bytes; etag = b.etag_of bytes }

  abbrev pub Wrote : Option Text → Bool → Store → Type 0
  Wrote m a s =
      ((b.put_object key bytes m a s).0 ≡ some (b.etag_of bytes))
      × (b.get_object key (b.put_object key bytes m a s).1 ≡ some written)

  -- A put-if-absent creates the object, or finds one and leaves it.
  pub put_absent :
      (s : Store)
      → ((b.get_object key s ≡ none) × Wrote none true s)
        ⊎ ((o : StoredObject) × (b.get_object key s ≡ some o)
            × (b.put_object key bytes none true s ≡ (none, s)))
  unfolding admits
  put_absent s = elim (Option-cases (b.get_object key s)) [
    | inl e ↦ inl (e, b.put_admitted key bytes none true s (rw e))
    | inr (o, e) ↦ inr (o, e, b.put_refused key bytes none true s (rw e))
  ]

  -- A compare-and-swap replaces an object that carries the etag, or changes nothing.
  pub put_match :
      (etag : Text) (s : Store)
      → ((o : StoredObject) × (b.get_object key s ≡ some o)
          × (o.etag ≡ etag)
          × Wrote (some etag) false s)
        ⊎ (((o : StoredObject) → b.get_object key s ≡ some o → o.etag ≢ etag)
            × (b.put_object key bytes (some etag) false s ≡ (none, s)))
  unfolding admits
  put_match etag s = elim (Option-cases (b.get_object key s)) [
    | inl e ↦ inr ((λ o f. ground arith), b.put_refused key bytes (some etag) false s (rw e))
    | inr (o, e) ↦ elim (text_discrete o.etag etag) [
      | yes p ↦
          inl (o, e, p, b.put_admitted key bytes (some etag) false s (rw e (admits-hit o etag p)))
      | no p ↦ inr (
        (λ o' f h. p (etag_same o o' (sym e ∙ f) ∙ h)),
        b.put_refused key bytes (some etag) false s (rw e (admits-miss o etag p)),
      )
    ]
  ]
