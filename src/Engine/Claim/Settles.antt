-- ===== src/Engine/Claim/Settles.antt =====
-- Claims against interference that never alters or deletes a claimed object.
use cairndb.Prelude.{
  ℕ, suc, Text, Bytes, ◌≡◌, refl, sym, ◌∙◌, ◌⊎◌, inl, inr, true, Option, none, some, arith,
}
use cairndb.Core.Value.{Value, Codec, decode, decode-dumps, decode-raised}
use cairndb.Storage.Interface.{BlobStorage, StoredObject}
use cairndb.Storage.Effects.{
  Result, ok, raised, storage_error, decode_error, Io, put_object, get_object,
}
use cairndb.Storage.Rely.{Rely, Ensures, Ensures-pure, Ensures-ask, Ensures-lift-bind}
use cairndb.Storage.Writes.{put_absent, written}
use cairndb.Engine.Keys.{check_key}
use cairndb.Engine.Claim.{ClaimResult, claim_loop, claim_sync, after_put, read_winner}

module _ (b : BlobStorage) (key : Text) where
  open b use {Store}

  -- Whoever else writes, an object at `key` stays as it is.
  abbrev pub immutable : Rely Store
  immutable = record {
    rel = λ s t. (o : StoredObject) → b.get_object key s ≡ some o → b.get_object key t ≡ some o;
    here = λ s o h. h;
    trans = λ f g o h. g o (f o h);
  }

  pub put_absent-immutable :
      (bytes : Bytes) (s : Store) → immutable.rel s (b.put_object key bytes none true s).1
  put_absent-immutable bytes s o e = elim (put_absent b key bytes s) [
    | inl (free, won) ↦ cc
    | inr (o', e', lost) ↦ rw lost e
  ]

  module _ (c : Codec) where
    -- The object at `key` is the winner's, and the result tells of it.
    pub record Tells (r : ClaimResult) (s : Store) : Type 0 where
      pub object : StoredObject
      pub stored : b.get_object key s ≡ some object
      pub same_etag : r.etag ≡ object.etag
      pub same_value : decode c object.bytes ≡ ok r.value

    -- A claim that ends with an exception ends by the store's, or by a foreign content at the key.
    abbrev pub Settled : Result ClaimResult → Store → Type 0
    Settled (ok r) s = Tells r s
    Settled (raised e) s = (e ≡ storage_error) ⊎ (e ≡ decode_error)

    -- What a read of the key has returned is still there.
    abbrev Found : Option StoredObject → Store → Type 0
    Found x s = (o : StoredObject) × (x ≡ some o) × (b.get_object key s ≡ some o)

    -- The outcome of the put-if-absent.
    abbrev Put : Value → Option Text → Store → Type 0
    Put value (some etag) s =
        (b.get_object key s ≡ some (written b key (c.dumps value)))
        × (etag ≡ b.etag_of (c.dumps value))
    Put value none s = (o : StoredObject) × (b.get_object key s ≡ some o)

    Put-absent :
        (value : Value) (s : Store)
        → Put value
            (b.put_object key (c.dumps value) none true s).0
            (b.put_object key (c.dumps value) none true s).1
    Put-absent value s = elim (put_absent b key (c.dumps value) s) [
      | inl (e, won) ↦ rw won.0 (won.1, refl)
      | inr (o, e, lost) ↦ rw lost (o, e)
    ]

    read_winner-Settled :
        (again : Io Store ClaimResult) (x : Option StoredObject)
        → Ensures immutable (Found x) (read_winner b c key again x) Settled
    unfolding read_winner decode
    read_winner-Settled again none = record { at = λ w r p. absurd (ground arith) }
    read_winner-Settled again (some o) =
        Ensures-lift-bind immutable (decode c o.bytes) _
          (λ v e. Ensures-pure immutable _ (λ s h. record {
            object = o;
            stored = h.2 ∙ sym h.1;
            same_etag = refl;
            same_value = e;
          }))
          (λ e s h p. inr (decode-raised c o.bytes h))

    after_put-Settled :
        (again : Io Store ClaimResult) (value : Value) (x : Option Text)
        → Ensures immutable (Put value x) (after_put b c key value again x) Settled
    unfolding after_put get_object
    after_put-Settled again value (some etag) = Ensures-pure immutable _ (λ s p. record {
      object = written b key (c.dumps value);
      stored = p.0;
      same_etag = p.1;
      same_value = decode-dumps c value;
    })
    after_put-Settled again value none =
        Ensures-ask immutable Found _ (read_winner b c key again) (λ s t h p. (p.0, h p.0 p.1))
          (λ s p o e. e) (λ s p. (p.0, p.1, p.1)) (λ s. inl refl) (read_winner-Settled again)

    claim_loop-Settled :
        (n : ℕ) (value : Value)
        → Ensures immutable (λ s. Unit {0}) (claim_loop b c (suc n) key value) Settled
    unfolding claim_loop put_object
    claim_loop-Settled n value =
        Ensures-ask immutable (Put value) _ (after_put b c key value (claim_loop b c n key value))
          (λ s t h p. tt) (λ s p. put_absent-immutable (c.dumps value) s)
          (λ s p. Put-absent value s) (λ s. inl refl)
          (after_put-Settled (claim_loop b c n key value) value)

    -- Under any interference that never alters or deletes what is at the key, and whatever calls fail,
    -- a claim keeps to that rule itself and settles within its attempts: a result tells the etag and
    -- the value of the object at the key, and the only exceptions are the store's and that of a key
    -- whose content is not JSON.
    pub claim_sync-Settled :
        (value : Value)
        → check_key key ≡ ok tt
        → Ensures immutable (λ s. Unit {0}) (claim_sync b c key value) Settled
    unfolding claim_sync
    claim_sync-Settled value h =
        Ensures-lift-bind immutable (check_key key) _ (λ u e. claim_loop-Settled 7 value)
          (λ e s f p. absurd (ground arith))
