-- ===== src/Storage/Recorded.antt =====
-- A blob store that records what each write does that took place, so that a statement on a program that
-- runs on it tells of every single write of the program, and not of its start and its end alone.
use cairndb.Prelude.{Text, Bytes, ◌≡◌, refl, ap, ◌∙◌, Bool, Option, none, some, List, ◌∷◌, All}
use cairndb.Storage.Interface.{BlobStorage}
use cairndb.Storage.Rely.{Rely}

-- The writes, the last one first, each with the store before it and after it.
abbrev pub History : Type 0 → Type 0
History S = List (S × S)

abbrev pub note_write :
    {S : Type 0} → Option Text → S → S → History S → Option Text × (S × History S)
note_write none s t h = (none, (t, h))
note_write (some etag) s t h = (some etag, (t, (s, t) ∷ h))

pub note_write_store :
    {S : Type 0} (x : Option Text) (s t : S) (h : History S) → (note_write x s t h).1.0 ≡ t
note_write_store none s t h = refl
note_write_store (some etag) s t h = refl

pub note_write_answer :
    {S : Type 0} (x : Option Text) (s t : S) (h : History S) → (note_write x s t h).0 ≡ x
note_write_answer none s t h = refl
note_write_answer (some etag) s t h = refl

module _ (b : BlobStorage) where
  abbrev pub recorded_put :
      Text
      → Bytes
      → Option Text
      → Bool
      → b.Store × History b.Store
      → Option Text × (b.Store × History b.Store)
  recorded_put key bytes m a w =
      note_write (b.put_object key bytes m a w.0).0 w.0 (b.put_object key bytes m a w.0).1 w.1

  abbrev pub recorded : BlobStorage
  recorded = record {
    Store = b.Store × History b.Store;
    get_object = λ key w. b.get_object key w.0;
    put_object = recorded_put;
    delete_object = λ key w. (b.delete_object key w.0, w.1);
    etag_of = b.etag_of;
    put_refused = λ key bytes m a w h. rw (b.put_refused key bytes m a w.0 h) refl;
    put_admitted = λ key bytes m a w h. (
      note_write_answer (b.put_object key bytes m a w.0).0 w.0 (b.put_object key bytes m a w.0).1
            w.1
          ∙ (b.put_admitted key bytes m a w.0 h).0,
      ap (b.get_object key) (
            note_write_store (b.put_object key bytes m a w.0).0 w.0
              (b.put_object key bytes m a w.0).1 w.1)
          ∙ (b.put_admitted key bytes m a w.0 h).1,
    );
    put_other = λ key j bytes m a w ne.
        ap (b.get_object j) (
          note_write_store (b.put_object key bytes m a w.0).0 w.0 (b.put_object key bytes m a w.0).1
            w.1)
        ∙ b.put_other key j bytes m a w.0 ne;
    get-delete = λ key j w. b.get-delete key j w.0;
    etag_stored = λ key w o h. b.etag_stored key w.0 o h;
    etag_faithful = b.etag_faithful;
  }

  -- Each write that is recorded keeps the bound.
  abbrev pub AllKeep : Rely b.Store → History b.Store → Type 0
  AllKeep bound = All (λ p. bound.rel p.0 p.1)

  -- A step keeps the bound, and each write in it does so by itself.
  abbrev pub each_write : Rely b.Store → Rely (b.Store × History b.Store)
  each_write bound = record {
    rel = λ v w. bound.rel v.0 w.0 × (AllKeep bound v.1 → AllKeep bound w.1);
    here = λ w. (bound.here w.0, λ h. h);
    trans = λ f g. (bound.trans f.0 g.0, λ h. g.1 (f.1 h));
  }

-- Between R and a bound: a step of R is within the bound, and a write that is within the bound is a
-- step of R.
pub record Between (b : BlobStorage) (R bound : Rely b.Store) : Type 0 where
  pub within : (s t : b.Store) → R.rel s t → bound.rel s t
  pub writes :
      (key : Text) (bytes : Bytes) (m : Option Text) (a : Bool) (s : b.Store)
      → bound.rel s (b.put_object key bytes m a s).1
      → R.rel s (b.put_object key bytes m a s).1

pub Between-refl : (b : BlobStorage) (R : Rely b.Store) → Between b R R
Between-refl b R = record { within = λ s t r. r; writes = λ key bytes m a s r. r }

-- The bound, on the stores that are recorded, without what their histories tell.
abbrev pub unrecorded : (b : BlobStorage) → Rely b.Store → Rely (b.Store × History b.Store)
unrecorded b bound = record {
  rel = λ v w. bound.rel v.0 w.0;
  here = λ w. bound.here w.0;
  trans = λ f g. bound.trans f g;
}

note_write-each :
    (b : BlobStorage) (bound : Rely b.Store) (x : Option Text) (s t : b.Store) (h : History b.Store)
    → bound.rel s (note_write x s t h).1.0
    → (each_write b bound).rel (s, h) (note_write x s t h).1
note_write-each b bound none s t h r = (r, λ k. k)
note_write-each b bound (some etag) s t h r = (r, λ k. (r, k))

pub each_write-Between :
    (b : BlobStorage) (bound : Rely b.Store)
    → Between (recorded b) (each_write b bound) (unrecorded b bound)
each_write-Between b bound = record {
  within = λ v w r. r.0;
  writes = λ key bytes m a w r.
      note_write-each b bound (b.put_object key bytes m a w.0).0 w.0
        (b.put_object key bytes m a w.0).1 w.1 r;
}
