-- ===== src/Engine/Acquire/Alone.antt =====
-- An acquisition that nobody interferes with, by what it finds at the key.
use cairndb.Prelude.{
  ℕ, ◌+◌, ◌≤◌, ◌<◌, Text, ◌≡◌, refl, ap, ◌∙◌, true, false, Option, none, some, not, ◌&&◌, ◌⊎◌, inl,
  inr, arith,
}
use cairndb.Core.Value.{Value, null, Codec}
use cairndb.Storage.Interface.{BlobStorage, StoredObject, admits}
use cairndb.Storage.Effects.{ok, World, Io, pure, get_object, put_object}
use cairndb.Storage.Writes.{written, Wrote, admits-hit}
use cairndb.Storage.Alone.{alone, run-lift, run-call, run-now}
use cairndb.Engine.Keys.{check_key}
use cairndb.Engine.LeaseDoc.{LeaseDoc, doc_bytes, parse, is_expired, state_get}
use cairndb.Engine.Lease.{Lease}
use cairndb.Engine.Acquire.{
  Request, new_lease, settle, create, take_over, consider, on_current, acquire_loop, acquire_sync,
  is_held, apply_fn, check_ttl,
}

module _ (b : BlobStorage) (c : Codec) (q : Request) (s : b.Store) (t : ℕ)
    (valid : check_key q.key ≡ ok tt) (positive : check_ttl q.ttl ≡ ok tt) where
  open b use {Store}

  settle-won :
      (epoch deadline : ℕ) (v : Value) (again : Io Store (Option Lease)) (x : Option Text)
      (w : World Store) {etag : Text}
      → x ≡ some etag
      → settle b c q epoch deadline v again x w ≡ (ok (some (new_lease q epoch deadline v etag)), w)
  unfolding settle pure
  settle-won epoch deadline v again x w e = rw e

  starts :
      acquire_sync b c q (alone s t)
      ≡ on_current b c q t (acquire_loop b c 7 q) (b.get_object q.key s) (alone s t)
  unfolding acquire_sync acquire_loop get_object
  starts =
      run-lift _ _ (alone s t) valid
      ∙ run-lift _ _ (alone s t) positive
      ∙ run-now _ s t
      ∙ run-call (λ x. (b.get_object q.key x, x)) (on_current b c q t (acquire_loop b c 7 q)) s t

  -- At a free key the lease is created, with epoch 1.
  pub acquire_sync-creates :
      (v : Value)
      → b.get_object q.key s ≡ none
      → apply_fn q.state_fn null ≡ ok v
      → (etag : Text) × (s' : Store) × (acquire_sync b c q (alone s t)
          ≡ (ok (some (new_lease q 1 (t + q.ttl) v etag)), alone s' t))
        × (b.get_object q.key s' ≡ some (written b q.key (doc_bytes c 1 q.holder (t + q.ttl) v)))
  unfolding on_current create put_object admits
  acquire_sync-creates v free applied = (
    b.etag_of (doc_bytes c 1 q.holder (t + q.ttl) v),
    (put s).1,
    starts
        ∙ ap (λ x. on_current b c q t (acquire_loop b c 7 q) x (alone s t)) free
        ∙ run-lift _ _ (alone s t) applied
        ∙ run-call put (settle b c q 1 (t + q.ttl) v (acquire_loop b c 7 q)) s t
        ∙ settle-won 1 (t + q.ttl) v (acquire_loop b c 7 q) (put s).0 (alone (put s).1 t) wrote.0,
    wrote.1,
  )
    where
      put : Store → Option Text × Store
      put = b.put_object q.key (doc_bytes c 1 q.holder (t + q.ttl) v) none true

      wrote : Wrote b q.key (doc_bytes c 1 q.holder (t + q.ttl) v) none true s
      wrote = b.put_admitted q.key _ none true s (rw (free, admits))

  module _ (o : StoredObject) (doc : LeaseDoc) (there : b.get_object q.key s ≡ some o)
      (parsed : parse c o.bytes ≡ ok doc) where
    considers :
        acquire_sync b c q (alone s t)
        ≡ consider b c q t (acquire_loop b c 7 q) doc o.etag (alone s t)
    unfolding on_current
    considers =
        starts
        ∙ ap (λ x. on_current b c q t (acquire_loop b c 7 q) x (alone s t)) there
        ∙ run-lift _ _ (alone s t) parsed

    -- The lease is free at the time: nobody holds it, or its holder let it expire and the caller steals.
    abbrev pub IsFree : Type 0
    IsFree =
        (doc.holder ≡ none)
        ⊎ ((h : Text) × (doc.holder ≡ some h) × (doc.deadline_at ≤ t) × (q.steal_if_expired ≡ true))

    -- It is not: it has a holder, and its deadline is later or the caller does not steal.
    abbrev pub IsTaken : Type 0
    IsTaken =
        (h : Text) × (doc.holder ≡ some h) × ((t < doc.deadline_at) ⊎ (q.steal_if_expired ≡ false))

    IsFree-grants : IsFree → is_expired doc t && not (is_held doc && not q.steal_if_expired) ≡ true
    unfolding is_expired is_held
    IsFree-grants (inl nobody) = rw nobody refl
    IsFree-grants (inr (h, held, late, steals)) = ground arith

    IsTaken-refuses :
        IsTaken → is_expired doc t && not (is_held doc && not q.steal_if_expired) ≡ false
    unfolding is_expired is_held
    IsTaken-refuses (h, held, inl early) = ground arith
    IsTaken-refuses (h, held, inr keeps) = ground arith

    -- With nobody else about, a lease that has a holder is refused before its deadline, and after it to
    -- a caller that does not steal; nothing changes.
    pub acquire_sync-refuses : IsTaken → acquire_sync b c q (alone s t) ≡ (ok none, alone s t)
    unfolding consider pure
    acquire_sync-refuses taken = let h = IsTaken-refuses taken in considers ∙ (rw (h, consider))

    -- With nobody else about, a lease without a holder, and one whose deadline has come if the caller
    -- steals, is taken over: a document with the next epoch, the caller's holder and a deadline one ttl
    -- away is stored, and its lease is returned.
    pub acquire_sync-takes :
        (v : Value)
        → IsFree
        → apply_fn q.state_fn (state_get doc) ≡ ok v
        → (etag : Text) × (s' : Store) × (acquire_sync b c q (alone s t)
            ≡ (ok (some (new_lease q (doc.epoch + 1) (t + q.ttl) v etag)), alone s' t))
          × (b.get_object q.key s'
              ≡ some (written b q.key (doc_bytes c (doc.epoch + 1) q.holder (t + q.ttl) v)))
    unfolding consider take_over put_object
    acquire_sync-takes v free applied = (
      b.etag_of (doc_bytes c (doc.epoch + 1) q.holder (t + q.ttl) v),
      (put s).1,
      considers
          ∙ takes
          ∙ run-lift _ _ (alone s t) applied
          ∙ run-call put (settle b c q (doc.epoch + 1) (t + q.ttl) v (acquire_loop b c 7 q)) s t
          ∙ settle-won (doc.epoch + 1) (t + q.ttl) v (acquire_loop b c 7 q) (put s).0
              (alone (put s).1 t) wrote.0,
      wrote.1,
    )
      where
        takes :
            consider b c q t (acquire_loop b c 7 q) doc o.etag (alone s t)
            ≡ take_over b c q (t + q.ttl) doc o.etag (acquire_loop b c 7 q) (alone s t)
        takes = rw (IsFree-grants free, consider)

        put : Store → Option Text × Store
        put =
            b.put_object q.key (doc_bytes c (doc.epoch + 1) q.holder (t + q.ttl) v) (some o.etag)
              false

        wrote :
            Wrote b q.key (doc_bytes c (doc.epoch + 1) q.holder (t + q.ttl) v) (some o.etag) false s
        wrote = b.put_admitted q.key _ (some o.etag) false s (rw there (admits-hit o o.etag refl))
