-- ===== src/Engine/Lease/Fenced.antt =====
-- A fenced handle: the document's epoch has passed the handle's. No write of the handle reaches the
-- store any more.
use cairndb.Prelude.{
  ℕ, ◌<◌, Text, Bytes, ◌≡◌, refl, sym, ap, ◌⊎◌, inl, inr, Bool, true, false, Option, none, some,
  arith,
}
use cairndb.Core.Value.{Value, Codec}
use cairndb.Storage.Interface.{BlobStorage, StoredObject}
use cairndb.Storage.Effects.{
  Result, ok, raised, Error, storage_error, lease_lost, Io, pure, get_object, put_object,
}
use cairndb.Storage.Rely.{Rely, IsStable, Ensures, Ensures-pure, Ensures-try}
use cairndb.Storage.Writes.{put_match}
use cairndb.Engine.LeaseDoc.{LeaseDoc, parse}
use cairndb.Engine.Lease.{
  Lease, StateFn, Outcome, is_ours, check_owner, after_reread, after_put, try_put, guarded_loop,
  guarded_put_attempts, guarded_put_sync,
}
use cairndb.Engine.Lease.Handle.{view, IsHandle, IsHandle-view, view-eq-some}

stored_error :
    {e : Error}
    → (◌≡◌ {A = Result (Option Text)} (raised e) (ok none))
      ⊎ (◌≡◌ {A = Result (Option Text)} (raised e) (raised storage_error))
    → ◌≡◌ {A = Result (Unit {0})} (raised e) (raised storage_error)
stored_error p = ground arith

not_ours : (l : Lease) (d : LeaseDoc) → l.epoch < d.epoch → is_ours l d ≡ false
unfolding is_ours
not_ours l d h = ground arith

module _ (b : BlobStorage) (c : Codec) (l : Lease) where
  open b use {Store}

  abbrev pub IsFenced : Store → Type 0
  IsFenced s = (d : LeaseDoc) × (view b c l.key s ≡ some d) × (l.epoch < d.epoch)

  module _ (h : IsHandle b c l) where
    -- The guard fails, so the put changes nothing.
    put_fenced :
        (content : Bytes) (s : Store)
        → IsFenced s
        → b.put_object l.key content (some l.etag) false s ≡ (none, s)
    put_fenced content s (d, e, lt) = elim (put_match b l.key content l.etag s) [
      | inl (o, there, same, wrote) ↦
          absurd (grind (arith, IsHandle-view b c l h s o there same, h.same_epoch))
      | inr (other, refused) ↦ refused
    ]

    module _ (fn : StateFn) where
      -- How a method of a fenced handle ends: the lease is lost, a call failed, or the state function
      -- raised; and the handle is as it was.
      abbrev pub Lost : Result Outcome → Store → Type 0
      Lost (raised e) s = ⊥
      Lost (ok (r, l')) s =
          IsFenced s
          × (l' ≡ l)
          × ((r ≡ raised lease_lost)
              ⊎ ((r ≡ raised storage_error)
                  ⊎ ((e : Error) × (fn l.state ≡ raised e) × (r ≡ raised e))))

      abbrev Refused : Result (Option Text) → Store → Type 0
      Refused r s = IsFenced s × ((r ≡ ok none) ⊎ (r ≡ raised storage_error))

      abbrev Reread : Result (Option StoredObject) → Store → Type 0
      Reread (raised e) s = IsFenced s × (e ≡ storage_error)
      Reread (ok none) s = ⊥
      Reread (ok (some o)) s =
          IsFenced s × ((d : LeaseDoc) × (parse c o.bytes ≡ ok d) × (l.epoch < d.epoch))

      Reread-fenced : (s : Store) → IsFenced s → Reread (ok (b.get_object l.key s)) s
      Reread-fenced s (d, e, lt) =
          let (o, there, parsed) = view-eq-some b c l.key s d e in
          rw there ((d, e, lt), (d, parsed, lt))

      module _ (R : Rely Store) (stable : IsStable R IsFenced) where
        check_owner-Lost :
            (again : Lease → Io Store Outcome) (etag : Text) (r : Result LeaseDoc) (d : LeaseDoc)
            → r ≡ ok d
            → l.epoch < d.epoch
            → Ensures R IsFenced (check_owner b c again l etag r) Lost
        unfolding check_owner
        check_owner-Lost again etag r d e lt =
            rw (e, check_owner, not_ours l d lt) (Ensures-pure R _ (λ s p. (p, refl, inl refl)))

        after_reread-Lost :
            (again : Lease → Io Store Outcome) (r : Result (Option StoredObject))
            → Ensures R (Reread r) (after_reread b c again l r) Lost
        unfolding after_reread
        after_reread-Lost again (raised e) =
            Ensures-pure R _ (λ s p. (p.0, refl, inr (inl (ap raised p.1))))
        after_reread-Lost again (ok none) = Ensures-pure R _ (λ s p. absurd p)
        after_reread-Lost again (ok (some o)) = record {
          at = λ w r p.
              (check_owner-Lost again o.etag (parse c o.bytes) p.1.0 p.1.1 p.1.2).at w r p.0;
        }

        after_put-Lost :
            (again : Lease → Io Store Outcome) (holder : Option Text) (t : ℕ) (v : Value)
            (r : Result (Option Text))
            → Ensures R (Refused r) (after_put b c again l holder t v r) Lost
        unfolding after_put get_object
        after_put-Lost again holder t v (raised e) =
            Ensures-pure R _ (λ s p. (p.0, refl, inr (inl (stored_error p.1))))
        after_put-Lost again holder t v (ok (some etag)) =
            Ensures-pure R _ (λ s p. absurd (ground arith))
        after_put-Lost again holder t v (ok none) =
            Ensures-try R Reread _ (after_reread b c again l) (λ s t' g p. (stable s t' g p.0, p.1))
              (λ s p. R.here s) (λ s p. Reread-fenced s p.0) (λ s p. (p.0, refl))
              (λ s p. (p.0, refl)) (after_reread-Lost again)

        try_put-Lost :
            (again : Lease → Io Store Outcome) (holder : Option Text) (t : ℕ) (r : Result Value)
            → r ≡ fn l.state
            → Ensures R IsFenced (try_put b c again l holder t r) Lost
        unfolding try_put put_object
        try_put-Lost again holder t (raised e) same =
            Ensures-pure R _ (λ s p. (p, refl, inr (inr (e, sym same, refl))))
        try_put-Lost again holder t (ok v) same =
            Ensures-try R Refused _ (after_put b c again l holder t v) stable
              (λ s p. rw (put_fenced _ s p) (R.here s)) (λ s p. rw (put_fenced _ s p) (p, inl refl))
              (λ s p. (p, inr refl)) (λ s p. rw (put_fenced _ s p) (p, inr refl))
              (after_put-Lost again holder t v)

        -- Through a fenced handle nothing is written: whatever the others do, as long as they do not
        -- turn the epoch back, the method makes no change of its own and ends by an exception.
        pub guarded_put_sync-Lost :
            (holder : Option Text) (t : ℕ)
            → Ensures R IsFenced (guarded_put_sync b c holder t fn l) Lost
        unfolding guarded_put_sync guarded_loop
        guarded_put_sync-Lost holder t = go l.released
          where
            go :
                (x : Bool)
                → Ensures R IsFenced
                    (elim x [
                      | true ↦ pure (raised lease_lost, l)
                      | false ↦ guarded_loop b c guarded_put_attempts holder t fn l
                    ])
                    Lost
            go true = Ensures-pure R _ (λ s p. (p, refl, inl refl))
            go false = try_put-Lost _ holder t (fn l.state) refl
