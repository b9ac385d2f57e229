-- ===== src/Engine/Lease/Owned.antt =====
-- The guarded writes of a handle keep the protocol, and what they report is what is stored.
use cairndb.Prelude.{
  ℕ, zero, suc, Text, Bytes, ◌≡◌, refl, sym, ◌∙◌, subst, ◌⊎◌, inl, inr, Bool, Bool-cases, true,
  false, Option, none, some, arith,
}
use cairndb.Core.Value.{Value, Codec}
use cairndb.Storage.Interface.{BlobStorage, StoredObject}
use cairndb.Storage.Effects.{
  Result, ok, raised, key_error, lease_lost, Io, pure, get_object, put_object,
}
use cairndb.Storage.Rely.{Rely, Ensures, Ensures-pure, Ensures-try}
use cairndb.Storage.Recorded.{Between, each_write, each_write-Between, recorded}
use cairndb.Storage.Writes.{put_match, written}
use cairndb.Engine.LeaseDoc.{LeaseDoc, doc_bytes, parse, parse-doc_bytes, state_item}
use cairndb.Engine.Lease.{
  Lease, StateFn, Outcome, is_ours, same_holder, absorb, check_owner, after_reread, after_put,
  try_put, guarded_loop, guarded_put_attempts, guarded_put_sync,
}
use cairndb.Engine.Lease.Handle.{view, IsHandle, IsHandle-view}
use cairndb.Engine.Lease.Protocol.{Evolves, Evolves-refl, protocol, doc_of}

same_holder-eq : (x y : Option Text) → same_holder x y ≡ true → x ≡ y
unfolding same_holder
same_holder-eq none none h = refl
same_holder-eq (some x) (some y) h = ground arith
same_holder-eq none (some y) h = cc
same_holder-eq (some x) none h = cc

is_ours-eq :
    (l : Lease) (d : LeaseDoc) → is_ours l d ≡ true → (d.epoch ≡ l.epoch) × (d.holder ≡ l.holder)
unfolding is_ours
is_ours-eq l d h = ground (arith, same_holder-eq d.holder l.holder)

module _ (b : BlobStorage) (c : Codec) (G : Rely (Option Value)) (l : Lease) where
  open b use {Store}

  -- The handle after it has absorbed other writes to its document.
  abbrev cur : Text → Value → Lease
  cur etag v = record l { etag = etag; state = v }

  abbrev lease_view : Store → Option LeaseDoc
  lease_view = view b c l.key

  -- The method was called with the new holder `holder`, the new deadline `t` and `fn` on the state.
  module _ (holder : Option Text) (t : ℕ) (fn : StateFn) where
    -- The state function made the value of a state.
    abbrev Made : Value → Type 0
    Made v = (x : Value) × (fn x ≡ ok v)

    -- An outcome: after success the document that the handle tells has been stored, and what is there
    -- now has evolved from it; the handle's etag is that of the bytes of this document. Unless a foreign document without a state was met, the handle still knows
    -- the document of its etag.
    abbrev pub Reports : Result Outcome → Store → Type 0
    Reports (raised e) s = ⊥
    Reports (ok (raised e, l')) s =
        ((e ≡ key_error) ⊎ IsHandle b c l') × (l'.epoch ≡ l.epoch) × (l'.holder ≡ l.holder)
    Reports (ok (ok u, l')) s =
        IsHandle b c l'
        × (l'.epoch ≡ l.epoch)
        × (l'.holder ≡ holder)
        × (l'.deadline_at ≡ t)
        × (b.etag_of (doc_bytes c l'.epoch l'.holder l'.deadline_at l'.state) ≡ l'.etag)
        × Made l'.state
        × Evolves G (some (doc_of l')) (lease_view s)

    abbrev new_doc : Value → LeaseDoc
    new_doc v = record { epoch = l.epoch; holder = holder; deadline_at = t; state = some v }

    abbrev content : Value → Bytes
    content v = doc_bytes c l.epoch holder t v

    abbrev pub Keeps : Value → Value → Type 0
    Keeps old v = ((holder ≡ l.holder) ⊎ (holder ≡ none)) × G.rel (some old) (some v)

    -- The outcome of the put.
    abbrev Put : Value → Result (Option Text) → Store → Type 0
    Put v (raised e) s = Unit {0}
    Put v (ok none) s = Unit {0}
    Put v (ok (some etag)) s =
        (b.etag_of (content v) ≡ etag) × Evolves G (some (new_doc v)) (lease_view s)

    view-written :
        (v : Value) (s : Store)
        → b.get_object l.key s ≡ some (written b l.key (content v))
        → lease_view s ≡ some (new_doc v)
    unfolding view
    view-written v s e = rw (e, parse-doc_bytes c l.epoch holder t v)

    module _ (etag : Text) (old v : Value) (h : IsHandle b c (cur etag old))
        (keeps : Keeps old v) where
      abbrev after : Store → Option Text × Store
      after = b.put_object l.key (content v) (some etag) false

      evolves_written : Evolves G (some h.doc) (some (new_doc v))
      evolves_written =
          inr (
            sym h.same_epoch,
            held keeps.0,
            subst (λ x. G.rel x (some v)) (sym h.same_state) keeps.1,
          )
        where
          held : (holder ≡ l.holder) ⊎ (holder ≡ none) → (holder ≡ h.doc.holder) ⊎ (holder ≡ none)
          held (inl e) = inl (e ∙ sym h.same_holder)
          held (inr e) = inr e

      put_evolves : (s : Store) → (protocol G b c l.key).rel s (after s).1
      put_evolves s = elim (put_match b l.key (content v) etag s) [
        | inl (o, there, same, wrote) ↦
            rw
              (
                IsHandle-view b c (cur etag old) h s o there same,
                view-written v (after s).1 wrote.1,
              )
              evolves_written
        | inr (other, refused) ↦ rw refused (Evolves-refl G (lease_view s))
      ]

      Put-written : (s : Store) → Put v (ok (after s).0) (after s).1
      Put-written s = elim (put_match b l.key (content v) etag s) [
        | inl (o, there, same, wrote) ↦
            rw wrote.0
              (refl, rw (view-written v (after s).1 wrote.1) (Evolves-refl G (some (new_doc v))))
        | inr (other, refused) ↦ rw refused tt
      ]

    -- The hypotheses on the new holder and on the state function.
    abbrev pub Allowed : Type 0
    Allowed = (x v : Value) → fn x ≡ ok v → Keeps x v

    module _ (R : Rely Store) (steps : Between b R (protocol G b c l.key)) where
      -- What is known of the attempts that are left.
      abbrev Carries : (Lease → Io Store Outcome) → Type 0
      Carries again =
          (etag : Text) (v : Value)
          → IsHandle b c (cur etag v)
          → Ensures R (λ s. Unit {0}) (again (cur etag v)) Reports

      module _ (etag : Text) (old : Value) (h : IsHandle b c (cur etag old)) where
        absorb-Reports :
            (again : Lease → Io Store Outcome) (x : Bytes) (doc : LeaseDoc) (new : Text)
            (r : Result Value)
            → Carries again
            → b.etag_of x ≡ new
            → parse c x ≡ ok doc
            → (doc.epoch ≡ l.epoch) × (doc.holder ≡ l.holder)
            → state_item doc ≡ r
            → Ensures R (λ s. Unit {0}) (absorb b c again (cur etag old) new r) Reports
        unfolding absorb state_item
        absorb-Reports again x doc new (ok v) k tag parsed ours e = k new v (record {
          content = x;
          doc = doc;
          same_etag = tag;
          parsed = parsed;
          same_epoch = ours.0;
          same_holder = ours.1;
          same_state = ground arith;
        })
        absorb-Reports again x doc new (raised err) k tag parsed ours e =
            Ensures-pure R _ (λ s p. (inl (ground arith), refl, refl))

        check_owner-Reports :
            (again : Lease → Io Store Outcome) (x : Bytes) (new : Text) (r : Result LeaseDoc)
            → Carries again
            → b.etag_of x ≡ new
            → parse c x ≡ r
            → Ensures R (λ s. Unit {0}) (check_owner b c again (cur etag old) new r) Reports
        unfolding check_owner
        check_owner-Reports again x new (raised e) k tag parsed =
            Ensures-pure R _ (λ s p. (inr h, refl, refl))
        check_owner-Reports again x new (ok doc) k tag parsed =
            elim (Bool-cases (is_ours (cur etag old) doc)) [
              | inl ours ↦
                  rw (ours, check_owner)
                    (absorb-Reports again x doc new (state_item doc) k tag parsed
                      (is_ours-eq (cur etag old) doc ours) refl)
              | inr other ↦ rw (other, check_owner) (Ensures-pure R _ (λ s p. (inr h, refl, refl)))
            ]

        abbrev Reread : Result (Option StoredObject) → Store → Type 0
        Reread (ok (some o)) s = b.etag_of o.bytes ≡ o.etag
        Reread _ s = Unit {0}

        Reread-stored : (s : Store) → Reread (ok (b.get_object l.key s)) s
        Reread-stored s = go (b.get_object l.key s) refl
          where
            go : (x : Option StoredObject) → b.get_object l.key s ≡ x → Reread (ok x) s
            go none e = tt
            go (some o) e = sym (b.etag_stored l.key s o e)

        after_reread-Reports :
            (again : Lease → Io Store Outcome) (r : Result (Option StoredObject))
            → Carries again
            → Ensures R (Reread r) (after_reread b c again (cur etag old) r) Reports
        unfolding after_reread
        after_reread-Reports again (raised e) k = Ensures-pure R _ (λ s p. (inr h, refl, refl))
        after_reread-Reports again (ok none) k = Ensures-pure R _ (λ s p. (inr h, refl, refl))
        after_reread-Reports again (ok (some o)) k = record {
          at = λ w g p.
              (check_owner-Reports again o.bytes o.etag (parse c o.bytes) k p refl).at w g tt;
        }

        after_put-Reports :
            (again : Lease → Io Store Outcome) (v : Value) (r : Result (Option Text))
            → Carries again
            → Made v
            → Ensures R (Put v r) (after_put b c again (cur etag old) holder t v r) Reports
        unfolding after_put get_object
        after_put-Reports again v (raised e) k made = Ensures-pure R _ (λ s p. (inr h, refl, refl))
        after_put-Reports again v (ok (some new)) k made = Ensures-pure R _ (λ s p. (
          record {
            content = content v;
            doc = new_doc v;
            same_etag = p.0;
            parsed = parse-doc_bytes c l.epoch holder t v;
            same_epoch = refl;
            same_holder = refl;
            same_state = refl;
          },
          refl,
          refl,
          refl,
          p.0,
          made,
          p.1,
        ))
        after_put-Reports again v (ok none) k made =
            Ensures-try R Reread _ (after_reread b c again (cur etag old)) (λ s u g p. tt)
              (λ s p. R.here s) (λ s p. Reread-stored s) (λ s p. tt) (λ s p. tt)
              (λ r. after_reread-Reports again r k)

        try_put-Reports :
            (again : Lease → Io Store Outcome) (r : Result Value)
            → Carries again
            → ((v : Value) → r ≡ ok v → Keeps old v × Made v)
            → Ensures R (λ s. Unit {0}) (try_put b c again (cur etag old) holder t r) Reports
        unfolding try_put put_object
        try_put-Reports again (raised e) k keeps = Ensures-pure R _ (λ s p. (inr h, refl, refl))
        try_put-Reports again (ok v) k keeps =
            Ensures-try R (Put v) _ (after_put b c again (cur etag old) holder t v) (λ s u g p. tt)
              (λ s p.
                steps.writes l.key (content v) (some etag) false s
                  (put_evolves etag old v h (keeps v refl).0 s))
              (λ s p. Put-written etag old v h (keeps v refl).0 s) (λ s p. tt) (λ s p. tt)
              (λ r. after_put-Reports again v r k (keeps v refl).1)

      guarded_loop-Carries : Allowed → (n : ℕ) → Carries (guarded_loop b c n holder t fn)
      unfolding guarded_loop
      guarded_loop-Carries ok_fn zero etag v h = Ensures-pure _ _ (λ s p. (inr h, refl, refl))
      guarded_loop-Carries ok_fn (suc n) etag v h =
          try_put-Reports etag v h (guarded_loop b c n holder t fn) (fn v)
            (guarded_loop-Carries ok_fn n) (λ x e. (ok_fn v x e, (v, e)))

      pub guarded_put_sync-kept :
          Allowed
          → IsHandle b c l
          → Ensures R (λ s. Unit {0}) (guarded_put_sync b c holder t fn l) Reports
      unfolding guarded_put_sync
      guarded_put_sync-kept ok_fn h = go l.released
        where
          go :
              (x : Bool)
              → Ensures R
                  (λ s. Unit {0})
                  (elim x [
                    | true ↦ pure (raised lease_lost, l)
                    | false ↦ guarded_loop b c guarded_put_attempts holder t fn l
                  ])
                  Reports
          go true = Ensures-pure _ _ (λ s p. (inr h, refl, refl))
          go false = guarded_loop-Carries ok_fn 2 l.etag l.state h

-- While the others keep the protocol of the lease, and whatever calls fail, each write of a guarded put
-- keeps it: it replaces a document of the handle's epoch, keeps its holder or releases it, and moves
-- the state by the state function. When it reports success, the document that the handle tells (its
-- epoch, the new holder, the new deadline and a state that the function has made) was stored with the
-- etag that the handle tells, and what is there now has evolved from it.
pub guarded_put_sync-Reports :
    (b : BlobStorage) (c : Codec) (G : Rely (Option Value)) (l : Lease) (holder : Option Text)
    (t : ℕ) (fn : StateFn)
    → Allowed (recorded b) c G l holder t fn
    → IsHandle (recorded b) c l
    → Ensures
        (each_write b (protocol G b c l.key))
        (λ w. Unit {0})
        (guarded_put_sync (recorded b) c holder t fn l)
        (Reports (recorded b) c G l holder t fn)
unfolding view
guarded_put_sync-Reports b c G l holder t fn ok_fn h =
    guarded_put_sync-kept (recorded b) c G l holder t fn (each_write b (protocol G b c l.key))
      (each_write-Between b (protocol G b c l.key)) ok_fn h
