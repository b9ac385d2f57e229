-- ===== src/Engine/Lease/Absorbs.antt =====
-- A guarded write that nobody interferes with, after a cooperative write that the handle has not seen.
use cairndb.Prelude.{ℕ, Text, ◌≡◌, ◌≢◌, refl, sym, ap, ◌∙◌, true, false, Option, none, some, arith}
use cairndb.Core.Value.{Value, Codec}
use cairndb.Storage.Interface.{BlobStorage, StoredObject}
use cairndb.Storage.Effects.{ok, raised, lease_lost, Io, pure, get_object, put_object}
use cairndb.Storage.Alone.{alone, run-attempt}
use cairndb.Storage.Writes.{written, admits-hit, admits-miss}
use cairndb.Engine.LeaseDoc.{LeaseDoc, doc_bytes, parse, state_item}
use cairndb.Engine.Lease.{
  Lease, StateFn, Outcome, is_ours, same_holder, absorb, check_owner, after_reread, after_put,
  try_put, guarded_loop, guarded_put_attempts, guarded_put_sync,
}

same_holder_refl : (o : Option Text) → same_holder o o ≡ true
unfolding same_holder
same_holder_refl none = refl
same_holder_refl (some x) = ground arith

is_ours-intro :
    (l : Lease) (d : LeaseDoc) → d.epoch ≡ l.epoch → d.holder ≡ l.holder → is_ours l d ≡ true
unfolding is_ours
is_ours-intro l d e h = ground (arith, ap (same_holder d.holder) (sym h), same_holder_refl d.holder)

state_item-intro : (d : LeaseDoc) (v : Value) → d.state ≡ some v → state_item d ≡ ok v
unfolding state_item
state_item-intro d v h = rw h refl

module _ (b : BlobStorage) (c : Codec) (l : Lease) (holder : Option Text) (deadline t : ℕ)
    (fn : StateFn) where
  open b use {Store}

  -- The handle after a write of the state.
  abbrev pub stored_lease : Value → Lease
  stored_lease v = record l {
    etag = b.etag_of (doc_bytes c l.epoch holder deadline v);
    holder = holder;
    deadline_at = deadline;
    state = v;
  }

  put_wins :
      (again : Lease → Io Store Outcome) (etag : Text) (x v : Value) (o : StoredObject) (s : Store)
      → b.get_object l.key s ≡ some o
      → o.etag ≡ etag
      → (s' : Store) × (try_put b c again
            (record l { etag = etag; state = x })
            holder
            deadline
            (ok v)
            (alone s t)
          ≡ (ok (ok tt, stored_lease v), alone s' t))
        × (b.get_object l.key s' ≡ some (written b l.key (doc_bytes c l.epoch holder deadline v)))
  unfolding try_put after_put put_object pure
  put_wins again etag x v o s there same =
      let put = b.put_object l.key (doc_bytes c l.epoch holder deadline v) (some etag) false in
      let won =
        b.put_admitted l.key (doc_bytes c l.epoch holder deadline v) (some etag) false s
          (rw there (admits-hit o etag same)) in
      (
        (put s).1,
        run-attempt put
              (after_put b c again (record l { etag = etag; state = x }) holder deadline v) s t
            ∙ ap
                (λ y.
                  after_put b c again (record l { etag = etag; state = x }) holder deadline v (ok y)
                    (alone (put s).1 t))
                won.0,
        won.1,
      )

  -- With nobody else about, a guarded write whose put fails, since the document has another etag than the
  -- handle's but is of its epoch and holder still, absorbs that document: it applies the state function
  -- to the state that is there, stores the result, and the handle tells the document that was stored.
  pub guarded_put_sync-absorbs :
      (s : Store) (o : StoredObject) (doc : LeaseDoc) (old v u : Value)
      → l.released ≡ false
      → b.get_object l.key s ≡ some o
      → o.etag ≢ l.etag
      → parse c o.bytes ≡ ok doc
      → doc.epoch ≡ l.epoch
      → doc.holder ≡ l.holder
      → doc.state ≡ some old
      → fn l.state ≡ ok u
      → fn old ≡ ok v
      → (s' : Store) × (guarded_put_sync b c holder deadline fn l (alone s t)
          ≡ (ok (ok tt, stored_lease v), alone s' t))
        × (b.get_object l.key s' ≡ some (written b l.key (doc_bytes c l.epoch holder deadline v)))
  unfolding guarded_put_sync guarded_loop try_put after_put after_reread check_owner absorb
      put_object get_object
  guarded_put_sync-absorbs s o doc old v u held there other parsed epoch owner state first second =
      let put = b.put_object l.key (doc_bytes c l.epoch holder deadline u) (some l.etag) false in
      let again = guarded_loop b c 1 holder deadline fn in
      let refused =
        b.put_refused l.key (doc_bytes c l.epoch holder deadline u) (some l.etag) false s
          (rw there (admits-miss o l.etag other)) in
      let (s', won, stored) =
        put_wins (guarded_loop b c 0 holder deadline fn) o.etag old v o s there refl in
      (
        s',
        ap
              (λ x.
                (elim x as (λ y. Io Store Outcome) [
                  | true ↦ pure (raised lease_lost, l)
                  | false ↦ guarded_loop b c guarded_put_attempts holder deadline fn l
                ])
                  (alone s t))
              held
            ∙ ap (λ r. try_put b c again l holder deadline r (alone s t)) first
            ∙ run-attempt put (after_put b c again l holder deadline u) s t
            ∙ ap (λ x. after_put b c again l holder deadline u (ok x.0) (alone x.1 t)) refused
            ∙ run-attempt (λ w. (b.get_object l.key w, w)) (after_reread b c again l) s t
            ∙ ap (λ x. after_reread b c again l (ok x) (alone s t)) there
            ∙ ap (λ x. check_owner b c again l o.etag x (alone s t)) parsed
            ∙ rw (is_ours-intro l doc epoch owner, check_owner) refl
            ∙ ap (λ x. absorb b c again l o.etag x (alone s t)) (state_item-intro doc old state)
            ∙ ap
                (λ x.
                  try_put b c (guarded_loop b c 0 holder deadline fn)
                    (record l { etag = o.etag; state = old }) holder deadline x (alone s t))
                second
            ∙ won,
        stored,
      )
