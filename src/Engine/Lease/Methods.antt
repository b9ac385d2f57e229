-- ===== src/Engine/Lease/Methods.antt =====
-- The methods of Lease: what their handle and the store say afterwards, and what a fenced handle gets.
use cairndb.Prelude.{ℕ, ◌+◌, ◌≡◌, refl, subst, Text, inl, inr, true, Option, none, some, arith}
use cairndb.Core.Value.{Value, Codec}
use cairndb.Core.Results.{ok-injective}
use cairndb.Storage.Interface.{BlobStorage}
use cairndb.Storage.Recorded.{
  Between, Between-refl, History, each_write, each_write-Between, recorded,
}
use cairndb.Storage.Effects.{
  Result, ok, raised, Error, storage_error, lease_lost, World, ◌>>=◌, now,
}
use cairndb.Storage.Rely.{
  Rely, Respects, IsStable, Ensures, Ensures-pure, Ensures-now-bind, Ensures-bind, Ensures-weaken,
}
use cairndb.Engine.Lease.{
  Lease, StateFn, Outcome, renew_sync, write_sync, update_state_sync, release_sync, final_state,
  mark_released, guarded_put_sync,
}
use cairndb.Engine.Lease.Handle.{IsHandle, view}
use cairndb.Engine.Lease.Protocol.{Evolves, protocol, doc_of}
use cairndb.Engine.Lease.Owned.{Reports, guarded_put_sync-kept}
use cairndb.Engine.Lease.Fenced.{IsFenced, Lost, guarded_put_sync-Lost}

module _ (b : BlobStorage) (c : Codec) (l : Lease) (h : IsHandle b c l) where
  open b use {Store}

  module _ (G : Rely (Option Value)) where
    module _ (R : Rely Store) (steps : Between b R (protocol G b c l.key)) where
      renew-Reports :
          (t : ℕ)
          → Ensures R
              (λ s. Unit {0})
              (guarded_put_sync b c l.holder (t + l.ttl) (λ v. ok v) l)
              (Reports b c G l l.holder (t + l.ttl) (λ v. ok v))
      renew-Reports t =
          guarded_put_sync-kept b c G l l.holder (t + l.ttl) (λ v. ok v) R steps
            (λ x v e. (inl refl, keep x v e)) h
        where
          keep : (x v : Value) → ◌≡◌ {A = Result Value} (ok x) (ok v) → G.rel (some x) (some v)
          keep x v e = subst (λ y. G.rel (some x) (some y)) (ok-injective e) (G.here (some x))

      renew_sync-kept :
          (w : World Store)
          → Respects R w.turns
          → let (x, w') = renew_sync b c l w in
            R.rel w.store w'.store
            × Respects R w'.turns
            × Reports b c G l l.holder (w.clock + l.ttl) (λ v. ok v) x w'.store
      unfolding renew_sync ◌>>=◌ now
      renew_sync-kept w r = (renew-Reports w.clock).at w r tt

    -- What a release leaves.
    abbrev pub Releases : Result Outcome → Store → Type 0
    Releases (raised e) s = ⊥
    Releases (ok (raised e, l')) s = (l'.epoch ≡ l.epoch) × (l'.holder ≡ l.holder)
    Releases (ok (ok u, l')) s =
        (l'.epoch ≡ l.epoch)
        × (l'.holder ≡ none)
        × (l'.released ≡ true)
        × Evolves G (some (doc_of l')) (view b c l.key s)

    mark_released-Releases :
        (t : ℕ) (fn : StateFn) (o : Outcome) (s : Store)
        → Reports b c G l none t fn (ok o) s
        → Releases (ok (mark_released o)) s
    unfolding mark_released
    mark_released-Releases t fn (ok u, l') s q = (q.1, q.2, refl, q.6)
    mark_released-Releases t fn (raised e, l') s q = (q.1, q.2)

    -- A release moves the document only as the protocol allows; when it succeeds, the document of the
    -- handle's epoch was stored without a holder, and the handle is marked.
    pub release_sync-Releases :
        (state : Value)
        → ((x v : Value) → final_state state x ≡ ok v → G.rel (some x) (some v))
        → Ensures (protocol G b c l.key) (λ s. Unit {0}) (release_sync b c state l) Releases
    unfolding release_sync
    release_sync-Releases state within = Ensures-now-bind _ _ (λ t.
        Ensures-bind _ (guarded_put_sync b c none t (final_state state) l) _
          (guarded_put_sync-kept b c G l none t (final_state state) (protocol G b c l.key)
            (Between-refl b (protocol G b c l.key)) (λ x v e. (inr refl, within x v e)) h)
          (λ o. Ensures-pure _ _ (λ s q. mark_released-Releases t (final_state state) o s q))
          (λ e s q. absurd q))

  -- How a method of a fenced handle ends: by an exception, with the document still of a later epoch.
  abbrev pub Fails : Result Outcome → Store → Type 0
  Fails (raised e) s = ⊥
  Fails (ok (r, l')) s = IsFenced b c l s × (l' ≡ l) × ((e : Error) × (r ≡ raised e))

  Lost-Fails : (fn : StateFn) (x : Result Outcome) (s : Store) → Lost b c l h fn x s → Fails x s
  Lost-Fails fn (raised e) s q = q
  Lost-Fails fn (ok (r, l')) s (f, same, inl e) = (f, same, (lease_lost, e))
  Lost-Fails fn (ok (r, l')) s (f, same, inr (inl e)) = (f, same, (storage_error, e))
  Lost-Fails fn (ok (r, l')) s (f, same, inr (inr (e, _, p))) = (f, same, (e, p))

  mark_released-Fails : (o : Outcome) (s : Store) → Fails (ok o) s → Fails (ok (mark_released o)) s
  unfolding mark_released
  mark_released-Fails (ok u, l') s q = absurd (ground arith)
  mark_released-Fails (raised e, l') s q = q

  module _ (R : Rely Store) (stable : IsStable R (IsFenced b c l)) where
    guarded-Fails :
        (holder : Option Text) (t : ℕ) (fn : StateFn)
        → Ensures R (IsFenced b c l) (guarded_put_sync b c holder t fn l) Fails
    guarded-Fails holder t fn =
        Ensures-weaken R _ (guarded_put_sync-Lost b c l h fn R stable holder t) (λ s p. p)
          (Lost-Fails fn)

    -- A fenced holder cannot publish anything. Under any interference that keeps the later epoch, each
    -- of renew, write, update_state and release makes no change of its own to the store (`R` may be
    -- equality) and ends by an exception.
    pub methods-Fails :
        (state : Value) (fn : StateFn)
        → Ensures R (IsFenced b c l) (renew_sync b c l) Fails
          × Ensures R (IsFenced b c l) (write_sync b c state l) Fails
          × Ensures R (IsFenced b c l) (update_state_sync b c fn l) Fails
          × Ensures R (IsFenced b c l) (release_sync b c state l) Fails
    unfolding renew_sync write_sync update_state_sync release_sync
    methods-Fails state fn = (
      Ensures-now-bind R _ (λ t. guarded-Fails _ _ _),
      guarded-Fails _ _ _,
      guarded-Fails _ _ _,
      Ensures-now-bind R _ (λ t.
          Ensures-bind R _ _ (guarded-Fails none t (final_state state))
            (λ o. Ensures-pure R _ (λ s q. mark_released-Fails o s q)) (λ e s q. absurd q)),
    )

-- While the others keep the protocol of the lease, and whatever calls fail, each write of a renewal
-- keeps it. When the renewal succeeds, a document with the handle's epoch, holder and state and with
-- the deadline one ttl after the time at which it was called was stored, with the etag that the handle
-- then tells, and what is there now has evolved from it.
pub renew_sync-Renews :
    (b : BlobStorage) (c : Codec) (G : Rely (Option Value)) (l : Lease)
    (w : World (b.Store × History b.Store))
    → IsHandle (recorded b) c l
    → Respects (each_write b (protocol G b c l.key)) w.turns
    → let (x, w') = renew_sync (recorded b) c l w in
      (each_write b (protocol G b c l.key)).rel w.store w'.store
      × Respects (each_write b (protocol G b c l.key)) w'.turns
      × Reports (recorded b) c G l l.holder (w.clock + l.ttl) (λ v. ok v) x w'.store
unfolding view
renew_sync-Renews b c G l w h r =
    renew_sync-kept (recorded b) c l h G (each_write b (protocol G b c l.key))
      (each_write-Between b (protocol G b c l.key)) w r
