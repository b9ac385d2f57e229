-- ===== src/Engine/Acquire/Fences.antt =====
-- An acquisition has an epoch beyond all that came before, so it fences every earlier handle.
use cairndb.Prelude.{
  ℕ, zero, suc, ◌+◌, ◌≤◌, ◌<◌, Text, Bytes, ◌≡◌, refl, sym, ◌∙◌, subst, inl, inr, Bool, true, false,
  not, ◌&&◌, Option, none, some, arith,
}
use cairndb.Core.Value.{Value, Codec}
use cairndb.Storage.Interface.{BlobStorage, StoredObject}
use cairndb.Storage.Effects.{Result, ok, raised, Io, pure, get_object, put_object}
use cairndb.Storage.Rely.{
  Rely, IsStable, Ensures, Ensures-pure, Ensures-raise, Ensures-ask, Ensures-lift-bind,
  Ensures-now-bind, Ensures-weaken,
}
use cairndb.Storage.Recorded.{Between, each_write, each_write-Between, recorded}
use cairndb.Storage.Writes.{put_absent, put_match, written}
use cairndb.Engine.LeaseDoc.{LeaseDoc, doc_bytes, parse, parse-doc_bytes, is_expired}
use cairndb.Engine.Lease.{Lease}
use cairndb.Engine.Lease.Handle.{view, IsHandle}
use cairndb.Engine.Lease.Protocol.{Evolves, Evolves-refl, protocol, doc_of}
use cairndb.Engine.Lease.Fenced.{IsFenced}
use cairndb.Engine.Acquire.{
  Request, settle, create, take_over, consider, on_current, acquire_loop, acquire_sync, is_held,
}

abbrev pub epoch_of : Option LeaseDoc → ℕ
epoch_of none = 0
epoch_of (some d) = d.epoch

module _ (b : BlobStorage) (c : Codec) (G : Rely (Option Value)) (q : Request) (n : ℕ) where
  open b use {Store}

  -- The document at the key has reached epoch `n`.
  abbrev pub Reached : Store → Type 0
  Reached s = n ≤ epoch_of (view b c q.key s)

  reached_stable : (x y : Option LeaseDoc) → Evolves G x y → n ≤ epoch_of x → n ≤ epoch_of y
  reached_stable none y e h = omega arith
  reached_stable (some d) none e h = absurd e
  reached_stable (some d) (some d') e h = omega arith

  pub Reached-stable : IsStable (protocol G b c q.key) Reached
  Reached-stable s t e h = reached_stable (view b c q.key s) (view b c q.key t) e h

  -- The lease that is returned.
  pub record IsAcquired (l : Lease) (s : Store) : Type 0 where
    pub handle : IsHandle b c l
    pub at_key : l.key ≡ q.key
    pub for_holder : l.holder ≡ q.holder
    pub beyond : n < l.epoch
    pub stored : Evolves G (some (doc_of l)) (view b c q.key s)

  abbrev pub Acquired : Result (Option Lease) → Store → Type 0
  Acquired (ok (some l)) s = IsAcquired l s
  Acquired _ s = Unit {0}

  abbrev new_doc : ℕ → ℕ → Value → LeaseDoc
  new_doc epoch t v = record { epoch = epoch; holder = q.holder; deadline_at = t; state = some v }

  abbrev content : ℕ → ℕ → Value → Bytes
  content epoch t v = doc_bytes c epoch q.holder t v

  -- The outcome of the put of an acquisition at `epoch`.
  abbrev Put : ℕ → ℕ → Value → Option Text → Store → Type 0
  Put epoch t v none s = Reached s
  Put epoch t v (some etag) s =
      (n < epoch)
      × (b.etag_of (content epoch t v) ≡ etag)
      × Evolves G (some (new_doc epoch t v)) (view b c q.key s)

  view_absent : (s : Store) → b.get_object q.key s ≡ none → view b c q.key s ≡ none
  unfolding view
  view_absent s e = rw e

  view-written :
      (epoch t : ℕ) (v : Value) (s : Store)
      → b.get_object q.key s ≡ some (written b q.key (content epoch t v))
      → view b c q.key s ≡ some (new_doc epoch t v)
  unfolding view
  view-written epoch t v s e = rw (e, parse-doc_bytes c epoch q.holder t v)

  view_same :
      (x : Bytes) (doc : LeaseDoc) (s : Store) (o : StoredObject)
      → parse c x ≡ ok doc
      → b.get_object q.key s ≡ some o
      → o.etag ≡ b.etag_of x
      → view b c q.key s ≡ some doc
  unfolding view
  view_same x doc s o parsed e p =
      let same : o.bytes ≡ x = b.etag_faithful o.bytes x (sym (b.etag_stored q.key s o e) ∙ p) in
      rw (e, same, parsed)

  module _ (t : ℕ) (v : Value) where
    create_put : Store → Option Text × Store
    create_put = b.put_object q.key (content 1 t v) none true

    create_keeps : (s : Store) → (protocol G b c q.key).rel s (create_put s).1
    unfolding create_put
    create_keeps s = elim (put_absent b q.key (content 1 t v) s) [
      | inl (free, wrote) ↦ rw (view_absent s free) tt
      | inr (o, e, lost) ↦ rw lost (Evolves-refl G (view b c q.key s))
    ]

    create-Put : (s : Store) → Reached s → Put 1 t v (create_put s).0 (create_put s).1
    unfolding create_put
    create-Put s h = elim (put_absent b q.key (content 1 t v) s) [
      | inl (free, wrote) ↦ rw wrote.0 (
        omega (arith, first s free h),
        refl,
        rw (view-written 1 t v (create_put s).1 wrote.1) (Evolves-refl G (some (new_doc 1 t v))),
      )
      | inr (o, e, lost) ↦ rw lost h
    ]
      where
        first : (s : Store) → b.get_object q.key s ≡ none → Reached s → n ≤ 0
        first s free h = rw (view_absent s free) at h

    module _ (x : Bytes) (doc : LeaseDoc) (parsed : parse c x ≡ ok doc) where
      take_put : Store → Option Text × Store
      take_put = b.put_object q.key (content (doc.epoch + 1) t v) (some (b.etag_of x)) false

      take_keeps : (s : Store) → (protocol G b c q.key).rel s (take_put s).1
      unfolding take_put
      take_keeps s = elim (put_match b q.key (content (doc.epoch + 1) t v) (b.etag_of x) s) [
        | inl (o, e, same, wrote) ↦
            rw
              (
                view_same x doc s o parsed e same,
                view-written (doc.epoch + 1) t v (take_put s).1 wrote.1,
              )
              (inl (omega arith))
        | inr (other, lost) ↦ rw lost (Evolves-refl G (view b c q.key s))
      ]

      take-Put : (s : Store) → Reached s → Put (doc.epoch + 1) t v (take_put s).0 (take_put s).1
      unfolding take_put
      take-Put s h = elim (put_match b q.key (content (doc.epoch + 1) t v) (b.etag_of x) s) [
        | inl (o, e, same, wrote) ↦
            let at_doc : n ≤ doc.epoch = rw (view_same x doc s o parsed e same) at h in
            rw wrote.0 (
              omega arith,
              refl,
              rw (view-written (doc.epoch + 1) t v (take_put s).1 wrote.1)
                  (Evolves-refl G (some (new_doc (doc.epoch + 1) t v))),
            )
        | inr (other, lost) ↦ rw lost h
      ]

  module _ (R : Rely Store) (steps : Between b R (protocol G b c q.key)) where
    Reached-kept : IsStable R Reached
    Reached-kept s t e h = Reached-stable s t (steps.within s t e) h

    settle-Acquired :
        (epoch t : ℕ) (v : Value) (again : Io Store (Option Lease)) (x : Option Text)
        → Ensures R Reached again Acquired
        → Ensures R (Put epoch t v x) (settle b c q epoch t v again x) Acquired
    unfolding settle
    settle-Acquired epoch t v again none k = k
    settle-Acquired epoch t v again (some etag) k = Ensures-pure R _ (λ s p. record {
      handle = record {
        content = content epoch t v;
        doc = new_doc epoch t v;
        same_etag = p.1;
        parsed = parse-doc_bytes c epoch q.holder t v;
        same_epoch = refl;
        same_holder = refl;
        same_state = refl;
      };
      at_key = refl;
      for_holder = refl;
      beyond = p.0;
      stored = p.2;
    })

    -- What a read of the key has returned.
    abbrev Current : Option StoredObject → Store → Type 0
    Current none s = Reached s
    Current (some o) s = Reached s × (b.etag_of o.bytes ≡ o.etag)

    module _ (again : Io Store (Option Lease)) (k : Ensures R Reached again Acquired) where
      create-Acquired : (t : ℕ) → Ensures R Reached (create b c q t again) Acquired
      unfolding create put_object create_put
      create-Acquired t =
          Ensures-lift-bind R _ _
            (λ v e.
              Ensures-ask R (Put 1 t v) (create_put t v) (settle b c q 1 t v again) Reached-kept
                (λ s h. steps.writes q.key (content 1 t v) none true s (create_keeps t v s))
                (λ s h. create-Put t v s h) (λ s. tt) (λ x. settle-Acquired 1 t v again x k))
            (λ e s f h. tt)

      take_over-Acquired :
          (t : ℕ) (x : Bytes) (doc : LeaseDoc)
          → parse c x ≡ ok doc
          → Ensures R Reached (take_over b c q t doc (b.etag_of x) again) Acquired
      unfolding take_over put_object take_put
      take_over-Acquired t x doc parsed =
          Ensures-lift-bind R _ _
            (λ v e.
              Ensures-ask R (Put (doc.epoch + 1) t v) (take_put t v x doc parsed)
                (settle b c q (doc.epoch + 1) t v again) Reached-kept
                (λ s h.
                  steps.writes q.key (content (doc.epoch + 1) t v) (some (b.etag_of x)) false s
                    (take_keeps t v x doc parsed s))
                (λ s h. take-Put t v x doc parsed s h) (λ s. tt)
                (λ y. settle-Acquired (doc.epoch + 1) t v again y k))
            (λ e s f h. tt)

      consider-Acquired :
          (t : ℕ) (x : Bytes) (doc : LeaseDoc)
          → parse c x ≡ ok doc
          → Ensures R Reached (consider b c q t again doc (b.etag_of x)) Acquired
      unfolding consider
      consider-Acquired t x' doc parsed =
          go (is_expired doc t && not (is_held doc && not q.steal_if_expired))
        where
          go :
              (x : Bool)
              → Ensures R Reached
                  (elim x [
                    | false ↦ pure none
                    | true ↦ take_over b c q (t + q.ttl) doc (b.etag_of x') again
                  ])
                  Acquired
          go true = take_over-Acquired (t + q.ttl) x' doc parsed
          go false = Ensures-pure R _ (λ s h. tt)

      on_current-Acquired :
          (t : ℕ) (x : Option StoredObject)
          → Ensures R (Current x) (on_current b c q t again x) Acquired
      unfolding on_current
      on_current-Acquired t none = create-Acquired (t + q.ttl)
      on_current-Acquired t (some o) =
          Ensures-lift-bind R _ _
            (λ doc e. record {
              at = λ w r p. rw (← p.1) ((consider-Acquired t o.bytes doc e).at w r p.0);
            })
            (λ e s f h. tt)

    read-Current : (s : Store) → Reached s → Current (b.get_object q.key s) s
    read-Current s h = go (b.get_object q.key s) refl
      where
        go : (x : Option StoredObject) → b.get_object q.key s ≡ x → Current x s
        go none e = h
        go (some o) e = (h, sym (b.etag_stored q.key s o e))

    acquire_loop-Acquired : (m : ℕ) → Ensures R Reached (acquire_loop b c m q) Acquired
    unfolding acquire_loop get_object
    acquire_loop-Acquired zero = Ensures-raise R _ (λ s h. tt)
    acquire_loop-Acquired (suc m) = Ensures-now-bind R _ (λ t.
        Ensures-ask R Current _ (on_current b c q t (acquire_loop b c m q)) Reached-kept
          (λ s h. R.here s) (λ s h. read-Current s h) (λ s. tt)
          (λ x. on_current-Acquired (acquire_loop b c m q) (acquire_loop-Acquired m) t x))

    acquire_sync-kept : Ensures R Reached (acquire_sync b c q) Acquired
    unfolding acquire_sync
    acquire_sync-kept =
        Ensures-lift-bind R _ _
          (λ u e. Ensures-lift-bind R _ _ (λ u' e'. acquire_loop-Acquired 8) (λ e' s f h. tt))
          (λ e s f h. tt)

pub acquire_sync-Acquired :
    (b : BlobStorage) (c : Codec) (G : Rely (Option Value)) (q : Request) (n : ℕ)
    → Ensures
        (each_write b (protocol G b c q.key))
        (Reached (recorded b) c G q n)
        (acquire_sync (recorded b) c q)
        (Acquired (recorded b) c G q n)
unfolding view
acquire_sync-Acquired b c G q n =
    acquire_sync-kept (recorded b) c G q n (each_write b (protocol G b c q.key))
      (each_write-Between b (protocol G b c q.key))

module _ (b : BlobStorage) (c : Codec) (G : Rely (Option Value)) (q : Request) (l : Lease) where
  open b use {Store}

  -- Every earlier handle on the key is fenced once a lease has been returned.
  abbrev pub FencedBy : Result (Option Lease) → Store → Type 0
  FencedBy (ok (some new)) s = IsFenced b c l s × (l.epoch < new.epoch)
  FencedBy _ s = Unit {0}

  IsFenced-after :
      (new : Lease) (s : Store)
      → l.key ≡ q.key
      → IsAcquired b c G q l.epoch new s
      → IsFenced b c l s
  IsFenced-after new s same a = go (view b c q.key s) refl a.stored
    where
      go :
          (x : Option LeaseDoc)
          → view b c q.key s ≡ x
          → Evolves G (some (doc_of new)) x
          → IsFenced b c l s
      go none e h = absurd h
      go (some d) e (inl lt) = (d, rw same e, grind (arith, a.beyond))
      go (some d) e (inr (p, _, _)) = (d, rw same e, grind (arith, a.beyond))

  Acquired-FencedBy :
      (x : Result (Option Lease)) (s : Store)
      → l.key ≡ q.key
      → Acquired b c G q l.epoch x s
      → FencedBy x s
  Acquired-FencedBy (ok (some new)) s same h = (IsFenced-after new s same h, h.beyond)
  Acquired-FencedBy (ok none) s same h = tt
  Acquired-FencedBy (raised e) s same h = tt

  -- In the protocol a fenced handle stays fenced.
  fenced_stable :
      (d : LeaseDoc) (y : Option LeaseDoc)
      → Evolves G (some d) y
      → l.epoch < d.epoch
      → (d' : LeaseDoc) × (y ≡ some d') × (l.epoch < d'.epoch)
  fenced_stable d none e lt = absurd e
  fenced_stable d (some d') e lt = (d', refl, omega arith)

  pub IsFenced-stable : IsStable (protocol G b c l.key) (IsFenced b c l)
  IsFenced-stable s t e (d, at, lt) =
      fenced_stable d (view b c l.key t) (subst (λ x. Evolves G x (view b c l.key t)) at e) lt

-- A successful acquisition fences every handle whose epoch the document had reached before; and each of
-- its writes keeps the protocol, so that none replaces a document of an epoch reached meanwhile.
pub acquire_sync-fences :
    (b : BlobStorage) (c : Codec) (G : Rely (Option Value)) (q : Request) (l : Lease)
    → l.key ≡ q.key
    → Ensures
        (each_write b (protocol G b c q.key))
        (Reached (recorded b) c G q l.epoch)
        (acquire_sync (recorded b) c q)
        (FencedBy (recorded b) c G q l)
acquire_sync-fences b c G q l same =
    Ensures-weaken (each_write b (protocol G b c q.key)) _ (acquire_sync-Acquired b c G q l.epoch)
      (λ s h. h) (λ x s h. Acquired-FencedBy (recorded b) c G q l x s same h)
