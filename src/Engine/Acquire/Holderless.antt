-- ===== src/Engine/Acquire/Holderless.antt =====
-- An acquisition without a `holder`, which is the default argument, owns nothing: the document that it
-- stores counts as released.
use cairndb.Prelude.{ℕ, ◌+◌, Text, ◌≡◌, refl, inl, Bool, Option, none, some}
use cairndb.Core.Value.{null, Codec}
use cairndb.Storage.Interface.{BlobStorage}
use cairndb.Storage.Effects.{ok}
use cairndb.Storage.Alone.{alone}
use cairndb.Engine.Keys.{check_key}
use cairndb.Engine.LeaseDoc.{parse-doc_bytes, state_get}
use cairndb.Engine.Lease.{Lease}
use cairndb.Engine.Acquire.{Request, acquire_sync, apply_fn, check_ttl}
use cairndb.Engine.Acquire.Alone.{acquire_sync-creates, acquire_sync-takes}

-- Another caller's request for the same key, with no transition of the state.
abbrev pub rival : Request → ℕ → Option Text → Bool → Request
rival q ttl holder steal = record q {
  ttl = ttl;
  holder = holder;
  steal_if_expired = steal;
  state_fn = none;
}

module _ (b : BlobStorage) (c : Codec) (q : Request) (s : b.Store) (t : ℕ) where
  -- A caller who acquires a free key without a holder gets a lease with a deadline one ttl away, and
  -- yet any other caller, at any time and even one that does not steal, is granted the lease at once,
  -- with the next epoch, which fences the first.
  pub acquire_sync-holderless :
      check_key q.key ≡ ok tt
      → check_ttl q.ttl ≡ ok tt
      → q.holder ≡ none
      → q.state_fn ≡ none
      → b.get_object q.key s ≡ none
      → (l : Lease) × (s' : b.Store) × (acquire_sync b c q (alone s t) ≡ (ok (some l), alone s' t))
        × (l.deadline_at ≡ t + q.ttl)
        × ((ttl t' : ℕ) (holder : Option Text) (steal : Bool)
            → check_ttl ttl ≡ ok tt
            → (l' : Lease) × (s'' : b.Store) × (acquire_sync b c
                  (rival q ttl holder steal)
                  (alone s' t')
                ≡ (ok (some l'), alone s'' t'))
              × (l'.epoch ≡ l.epoch + 1))
  unfolding apply_fn state_get
  acquire_sync-holderless valid positive nobody plain free =
      let (etag, s', first, stored) =
        acquire_sync-creates b c q s t valid positive null free (rw plain) in
      (
        _,
        s',
        first,
        refl,
        λ ttl t' holder steal p.
            let (etag', s'', second, _) =
              acquire_sync-takes b c (rival q ttl holder steal) s' t' valid p _ _ stored
                (parse-doc_bytes c 1 q.holder (t + q.ttl) null) null (inl nobody) refl in
            (_, s'', second, refl),
      )
