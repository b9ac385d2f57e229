-- ===== src/Engine/Lease.antt =====
-- src/cairndb/engine/coordination.py: the class Lease. A method runs against the store and returns
-- its outcome beside the handle, whose fields it has changed also when it raised.
pub mod Handle
pub mod Protocol
pub mod Absorbs
pub mod Owned
pub mod Methods
pub mod Fenced
use cairndb.Prelude.{
  ℕ, zero, suc, ◌+◌, Text, text_discrete, ◌≡◌, Bool, true, false, Option, none, some, ite, ◌==◌,
  ◌&&◌, if◌then◌else◌,
}
use cairndb.Core.Value.{Value, null, Codec}
use cairndb.Storage.Interface.{BlobStorage, StoredObject}
use cairndb.Storage.Effects.{
  Result, ok, raised, lease_lost, Io, pure, now, attempt, get_object, put_object, ◌>>=◌,
}
use cairndb.Engine.LeaseDoc.{LeaseDoc, doc_bytes, parse, state_item}

pub record Lease : Type 0 where
  pub key : Text
  pub ttl : ℕ
  pub epoch : ℕ
  pub holder : Option Text
  pub deadline_at : ℕ
  pub state : Value
  pub etag : Text
  pub released : Bool

-- A pure function on states, which may raise.
abbrev pub StateFn : Type 0
StateFn = Value → Result Value

-- What a method leaves: how it ended, and the handle.
abbrev pub Outcome : Type 0
Outcome = Result (Unit {0}) × Lease

abbrev pub guarded_put_attempts : ℕ
guarded_put_attempts = 2

unfoldable pub same_holder : Option Text → Option Text → Bool
same_holder none none = true
same_holder (some a) (some b) = ite (text_discrete a b) true false
same_holder _ _ = false

-- not (doc["epoch"] != self.epoch or doc["holder"] != self.holder)
unfoldable pub is_ours : Lease → LeaseDoc → Bool
unfolding same_holder
is_ours l doc = doc.epoch == l.epoch && same_holder doc.holder l.holder

-- `state if state is not None else s`
unfoldable pub final_state : Value → StateFn
final_state null s = ok s
final_state state s = ok state

unfoldable pub mark_released : Outcome → Outcome
mark_released (ok u, l) = (ok u, record l { released = true })
mark_released (raised e, l) = (raised e, l)

module _ (b : BlobStorage) (c : Codec) where
  open b use {Store}

  -- Our document, changed out-of-band: absorb the write, retry with `again`.
  unfoldable pub absorb :
      (Lease → Io Store Outcome) → Lease → Text → Result Value → Io Store Outcome
  absorb again l etag (ok state) = again (record l { etag = etag; state = state })
  absorb again l etag (raised e) = pure (raised e, record l { etag = etag })

  unfoldable pub check_owner :
      (Lease → Io Store Outcome) → Lease → Text → Result LeaseDoc → Io Store Outcome
  check_owner again l etag (raised e) = pure (raised e, l)
  check_owner again l etag (ok doc) = elim (is_ours l doc) [
    | true ↦ absorb again l etag (state_item doc)
    | false ↦ pure (raised lease_lost, l)
  ]

  unfoldable pub after_reread :
      (Lease → Io Store Outcome) → Lease → Result (Option StoredObject) → Io Store Outcome
  after_reread again l (raised e) = pure (raised e, l)
  after_reread again l (ok none) = pure (raised lease_lost, l)
  after_reread again l (ok (some o)) = check_owner again l o.etag (parse c o.bytes)

  unfoldable pub after_put :
      (Lease → Io Store Outcome)
      → Lease
      → Option Text
      → ℕ
      → Value
      → Result (Option Text)
      → Io Store Outcome
  after_put again l holder deadline_at state (raised e) = pure (raised e, l)
  after_put again l holder deadline_at state (ok (some etag)) =
      pure
        (ok tt, record l { etag = etag; holder = holder; deadline_at = deadline_at; state = state })
  after_put again l holder deadline_at state (ok none) = do
    current ← attempt (get_object b l.key)
    after_reread again l current

  -- One attempt, once `state_fn` has been applied.
  unfoldable pub try_put :
      (Lease → Io Store Outcome) → Lease → Option Text → ℕ → Result Value → Io Store Outcome
  try_put again l holder deadline_at (raised e) = pure (raised e, l)
  try_put again l holder deadline_at (ok state) = do
    etag ←
        attempt
          (put_object b l.key (doc_bytes c l.epoch holder deadline_at state) (some l.etag) false)
    after_put again l holder deadline_at state etag

  unfoldable pub guarded_loop : ℕ → Option Text → ℕ → StateFn → Lease → Io Store Outcome
  guarded_loop zero holder deadline_at state_fn l = pure (raised lease_lost, l)
  guarded_loop (suc n) holder deadline_at state_fn l =
      try_put (guarded_loop n holder deadline_at state_fn) l holder deadline_at (state_fn l.state)

  unfoldable pub guarded_put_sync : Option Text → ℕ → StateFn → Lease → Io Store Outcome
  guarded_put_sync holder deadline_at state_fn l = elim l.released [
    | true ↦ pure (raised lease_lost, l)
    | false ↦ guarded_loop guarded_put_attempts holder deadline_at state_fn l
  ]

  unfoldable pub renew_sync : Lease → Io Store Outcome
  renew_sync l = do t ← now; guarded_put_sync l.holder (t + l.ttl) (λ s. ok s) l

  unfoldable pub write_sync : Value → Lease → Io Store Outcome
  write_sync state l = guarded_put_sync l.holder l.deadline_at (λ _. ok state) l

  -- The state that was written is the handle's `state` afterwards.
  unfoldable pub update_state_sync : StateFn → Lease → Io Store Outcome
  update_state_sync fn l = guarded_put_sync l.holder l.deadline_at fn l

  unfoldable pub release_sync : Value → Lease → Io Store Outcome
  release_sync state l = do
    t ← now
    outcome ← guarded_put_sync none t (final_state state) l
    pure (mark_released outcome)
