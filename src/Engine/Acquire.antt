-- ===== src/Engine/Acquire.antt =====
-- src/cairndb/engine/coordination.py: `acquire_sync` and `attach_sync`.
pub mod Fences
pub mod Alone
pub mod Holderless
use cairndb.Prelude.{
  ℕ, zero, suc, ◌+◌, Text, [], ◌∷◌, Bool, true, false, not, Option, none, some, ◌&&◌,
}
use cairndb.Core.Value.{Value, null, Codec}
use cairndb.Storage.Interface.{BlobStorage, StoredObject}
use cairndb.Storage.Effects.{
  Result, ok, raised, value_error, cairndb_error, Io, pure, raise, lift, now, get_object,
  put_object, ◌>>=◌, ◌>>◌,
}
use cairndb.Engine.Keys.{check_key}
use cairndb.Engine.Claim.{acquire_attempts}
use cairndb.Engine.LeaseDoc.{LeaseDoc, doc_bytes, parse, is_expired, state_get, state_item}
use cairndb.Engine.Lease.{Lease, StateFn, same_holder}

-- The transition that the acquisition makes, if there is one.
unfoldable pub apply_fn : Option StateFn → StateFn
apply_fn none v = ok v
apply_fn (some fn) v = fn v

unfoldable pub check_ttl : ℕ → Result (Unit {0})
check_ttl zero = raised value_error
check_ttl (suc n) = ok tt

-- `if not holder: raise ValueError`
unfoldable pub check_holder : Text → Result (Unit {0})
check_holder [] = raised value_error
check_holder (x ∷ xs) = ok tt

unfoldable pub is_held : LeaseDoc → Bool
is_held doc = elim doc.holder [ none ↦ false | some h ↦ true ]

-- The caller's arguments.
pub record Request : Type 0 where
  pub key : Text
  pub ttl : ℕ
  pub holder : Option Text
  pub steal_if_expired : Bool
  pub state_fn : Option StateFn

-- The handle that a won put gives.
abbrev pub new_lease : Request → ℕ → ℕ → Value → Text → Lease
new_lease q epoch deadline state etag = record {
  key = q.key;
  ttl = q.ttl;
  epoch = epoch;
  holder = q.holder;
  deadline_at = deadline;
  state = state;
  etag = etag;
  released = false;
}

module _ (b : BlobStorage) (c : Codec) where
  open b use {Store}

  -- After a put: the handle, or the next attempt where another acquirer was faster.
  unfoldable pub settle :
      Request → ℕ → ℕ → Value → Io Store (Option Lease) → Option Text → Io Store (Option Lease)
  settle q epoch deadline state again none = again
  settle q epoch deadline state again (some etag) =
      pure (some (new_lease q epoch deadline state etag))

  unfoldable pub create : Request → ℕ → Io Store (Option Lease) → Io Store (Option Lease)
  create q deadline again = do
    state ← lift (apply_fn q.state_fn null)
    etag ← put_object b q.key (doc_bytes c 1 q.holder deadline state) none true
    settle q 1 deadline state again etag

  unfoldable pub take_over :
      Request → ℕ → LeaseDoc → Text → Io Store (Option Lease) → Io Store (Option Lease)
  take_over q deadline doc etag again = do
    state ← lift (apply_fn q.state_fn (state_get doc))
    new ← put_object b q.key (doc_bytes c (doc.epoch + 1) q.holder deadline state) (some etag) false
    settle q (doc.epoch + 1) deadline state again new

  -- `t` is the reading of the clock, which the expiry is judged by.
  unfoldable pub consider :
      Request → ℕ → Io Store (Option Lease) → LeaseDoc → Text → Io Store (Option Lease)
  consider q t again doc etag =
      elim (is_expired doc t && not (is_held doc && not q.steal_if_expired)) [
        | false ↦ pure none
        | true ↦ take_over q (t + q.ttl) doc etag again
      ]

  unfoldable pub on_current :
      Request → ℕ → Io Store (Option Lease) → Option StoredObject → Io Store (Option Lease)
  on_current q t again none = create q (t + q.ttl) again
  on_current q t again (some o) = do doc ← lift (parse c o.bytes); consider q t again doc o.etag

  unfoldable pub acquire_loop : ℕ → Request → Io Store (Option Lease)
  acquire_loop zero q = raise cairndb_error
  acquire_loop (suc n) q = do
    t ← now
    current ← get_object b q.key
    on_current q t (acquire_loop n q) current

  unfoldable pub acquire_sync : Request → Io Store (Option Lease)
  acquire_sync q = do
    lift (check_key q.key)
    lift (check_ttl q.ttl)
    acquire_loop acquire_attempts q

  -- attach_sync: the handle of the ownership period that is under way, if it is `holder`'s.
  unfoldable pub reenter : Text → Text → ℕ → LeaseDoc → Text → ℕ → Io Store (Option Lease)
  reenter key holder ttl doc etag t =
      elim (same_holder doc.holder (some holder) && not (is_expired doc t)) [
        | false ↦ pure none
        | true ↦ do
          state ← lift (state_item doc)
          pure (
              some (record {
                key = key;
                ttl = ttl;
                epoch = doc.epoch;
                holder = some holder;
                deadline_at = doc.deadline_at;
                state = state;
                etag = etag;
                released = false;
              }))
      ]

  unfoldable pub on_attach : Text → Text → ℕ → Option StoredObject → Io Store (Option Lease)
  on_attach key holder ttl none = pure none
  on_attach key holder ttl (some o) = do
    doc ← lift (parse c o.bytes)
    t ← now
    reenter key holder ttl doc o.etag t

  unfoldable pub attach_sync : Text → Text → ℕ → Io Store (Option Lease)
  attach_sync key holder ttl = do
    lift (check_key key)
    lift (check_ttl ttl)
    lift (check_holder holder)
    current ← get_object b key
    on_attach key holder ttl current
