-- ===== src/Engine/Transactions/Applied.antt =====
-- What applying the record of a transaction does to the objects: with nobody else about, the staged
-- operations in their order, and then the marker.
use cairndb.Prelude.{
  ℕ, Text, Bytes, text_discrete, ite, ◌≡◌, refl, sym, ap, ◌∙◌, ◌⊎◌, inl, inr, true, false, Option,
  none, some, List, [], ◌∷◌, ◌++◌, arith,
}
use mathlib.Core.Option
use cairndb.Core.Value.{Codec, get_item, find}
use cairndb.Core.Log.{Event, MsgPack, as_text, as_items}
use cairndb.Storage.Interface.{StoredObject, admits}
use cairndb.Storage.Listed.{ListedStorage}
use cairndb.Storage.Effects.{ok, pure, lift, call, put_object, delete_object, ◌>>=◌}
use cairndb.Storage.Alone.{alone}
use cairndb.Engine.Transactions.{
  Op, put, delete, Transaction, to_event, ops_value, op_value, ops_of,
}
use cairndb.Engine.Transactions.Manager.{as_bytes, apply_op, apply_ops, apply_event, apply_events}

-- What the operations leave at a key where `o` was: the last one that names it decides.
abbrev pub written_by : List Op → Text → Option Bytes → Option Bytes
written_by [] k o = o
written_by (put j x ∷ ops) k o = written_by ops k (ite (text_discrete j k) (some x) o)
written_by (delete j ∷ ops) k o = written_by ops k (ite (text_discrete j k) none o)

admits_any : (o : Option StoredObject) → admits o none false ≡ true
unfolding admits
admits_any none = refl
admits_any (some o) = refl

-- Operations either leave a key alone or settle what it holds.
written_by_settles :
    (ops : List Op) (k : Text)
    → ((o : Option Bytes) → written_by ops k o ≡ o)
      ⊎ ((o o' : Option Bytes) → written_by ops k o ≡ written_by ops k o')
written_by_settles [] k = inl (λ o. refl)
written_by_settles (put j x ∷ ops) k = elim (written_by_settles ops k) [
  | inr h ↦
      inr (λ o o'. h (ite (text_discrete j k) (some x) o) (ite (text_discrete j k) (some x) o'))
  | inl h ↦
      elim (text_discrete j k)
        as (λ d.
          ((o : Option Bytes) → written_by ops k (ite d (some x) o) ≡ o)
          ⊎ ((o o' : Option Bytes)
              → written_by ops k (ite d (some x) o) ≡ written_by ops k (ite d (some x) o'))) [
                | yes e ↦ inr (λ o o'. refl)
                | no ne ↦ inl h
              ]
]
written_by_settles (delete j ∷ ops) k = elim (written_by_settles ops k) [
  | inr h ↦ inr (λ o o'. h (ite (text_discrete j k) none o) (ite (text_discrete j k) none o'))
  | inl h ↦
      elim (text_discrete j k)
        as (λ d.
          ((o : Option Bytes) → written_by ops k (ite d none o) ≡ o)
          ⊎ ((o o' : Option Bytes)
              → written_by ops k (ite d none o) ≡ written_by ops k (ite d none o'))) [
                | yes e ↦ inr (λ o o'. refl)
                | no ne ↦ inl h
              ]
]

-- Doing the operations again changes nothing.
pub written_by_again :
    (ops : List Op) (k : Text) (o : Option Bytes)
    → written_by ops k (written_by ops k o) ≡ written_by ops k o
written_by_again ops k o = elim (written_by_settles ops k) [
  | inl h ↦ h (written_by ops k o)
  | inr h ↦ h (written_by ops k o) o
]

pub written_by-append :
    (ops later : List Op) (k : Text) (o : Option Bytes)
    → written_by (ops ++ later) k o ≡ written_by later k (written_by ops k o)
written_by-append [] later k o = refl
written_by-append (put j x ∷ ops) later k o =
    written_by-append ops later k (ite (text_discrete j k) (some x) o)
written_by-append (delete j ∷ ops) later k o =
    written_by-append ops later k (ite (text_discrete j k) none o)

-- The records of transactions, each with the time it was made at, and all their operations.
abbrev pub records : List (ℕ × Transaction) → List Event
records [] = []
records ((at, tx) ∷ txs) = to_event at tx ∷ records txs

abbrev pub all_ops : List (ℕ × Transaction) → List Op
all_ops [] = []
all_ops ((at, tx) ∷ txs) = tx.ops ++ all_ops txs

module _ (b : ListedStorage) (c : Codec) (p : MsgPack) where
  abbrev pub bytes_at : Text → b.blob.Store → Option Bytes
  bytes_at k s = Option.map (λ x. x.bytes) (b.blob.get_object k s)

  -- The store after the operations.
  abbrev pub op_done : Op → b.blob.Store → b.blob.Store
  op_done (put j x) s = (b.blob.put_object j x none false s).1
  op_done (delete j) s = b.blob.delete_object j s

  abbrev pub ops_done : List Op → b.blob.Store → b.blob.Store
  ops_done [] s = s
  ops_done (op ∷ ops) s = ops_done ops (op_done op s)

  apply_ops-done :
      (ops : List Op) (s : b.blob.Store) (t : ℕ)
      → apply_ops b c p (ops_value ops) (alone s t) ≡ (ok tt, alone (ops_done ops s) t)
  unfolding apply_ops apply_op ops_value op_value get_item find text_discrete as_text as_bytes ◌>>=◌
      lift call pure put_object delete_object
  apply_ops-done [] s t = refl
  apply_ops-done (put j x ∷ ops) s t = apply_ops-done ops (b.blob.put_object j x none false s).1 t
  apply_ops-done (delete j ∷ ops) s t = apply_ops-done ops (b.blob.delete_object j s) t

  bytes_at-put :
      (j k : Text) (x : Bytes) (s : b.blob.Store)
      → bytes_at k (b.blob.put_object j x none false s).1
        ≡ ite (text_discrete j k) (some x) (bytes_at k s)
  bytes_at-put j k x s =
      elim (text_discrete j k)
        as (λ d.
          bytes_at k (b.blob.put_object j x none false s).1 ≡ ite d (some x) (bytes_at k s)) [
            | yes e ↦
                ap (λ i. bytes_at i (b.blob.put_object j x none false s).1) (sym e)
                ∙ ap (Option.map (λ o. o.bytes))
                    (b.blob.put_admitted j x none false s (admits_any (b.blob.get_object j s))).1
                ∙ ground arith
            | no ne ↦
                ap (Option.map (λ o. o.bytes)) (b.blob.put_other j k x none false s ne)
                ∙ ground arith
          ]

  bytes_at-delete :
      (j k : Text) (s : b.blob.Store)
      → bytes_at k (b.blob.delete_object j s) ≡ ite (text_discrete j k) none (bytes_at k s)
  bytes_at-delete j k s = ground (arith, b.blob.get-delete j k s)

  pub bytes_at-ops_done :
      (ops : List Op) (k : Text) (s : b.blob.Store)
      → bytes_at k (ops_done ops s) ≡ written_by ops k (bytes_at k s)
  bytes_at-ops_done [] k s = refl
  bytes_at-ops_done (put j x ∷ ops) k s =
      bytes_at-ops_done ops k (b.blob.put_object j x none false s).1
      ∙ ap (written_by ops k) (bytes_at-put j k x s)
  bytes_at-ops_done (delete j ∷ ops) k s =
      bytes_at-ops_done ops k (b.blob.delete_object j s)
      ∙ ap (written_by ops k) (bytes_at-delete j k s)

  pub apply_event-done :
      (at : ℕ) (tx : Transaction) (s : b.blob.Store) (t : ℕ)
      → apply_event b c p (to_event at tx) (alone s t) ≡ (ok tt, alone (ops_done tx.ops s) t)
  unfolding apply_event to_event ops_of find text_discrete as_items ◌>>=◌ lift
  apply_event-done at tx s t = apply_ops-done tx.ops s t

  ops_done-append :
      (ops later : List Op) (s : b.blob.Store)
      → ops_done (ops ++ later) s ≡ ops_done later (ops_done ops s)
  ops_done-append [] later s = refl
  ops_done-append (op ∷ ops) later s = ops_done-append ops later (op_done op s)

  pub apply_events-done :
      (txs : List (ℕ × Transaction)) (s : b.blob.Store) (t : ℕ)
      → apply_events b c p (records txs) (alone s t) ≡ (ok tt, alone (ops_done (all_ops txs) s) t)
  unfolding apply_events ◌>>=◌ pure
  apply_events-done [] s t = refl
  apply_events-done ((at, tx) ∷ txs) s t =
      rw (apply_event-done at tx s t, ops_done-append tx.ops (all_ops txs) s)
        (apply_events-done txs (ops_done tx.ops s) t)
