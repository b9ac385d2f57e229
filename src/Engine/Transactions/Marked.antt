-- ===== src/Engine/Transactions/Marked.antt =====
-- Applying a commit of the log of transactions, with nobody else about: its operations, and then its
-- marker, while the log stays as it is.
use cairndb.Prelude.{
  ℕ, ◌<◌, Text, Bytes, codes, ◌≡◌, ◌≢◌, refl, sym, ap, subst, ◌∙◌, true, Option, none, some, List,
  [], ◌∷◌, ◌++◌, All, arith,
}
use mathlib.Core.Option
use mathlib.Core.List.{head-eq_of_cons-eq}
use cairndb.Core.Value.{Codec}
use cairndb.Core.Log.{Commit, MsgPack, to_msgpack}
use cairndb.Core.Log.RoundTrip.{from_msgpack-to_msgpack}
use cairndb.Storage.Listed.{ListedStorage}
use cairndb.Storage.Keys.{commit_key}
use cairndb.Storage.Effects.{ok, pure, lift, call, put_object, ◌>>=◌}
use cairndb.Storage.Alone.{alone}
use cairndb.Engine.Keys.{starts_with, check_key, check_prefixes}
use cairndb.Engine.Logs.{name_key, get_commit, get_bytes}
use cairndb.Engine.Logs.Contract.Isolation.{log_key-refused, name_key-log}
use cairndb.Engine.Transactions.{Op, put, delete, Transaction, op_key}
use cairndb.Engine.Transactions.Manager.{tx_namespace, marker_key, apply_record, apply_commit}
use cairndb.Engine.Transactions.Applied.{
  written_by, records, all_ops, bytes_at, ops_done, bytes_at-ops_done, apply_events-done,
}

-- Operations on keys that an application may use.
abbrev pub IsAllowed : List Op → Type 0
IsAllowed = All (λ op. check_key (op_key op) ≡ ok tt)

-- A key that no operation names keeps what it holds.
pub written_by-other :
    (ops : List Op) (k : Text) (o : Option Bytes)
    → All (λ op. op_key op ≢ k) ops
    → written_by ops k o ≡ o
unfolding op_key
written_by-other [] k o h = refl
written_by-other (put j x ∷ ops) k o h = ground (arith, h.0, written_by-other ops k o h.1)
written_by-other (delete j ∷ ops) k o h = ground (arith, h.0, written_by-other ops k o h.1)

marker_key-refused : (t : Text) → check_key (codes "txapplied/" ++ t) ≢ ok tt
unfolding check_key check_prefixes starts_with
marker_key-refused t e = cc

log_not_marker : (t u : Text) → codes "logs/" ++ t ≢ codes "txapplied/" ++ u
log_not_marker t u e = omega (arith, head-eq_of_cons-eq e)

abbrev pub record_key : ℕ → Text
record_key n = name_key tx_namespace (commit_key n)

record_key_eq : (n : ℕ) → record_key n ≡ codes "logs/" ++ (codes "_tx" ++ (b'/' ∷ commit_key n))
record_key_eq n = name_key-log (codes "_tx") (commit_key n)

marker_key_eq : (n : ℕ) → (t : Text) × (marker_key n ≡ codes "txapplied/" ++ t)
unfolding marker_key
marker_key_eq n = (_, refl)

allowed_not_record :
    (ops : List Op) (n : ℕ) → IsAllowed ops → All (λ op. op_key op ≢ record_key n) ops
allowed_not_record [] n h = tt
allowed_not_record (op ∷ ops) n h = (
  λ e.
      log_key-refused (codes "_tx" ++ (b'/' ∷ commit_key n))
        (ap check_key (sym (record_key_eq n) ∙ sym e) ∙ h.0),
  allowed_not_record ops n h.1,
)

module _ (b : ListedStorage) (c : Codec) (p : MsgPack) where
  -- The store after the operations and the marker.
  abbrev pub applied : ℕ → List Op → b.blob.Store → b.blob.Store
  applied n ops s = (b.blob.put_object (marker_key n) [] none true (ops_done b c p ops s)).1

  -- A commit of records is at the number.
  abbrev pub Holds : ℕ → List (ℕ × Transaction) → b.blob.Store → Type 0
  Holds n txs s =
      (x : Commit) × ((get_commit b tx_namespace n s ≡ some (to_msgpack c p x))
        × ((x.number ≡ n) × ((0 < n) × ((x.events ≡ records txs) × (x.events ≢ [])))))

  -- Beside the markers, the store is as the operations leave it.
  pub bytes_at-applied :
      (n : ℕ) (ops : List Op) (k : Text) (s : b.blob.Store)
      → marker_key n ≢ k
      → bytes_at b c p k (applied n ops s) ≡ written_by ops k (bytes_at b c p k s)
  bytes_at-applied n ops k s ne =
      ap (Option.map (λ x. x.bytes))
        (b.blob.put_other (marker_key n) k [] none true (ops_done b c p ops s) ne)
      ∙ bytes_at-ops_done b c p ops k s

  -- The log is as it was.
  pub get_commit-applied :
      (n m : ℕ) (ops : List Op) (s : b.blob.Store)
      → IsAllowed ops
      → get_commit b tx_namespace m (applied n ops s) ≡ get_commit b tx_namespace m s
  unfolding get_commit get_bytes
  get_commit-applied n m ops s h =
      bytes_at-applied n ops (record_key m) s (λ e.
        log_not_marker (codes "_tx" ++ (b'/' ∷ commit_key m)) (marker_key_eq n).0
          (sym (record_key_eq m) ∙ sym e ∙ (marker_key_eq n).1))
      ∙ written_by-other ops (record_key m) (bytes_at b c p (record_key m) s)
          (allowed_not_record ops m h)

  pub apply_commit-done :
      (n : ℕ) (txs : List (ℕ × Transaction)) (s : b.blob.Store) (t : ℕ)
      → Holds n txs s
      → apply_commit b c p n (alone s t) ≡ (ok tt, alone (applied n (all_ops txs) s) t)
  unfolding apply_commit apply_record ◌>>=◌ call lift put_object pure
  apply_commit-done n txs s t (x, (stored, (number, (pos, (events, nonempty))))) =
      rw
        (
          stored,
          from_msgpack-to_msgpack c p x (subst (λ m. 0 < m) (sym number) pos) nonempty,
          events,
          apply_events-done b c p txs s t,
        )
        refl
