-- ===== src/Engine/Transactions/Recovery.antt =====
-- TransactionManager.recover with nobody else about: each commit of the log that has no marker is
-- applied, in the order of the log.
use cairndb.Prelude.{
  ℕ, zero, suc, ◌+◌, ◌≤◌, ◌<◌, Text, ◌≡◌, ◌≢◌, refl, sym, ap, subst, ◌∙◌, inl, inr, Bool, true,
  false, Bool-cases, Option, none, some, List, [], ◌∷◌, ◌++◌, length, arith, if◌then◌else◌,
}
use cairndb.Core.Value.{Codec}
use cairndb.Core.Log.{MsgPack, from_msgpack, to_msgpack}
use cairndb.Core.Log.RoundTrip.{from_msgpack-to_msgpack}
use cairndb.Storage.Listed.{ListedStorage}
use cairndb.Storage.Effects.{ok, Io, World, pure, call, ◌>>=◌, continue}
use cairndb.Storage.Alone.{alone, run-lift}
use cairndb.Engine.Logs.{get_commit}
use cairndb.Engine.Transactions.{Op, Transaction}
use cairndb.Engine.Transactions.Manager.{
  tx_namespace, marker_key, marker_prefix, is_applied, applied_numbers, skip_applied, recover_next,
  recover_from, recover, apply_commit,
}
use cairndb.Engine.Transactions.Applied.{written_by, written_by-append, all_ops, bytes_at}
use cairndb.Engine.Transactions.Markers.{HasMarkers, is_marked, is_applied-is_marked}
use cairndb.Engine.Transactions.Marked.{
  IsAllowed, applied, Holds, bytes_at-applied, get_commit-applied, apply_commit-done,
}

-- The records of the commits, from a number on.
abbrev pub Batches : Type 0
Batches = List (List (ℕ × Transaction))

-- The operations of the commits without a marker, and how many commits they are.
abbrev pub pending : (ℕ → Bool) → ℕ → Batches → List Op
pending marked n [] = []
pending marked n (txs ∷ rest) =
    let later = pending marked (suc n) rest in if marked n then later else all_ops txs ++ later

abbrev pub pending_count : (ℕ → Bool) → ℕ → Batches → ℕ
pending_count marked n [] = 0
pending_count marked n (txs ∷ rest) =
    let later = pending_count marked (suc n) rest in if marked n then later else suc later

abbrev among : List ℕ → ℕ → Bool
among marks n = is_applied n marks

skip_applied-le : (f : ℕ) (marks : List ℕ) (start : ℕ) → start ≤ skip_applied f marks start
unfolding skip_applied
skip_applied-le zero marks start = omega arith
skip_applied-le (suc f) marks start =
    elim (is_applied (suc start) marks)
      as (λ x. start ≤ (elim x [ true ↦ skip_applied f marks (suc start) | false ↦ start ])) [
        | true ↦ omega (arith, skip_applied-le f marks (suc start))
        | false ↦ omega arith
      ]

skip_applied-stops :
    (f : ℕ) (marks : List ℕ) (start : ℕ)
    → is_applied (suc start) marks ≡ false
    → skip_applied (suc f) marks start ≡ start
unfolding skip_applied
skip_applied-stops f marks start e = rw (skip_applied, e) refl

module _ (b : ListedStorage) (c : Codec) (p : MsgPack) where
  -- The log from a number on: the commits, with operations on keys that are allowed, and no more.
  abbrev pub LogOf : ℕ → Batches → b.blob.Store → Type 0
  LogOf n [] s = (m : ℕ) → n ≤ m → get_commit b tx_namespace m s ≡ none
  LogOf n (txs ∷ rest) s = Holds b c p n txs s × (IsAllowed (all_ops txs) × LogOf (suc n) rest s)

  LogOf-applied :
      (n m : ℕ) (txss : Batches) (ops : List Op) (s : b.blob.Store)
      → IsAllowed ops
      → LogOf n txss s
      → LogOf n txss (applied b c p m ops s)
  LogOf-applied n m [] ops s h log = λ i le. get_commit-applied b c p m i ops s h ∙ log i le
  LogOf-applied n m (txs ∷ rest) ops s h ((x, (stored, facts)), (allowed, log)) = (
    (x, (get_commit-applied b c p m n ops s h ∙ stored, facts)),
    (allowed, LogOf-applied (suc n) m rest ops s h log),
  )

  -- The store after the commits without a marker have been applied.
  abbrev pub recovered : List ℕ → ℕ → Batches → b.blob.Store → b.blob.Store
  recovered marks n [] s = s
  recovered marks n (txs ∷ rest) s =
      recovered marks (suc n) rest
        (if is_applied n marks then s else applied b c p n (all_ops txs) s)

  bytes_at-recovered :
      (marks : List ℕ) (n : ℕ) (txss : Batches) (k : Text) (s : b.blob.Store)
      → ((m : ℕ) → marker_key m ≢ k)
      → bytes_at b c p k (recovered marks n txss s)
        ≡ written_by (pending (among marks) n txss) k (bytes_at b c p k s)
  bytes_at-recovered marks n [] k s ne = refl
  bytes_at-recovered marks n (txs ∷ rest) k s ne = elim (Bool-cases (is_applied n marks)) [
    | inl e ↦ rw e (bytes_at-recovered marks (suc n) rest k s ne)
    | inr e ↦ rw e (
        bytes_at-recovered marks (suc n) rest k (applied b c p n (all_ops txs) s) ne
        ∙ ap (written_by (pending (among marks) (suc n) rest) k)
            (bytes_at-applied b c p n (all_ops txs) k s (ne n))
        ∙ sym (
            written_by-append (all_ops txs) (pending (among marks) (suc n) rest) k
              (bytes_at b c p k s)))
  ]

  next_marked :
      (marks : List ℕ) (r n : ℕ) (again : ℕ → Io b.blob.Store (Option ℕ))
      (txs : List (ℕ × Transaction)) (s : b.blob.Store) (w : World b.blob.Store)
      → Holds b c p n txs s
      → is_applied n marks ≡ true
      → recover_next b c p marks r again (get_commit b tx_namespace n s) w ≡ again r w
  unfolding recover_next
  next_marked marks r n again txs s w (x, (stored, (number, (pos, (events, nonempty))))) e =
      rw stored (
        run-lift (from_msgpack c p (to_msgpack c p x)) _ w
          (from_msgpack-to_msgpack c p x (subst (λ m. 0 < m) (sym number) pos) nonempty)
        ∙ rw (ap (λ m. is_applied m marks) number ∙ e) refl)

  next_unmarked :
      (marks : List ℕ) (r n : ℕ) (again : ℕ → Io b.blob.Store (Option ℕ))
      (txs : List (ℕ × Transaction)) (s : b.blob.Store) (t : ℕ)
      → Holds b c p n txs s
      → is_applied n marks ≡ false
      → recover_next b c p marks r again (get_commit b tx_namespace n s) (alone s t)
        ≡ again (suc r) (alone (applied b c p n (all_ops txs) s) t)
  unfolding recover_next ◌>>=◌
  next_unmarked marks r n again txs s t h e = rw h.1.0 (
      run-lift (from_msgpack c p (to_msgpack c p h.0)) _ (alone s t)
        (from_msgpack-to_msgpack c p h.0 (subst (λ m. 0 < m) (sym h.1.1.0) h.1.1.1.0) h.1.1.1.1.1)
      ∙ rw (ap (λ m. is_applied m marks) h.1.1.0 ∙ e) (
          ap (λ q. continue (λ u. again (suc r)) q.0 q.1)
            (ap (λ m. apply_commit b c p m (alone s t)) h.1.1.0
              ∙ apply_commit-done b c p n txs s t h)))

  recover_from-done :
      (f : ℕ) (marks : List ℕ) (n r : ℕ) (txss : Batches) (s : b.blob.Store) (t : ℕ)
      → length txss < f
      → LogOf n txss s
      → recover_from b c p f marks n r (alone s t)
        ≡ (ok (some (r + pending_count (among marks) n txss)), alone (recovered marks n txss s) t)
  unfolding recover_from ◌>>=◌ call
  recover_from-done zero marks n r txss s t less log = absurd (omega arith)
  recover_from-done (suc f) marks n r [] s t less log =
      rw (log n (omega arith))
        (unfold recover_next pure in ap (λ i. (ok (some i), alone s t)) (omega arith))
  recover_from-done (suc f) marks n r (txs ∷ rest) s t less (h, (allowed, log)) =
      elim (Bool-cases (is_applied n marks)) [
        | inl e ↦
            next_marked marks r n (recover_from b c p f marks (suc n)) txs s (alone s t) h e
            ∙ rw e (recover_from-done f marks (suc n) r rest s t (omega arith) log)
        | inr e ↦
            next_unmarked marks r n (recover_from b c p f marks (suc n)) txs s t h e
            ∙ rw e (
                recover_from-done f marks (suc n) (suc r) rest (applied b c p n (all_ops txs) s) t
                  (omega arith) (LogOf-applied (suc n) n rest (all_ops txs) s allowed log)
                ∙ ap
                    (λ i. (
                      ok (some i),
                      alone (recovered marks (suc n) rest (applied b c p n (all_ops txs) s)) t,
                    ))
                    (omega arith))
      ]

  -- Skipping the applied prefix leaves out no commit that is not marked.
  recover_from-skipped :
      (f fuel : ℕ) (marks : List ℕ) (start : ℕ) (txss : Batches) (s : b.blob.Store) (t : ℕ)
      → length txss < fuel
      → LogOf (suc start) txss s
      → recover_from b c p fuel marks (suc (skip_applied f marks start)) 0 (alone s t) ≡ (
        ok (some (0 + pending_count (among marks) (suc start) txss)),
        alone (recovered marks (suc start) txss s) t,
      )
  unfolding skip_applied
  recover_from-skipped zero fuel marks start txss s t less log =
      recover_from-done fuel marks (suc start) 0 txss s t less log
  recover_from-skipped (suc f) fuel marks start [] s t less log =
      recover_from-done fuel marks (suc (skip_applied (suc f) marks start)) 0 [] s t less
        (λ m le. log m (omega (arith, skip_applied-le (suc f) marks start, le)))
  recover_from-skipped (suc f) fuel marks start (txs ∷ rest) s t less (h, (allowed, log)) =
      elim (Bool-cases (is_applied (suc start) marks)) [
        | inl e ↦
            rw (skip_applied, e)
              (recover_from-skipped f fuel marks (suc start) rest s t (omega arith) log)
        | inr e ↦
            ap (λ i. recover_from b c p fuel marks (suc i) 0 (alone s t))
              (skip_applied-stops f marks start e)
            ∙ recover_from-done fuel marks (suc start) 0 (txs ∷ rest) s t less (h, (allowed, log))
      ]

  -- With nobody else about, in a store whose keys with the prefix of the markers are markers' keys, and
  -- with fuel for more commits than the log has, recovery ends; it returns how many commits of the log
  -- have no object at their marker's key; and each key but a marker's is then as the operations of these
  -- commits, in the order of the log, leave what it held.
  pub recover-Written :
      (fuel : ℕ) (txss : Batches) (s : b.blob.Store) (t : ℕ)
      → length txss < fuel
      → HasMarkers b s
      → LogOf 1 txss s
      → (s' : b.blob.Store) × ((recover b c p fuel (alone s t)
            ≡ (ok (some (pending_count (is_marked b s) 1 txss)), alone s' t))
          × ((k : Text)
              → ((m : ℕ) → marker_key m ≢ k)
              → bytes_at b c p k s'
                ≡ written_by (pending (is_marked b s) 1 txss) k (bytes_at b c p k s)))
  unfolding recover ◌>>=◌ call
  recover-Written fuel txss s t less markers log =
      let marks = applied_numbers (b.list_objects marker_prefix s) in
      subst
        (λ f.
          (s' : b.blob.Store) × ((recover b c p fuel (alone s t)
              ≡ (ok (some (pending_count f 1 txss)), alone s' t))
            × ((k : Text)
                → ((m : ℕ) → marker_key m ≢ k)
                → bytes_at b c p k s' ≡ written_by (pending f 1 txss) k (bytes_at b c p k s))))
        (is_applied-is_marked b s markers)
        (
          recovered marks 1 txss s,
          (
            recover_from-skipped (length marks) fuel marks 0 txss s t less log
                ∙ ap (λ i. (ok (some i), alone (recovered marks 1 txss s) t)) (omega arith),
            λ k ne. bytes_at-recovered marks 1 txss k s ne,
          ),
        )
