-- ===== src/Engine/Transactions/View.antt =====
-- A transaction's view of its own writes is what the application of its record leaves.
use cairndb.Prelude.{
  ℕ, Text, Bytes, text_discrete, ite, ◌≡◌, ◌≢◌, refl, sym, ap, subst, ◌∙◌, inl, inr, Option,
  Option-cases, none, some, List, [], ◌∷◌, ◌++◌, arith,
}
use mathlib.Core.Option
use cairndb.Core.Value.{Fields}
use cairndb.Core.Results
use cairndb.Core.Results.{ok-injective}
use cairndb.Storage.Interface.{BlobStorage}
use cairndb.Storage.Effects.{Result, Error, ok, raised, pure, lift, call, get_object, ◌>>=◌}
use cairndb.Storage.Alone.{alone, run-raised}
use cairndb.Engine.Keys.{check_key}
use cairndb.Engine.Transactions.{
  put, delete, Transaction, new_transaction, dict_get, dict_set, etag_seen, bytes_seen, reread,
  view_key, first_read, get_known, get, stage_put, stage_delete, note,
}
use cairndb.Engine.Transactions.Applied.{written_by, written_by-append}

module _ {V : Type 0} where
  pub dict_get-dict_set :
      (j k : Text) (v : V) (d : List (Text × V))
      → dict_get k (dict_set j v d) ≡ ite (text_discrete j k) (some v) (dict_get k d)
  unfolding dict_get dict_set
  dict_get-dict_set j k v [] = refl
  dict_get-dict_set j k v ((i, w) ∷ d) = ground (arith, dict_get-dict_set j k v d)

-- What is staged is what the operations leave.
abbrev pub IsView : Transaction → Type 0
IsView tx =
    (k : Text) (o : Option Bytes) → written_by tx.ops k o ≡ Option.get_or (dict_get k tx.staged) o

IsView-put :
    (j : Text) (x : Bytes) (tx : Transaction)
    → IsView tx
    → IsView (record tx { ops = tx.ops ++ (put j x ∷ []); staged = dict_set j (some x) tx.staged })
IsView-put j x tx h k o =
    written_by-append tx.ops (put j x ∷ []) k o
    ∙ ground (arith, h k o, dict_get-dict_set j k (some x) tx.staged)

IsView-delete :
    (j : Text) (tx : Transaction)
    → IsView tx
    → IsView (record tx { ops = tx.ops ++ (delete j ∷ []); staged = dict_set j none tx.staged })
IsView-delete j tx h k o =
    written_by-append tx.ops (delete j ∷ []) k o
    ∙ ground (arith, h k o, dict_get-dict_set j k none tx.staged)

-- A key that is refused ends the operation.
pub staged :
    (tx tx' : Transaction) (r : Result (Unit {0}))
    → IsView tx
    → Results.◌>>=◌ r (λ x. ok tx) ≡ ok tx'
    → IsView tx'
staged tx tx' (raised x) h e = absurd (ground arith)
staged tx tx' (ok x) h e = subst IsView (ok-injective e) h

module _ (b : BlobStorage) where
  open b use {Store}

  -- The operations of a transaction, with the store as each `get` finds it.
  pub data Step : Transaction → Transaction → Type 0 where
    puts : (k : Text) (x : Bytes) (tx tx' : Transaction) → stage_put k x tx ≡ ok tx' → Step tx tx'
    deletes : (k : Text) (tx tx' : Transaction) → stage_delete k tx ≡ ok tx' → Step tx tx'
    notes : (k : Text) (payload : Fields Bytes) (tx : Transaction) → Step tx (note k payload tx)
    gets :
        (k : Text) (tx tx' : Transaction) (v : Option Bytes) (s : Store) (t : ℕ)
        → get b k tx (alone s t) ≡ (ok (v, tx'), alone s t)
        → Step tx tx'

  pub data Reached : Transaction → Type 0 where
    begun : Reached new_transaction
    stepped : (tx tx' : Transaction) → Reached tx → Step tx tx' → Reached tx'

  -- What a read of a key gives, and what it records.
  abbrev pub Viewed : Text → Transaction → Store → Option Bytes → Transaction → Type 0
  Viewed k tx s v tx' =
      (v ≡ Option.get_or (dict_get k tx.staged) (bytes_seen (b.get_object k s)))
      × ((dict_get k tx'.reads
            ≡ some (Option.get_or (dict_get k tx.reads) (etag_seen (b.get_object k s))))
          × (((j : Text) → k ≢ j → dict_get j tx'.reads ≡ dict_get j tx.reads)
              × ((tx'.ops ≡ tx.ops) × (tx'.staged ≡ tx.staged))))

  known :
      (k : Text) (tx : Transaction) (s : Store) (t : ℕ) (etag : Option Text)
      (o : Option (Option Bytes))
      → dict_get k tx.reads ≡ some etag
      → dict_get k tx.staged ≡ o
      → (v : Option Bytes) × ((view_key b k tx o (alone s t) ≡ (ok (v, tx), alone s t))
          × Viewed k tx s v tx)
  unfolding view_key reread ◌>>=◌ get_object call pure
  known k tx s t etag (some v) r h =
      (v, (refl, (rw h refl, (rw r refl, ((λ j ne. refl), (refl, refl))))))
  known k tx s t etag none r h = (
    bytes_seen (b.get_object k s),
    (refl, (rw h refl, (rw r refl, ((λ j ne. refl), (refl, refl))))),
  )

  recorded :
      (k : Text) (tx : Transaction) (s : Store)
      → dict_get k tx.reads ≡ none
      → let reads = dict_set k (etag_seen (b.get_object k s)) tx.reads in
        (dict_get k reads
          ≡ some (Option.get_or (dict_get k tx.reads) (etag_seen (b.get_object k s))))
        × (((j : Text) → k ≢ j → dict_get j reads ≡ dict_get j tx.reads)
            × ((tx.ops ≡ tx.ops) × (tx.staged ≡ tx.staged)))
  recorded k tx s r = (
    rw r (ground (arith, dict_get-dict_set k k (etag_seen (b.get_object k s)) tx.reads)),
    (
      (λ j ne. ground (arith, ne, dict_get-dict_set k j (etag_seen (b.get_object k s)) tx.reads)),
      (refl, refl),
    ),
  )

  first :
      (k : Text) (tx : Transaction) (s : Store) (t : ℕ) (o : Option (Option Bytes))
      → dict_get k tx.reads ≡ none
      → dict_get k tx.staged ≡ o
      → let tx' = record tx { reads = dict_set k (etag_seen (b.get_object k s)) tx.reads } in
        (v : Option Bytes) × ((first_read b k tx o (b.get_object k s) (alone s t)
            ≡ (ok (v, tx'), alone s t))
          × Viewed k tx s v tx')
  unfolding first_read pure
  first k tx s t none r h = (bytes_seen (b.get_object k s), (refl, (rw h refl, recorded k tx s r)))
  first k tx s t (some v) r h = (v, (refl, (rw h refl, recorded k tx s r)))

  -- With nobody else about, a read of an allowed key returns what the transaction has staged there, if
  -- anything, and else what is there; it records the etag that is there unless one is recorded, and
  -- nothing else.
  pub get-Viewed :
      (k : Text) (tx : Transaction) (s : Store) (t : ℕ)
      → check_key k ≡ ok tt
      → (v : Option Bytes) × ((tx' : Transaction) × ((get b k tx (alone s t)
              ≡ (ok (v, tx'), alone s t))
            × Viewed k tx s v tx'))
  unfolding get get_known ◌>>=◌ lift get_object call
  get-Viewed k tx s t allowed = elim (Option-cases (dict_get k tx.reads)) [
    | inl e ↦
        let (v, h) = first k tx s t (dict_get k tx.staged) e refl in
        (
          v,
          (
            record tx { reads = dict_set k (etag_seen (b.get_object k s)) tx.reads },
            (rw (allowed, e) h.0, h.1),
          ),
        )
    | inr (etag, e) ↦
        let (v, h) = known k tx s t etag (dict_get k tx.staged) e refl in
        (v, (tx, (rw (allowed, e) h.0, h.1)))
  ]

  run_get-raised :
      (k : Text) (tx tx' : Transaction) (v : Option Bytes) (s : Store) (t : ℕ) (x : Error)
      → check_key k ≡ raised x
      → get b k tx (alone s t) ≢ (ok (v, tx'), alone s t)
  unfolding get ◌>>=◌ lift
  run_get-raised k tx tx' v s t x h e =
      absurd (apart (ap (λ r. r.0) (sym (run-raised (check_key k) _ (alone s t) h) ∙ e)))
    where
      apart : ◌≡◌ {A = Result (Option Bytes × Transaction)} (raised x) (ok (v, tx')) → ⊥
      apart e' = cc

  IsView-same :
      (tx tx' : Transaction) → tx'.ops ≡ tx.ops → tx'.staged ≡ tx.staged → IsView tx → IsView tx'
  IsView-same tx tx' e e' h k o = rw (e, e') (h k o)

  IsView-get :
      (k : Text) (tx tx' : Transaction) (v : Option Bytes) (s : Store) (t : ℕ)
      (r : Result (Unit {0}))
      → check_key k ≡ r
      → get b k tx (alone s t) ≡ (ok (v, tx'), alone s t)
      → IsView tx
      → IsView tx'
  IsView-get k tx tx' v s t (raised x) h e view = absurd (run_get-raised k tx tx' v s t x h e)
  IsView-get k tx tx' v s t (ok tt) h e view =
      let (v', (tx'', (e', (_, (_, (_, (ops, staged))))))) = get-Viewed k tx s t h in
      subst IsView (ap (λ r. r.1) (ok-injective (ap (λ r. r.0) (sym e' ∙ e))))
        (IsView-same tx tx'' ops staged view)

  IsView-Step : (tx tx' : Transaction) → Step tx tx' → IsView tx → IsView tx'
  unfolding stage_put stage_delete note
  IsView-Step _ _ (puts k x tx tx' e) h = staged _ tx' (check_key k) (IsView-put k x tx h) e
  IsView-Step _ _ (deletes k tx tx' e) h = staged _ tx' (check_key k) (IsView-delete k tx h) e
  IsView-Step _ _ (notes k payload tx) h = h
  IsView-Step _ _ (gets k tx tx' v s t e) h = IsView-get k tx tx' v s t (check_key k) refl e h

  -- In every transaction that the operations reach from a new one, what a read of a key is given from
  -- the staged writes is what the operations of its record leave there.
  pub Reached-IsView : (tx : Transaction) → Reached tx → IsView tx
  unfolding new_transaction dict_get
  Reached-IsView _ begun = λ k o. refl
  Reached-IsView _ (stepped tx tx' r step) = IsView-Step tx tx' step (Reached-IsView tx r)
