-- ===== src/Engine/Transactions/Overlap.antt =====
-- The tests of src/cairndb/engine/transactions.py on sets of keys, and what they mean.
use cairndb.Prelude.{
  ℕ, Text, text_discrete, ◌≡◌, refl, sym, ap, subst, ◌⊎◌, inl, inr, true, Bool-cases, Option, List,
  [], ◌∷◌, ◌++◌, arith,
}
use cairndb.Core.Value.{find}
use cairndb.Core.Log.{as_dict}
use cairndb.Storage.Listed.{Among}
use cairndb.Storage.Effects.{ok}
use cairndb.Engine.Transactions.{Op, Transaction, to_event, reads_value, op_key, op_keys, dict_keys}
use cairndb.Engine.Transactions.Records.{write_set-to_event}
use cairndb.Engine.Transactions.Manager.{contains, overlaps, field_keys, reads_of, events_writes}
use cairndb.Engine.Transactions.Applied.{records, all_ops}

-- A key that is in both.
abbrev pub Meets : List Text → List Text → Type 0
Meets js ks = (k : Text) × (Among k js × Among k ks)

contains-Among : (ks : List Text) (k : Text) → contains ks k ≡ true → Among k ks
unfolding contains
contains-Among [] k h = absurd (ground arith)
contains-Among (j ∷ js) k h = elim (text_discrete j k) [
  | yes e ↦ inl e
  | no ne ↦ inr (contains-Among js k (ground (arith, h, ne)))
]

Among-contains : (ks : List Text) (k : Text) → Among k ks → contains ks k ≡ true
unfolding contains
Among-contains [] k h = elim h [ ]
Among-contains (j ∷ js) k (inl e) = ground (arith, e)
Among-contains (j ∷ js) k (inr h) = ground (arith, Among-contains js k h)

pub overlaps-Meets : (js ks : List Text) → overlaps js ks ≡ true → Meets js ks
unfolding overlaps
overlaps-Meets [] ks h = absurd (ground arith)
overlaps-Meets (j ∷ js) ks h = elim (Bool-cases (contains ks j)) [
  | inl e ↦ (j, (inl refl, contains-Among ks j e))
  | inr e ↦ let (k, (a, a')) = overlaps-Meets js ks (ground (arith, h, e)) in (k, (inr a, a'))
]

pub Meets-overlaps : (js ks : List Text) → Meets js ks → overlaps js ks ≡ true
unfolding overlaps
Meets-overlaps [] ks (k, (a, a')) = absurd a
Meets-overlaps (j ∷ js) ks (k, (inl e, a')) =
    ground (arith, Among-contains ks j (subst (λ i. Among i ks) (sym e) a'))
Meets-overlaps (j ∷ js) ks (k, (inr a, a')) = ground (arith, Meets-overlaps js ks (k, (a, a')))

field_keys-reads_value :
    (reads : List (Text × Option Text)) → field_keys (reads_value reads) ≡ dict_keys reads
unfolding field_keys reads_value dict_keys
field_keys-reads_value [] = refl
field_keys-reads_value ((k, etag) ∷ reads) = ap (λ ks. k ∷ ks) (field_keys-reads_value reads)

-- The read set of a record is that of its transaction.
pub reads_of-to_event :
    (at : ℕ) (tx : Transaction) → reads_of (to_event at tx).payload ≡ ok (dict_keys tx.reads)
unfolding reads_of to_event find text_discrete as_dict
reads_of-to_event at tx = ap ok (field_keys-reads_value tx.reads)

pub op_keys-append : (ops later : List Op) → op_keys (ops ++ later) ≡ op_keys ops ++ op_keys later
unfolding op_keys
op_keys-append [] later = refl
op_keys-append (op ∷ ops) later = ap (λ ks. op_key op ∷ ks) (op_keys-append ops later)

-- The write set of records is what their transactions write.
pub events_writes-records :
    (txs : List (ℕ × Transaction)) → events_writes (records txs) ≡ ok (op_keys (all_ops txs))
unfolding events_writes op_keys
events_writes-records [] = refl
events_writes-records ((at, tx) ∷ txs) =
    rw (write_set-to_event at tx, events_writes-records txs)
      (ap ok (sym (op_keys-append tx.ops (all_ops txs))))

pub Among-append : (xs ys : List Text) (k : Text) → Among k (xs ++ ys) → Among k xs ⊎ Among k ys
Among-append [] ys k h = inr h
Among-append (x ∷ xs) ys k (inl e) = inl (inl e)
Among-append (x ∷ xs) ys k (inr h) = elim (Among-append xs ys k h) [
  | inl a ↦ inl (inr a)
  | inr a ↦ inr a
]

Among-left : (xs ys : List Text) (k : Text) → Among k xs → Among k (xs ++ ys)
Among-left [] ys k h = elim h [ ]
Among-left (x ∷ xs) ys k (inl e) = inl e
Among-left (x ∷ xs) ys k (inr h) = inr (Among-left xs ys k h)

Among-right : (xs ys : List Text) (k : Text) → Among k ys → Among k (xs ++ ys)
Among-right [] ys k h = h
Among-right (x ∷ xs) ys k h = inr (Among-right xs ys k h)

-- A list meets two in a row if it meets one of them.
pub Meets-left :
    (js : List Text) (ops later : List Op)
    → Meets js (op_keys ops)
    → Meets js (op_keys (ops ++ later))
Meets-left js ops later (k, (a, a')) = (
  k,
  (
    a,
    subst (Among k) (sym (op_keys-append ops later))
        (Among-left (op_keys ops) (op_keys later) k a'),
  ),
)

pub Meets-right :
    (js : List Text) (ops later : List Op)
    → Meets js (op_keys later)
    → Meets js (op_keys (ops ++ later))
Meets-right js ops later (k, (a, a')) = (
  k,
  (
    a,
    subst (Among k) (sym (op_keys-append ops later))
        (Among-right (op_keys ops) (op_keys later) k a'),
  ),
)

pub Meets-append :
    (js : List Text) (ops later : List Op)
    → Meets js (op_keys (ops ++ later))
    → Meets js (op_keys ops) ⊎ Meets js (op_keys later)
Meets-append js ops later (k, (a, a')) =
    elim (Among-append (op_keys ops) (op_keys later) k
      (subst (Among k) (op_keys-append ops later) a')) [
        | inl h ↦ inl (k, (a, h))
        | inr h ↦ inr (k, (a, h))
      ]
