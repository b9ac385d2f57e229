-- ===== src/Client/Discovery/Dense.antt =====
-- On a dense log one read tells whether there is anything new.
use cairndb.Prelude.{
  ℕ, zero, suc, ◌+◌, ◌-◌, ◌≤◌, Bytes, ◌≡◌, refl, sym, ap, subst, ◌⊎◌, Bool, true, false, Option,
  Option-cases, inl, inr, none, some, arith,
}
use cairndb.Core.Log.{SequenceNumber}
use cairndb.Storage.LogInterface.{LogStorage}
use cairndb.Storage.Effects.{Result, ok, raised, call, pure, ◌>>=◌}
use cairndb.Storage.Alone.{alone}
use cairndb.Committer.Log.{IsThere, IsDense}
use cairndb.Client.Discovery.{next_number, is_present, has_new_commits}

-- The first commit that a client of that state has not seen.
abbrev pub first_unseen : Option SequenceNumber → ℕ
first_unseen none = 1
first_unseen (some q) = q.commit + 1

next_number-first_unseen :
    (current : Option SequenceNumber) → next_number current ≡ first_unseen current
unfolding next_number
next_number-first_unseen none = refl
next_number-first_unseen (some q) = omega arith

module _ (b : LogStorage) where
  open b use {Store}

  -- A commit is there only if every one before it is.
  IsThere-below :
      (k j : ℕ) (s : Store) → IsDense b s → IsThere b (suc (k + j)) s → IsThere b (suc k) s
  IsThere-below k zero s dense h = subst (λ n. IsThere b n s) (omega arith) h
  IsThere-below k (suc j) s dense h =
      IsThere-below k j s dense (dense (k + j) (subst (λ n. IsThere b n s) (omega arith) h))

  -- What the poll's answer means for the log.
  abbrev pub Tells : Option SequenceNumber → Result Bool → Store → Type 0
  Tells current (ok true) s = IsThere b (first_unseen current) s
  Tells current (ok false) s = (m : ℕ) → first_unseen current ≤ m → b.get_commit m s ≡ none
  Tells current (raised e) s = ⊥

  first_unseen-suc : (current : Option SequenceNumber) → (k : ℕ) × (first_unseen current ≡ suc k)
  first_unseen-suc none = (0, refl)
  first_unseen-suc (some q) = (q.commit, omega arith)

  -- On a dense log that nobody else is changing, the poll answers true if the next commit is there,
  -- and false only if there is no later commit at all.
  pub has_new_commits-Tells :
      (current : Option SequenceNumber) (s : Store) (t : ℕ)
      → IsDense b s
      → Tells current (has_new_commits b current (alone s t)).0 s
  unfolding has_new_commits ◌>>=◌ call pure is_present
  has_new_commits-Tells current s t dense =
      told (b.get_commit (next_number current) s)
        (ap (λ n. b.get_commit n s) (sym (next_number-first_unseen current)))
    where
      told :
          (o : Option Bytes)
          → b.get_commit (first_unseen current) s ≡ o
          → Tells current (ok (is_present o)) s
      told (some x) e = (x, e)
      told none e = λ m l. absent m l (Option-cases (b.get_commit m s))
        where
          absent :
              (m : ℕ)
              → first_unseen current ≤ m
              → (b.get_commit m s ≡ none) ⊎ ((x : Bytes) × (b.get_commit m s ≡ some x))
              → b.get_commit m s ≡ none
          absent m l (inl free) = free
          absent m l (inr (x, there)) =
              let (k, first) = first_unseen-suc current in
              let (y, e') =
                IsThere-below k (m - suc k) s dense
                  (subst (λ n. IsThere b n s) (omega (arith, l, first)) (x, there)) in
              absurd (ground (arith, e, e', first, ap (λ n. b.get_commit n s) first))
