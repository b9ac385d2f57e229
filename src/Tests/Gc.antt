-- ===== src/Tests/Gc.antt =====
-- A store whose commits and snapshots are 1 to `commits` and the listed ones, and a garbage
-- collection of it.
use cairndb.Prelude.{
  ℕ, ◌≤◌, ◌≡◌, refl, ap, none, List, [], ◌∷◌, All, arith, ltb, if◌then◌else◌, Bool-cases, inl, inr,
}
use cairndb.Storage.LogInterface.{LogStorage}
use cairndb.Jobs.Gc.{IsAscending, from, RetainedStorage}
use cairndb.Tests.Log.{log, Slots, slot, fill}

abbrev pub Kept : Type 0
Kept = Slots × ((ns : List ℕ) × IsAscending ns)

pub before : ℕ → Slots → Slots
before number [] = []
before number ((m, x) ∷ s) =
    let rest = before number s in if ltb m number then rest else (m, x) ∷ rest

pub slot-before :
    (number n : ℕ) (s : Slots)
    → slot n (before number s) ≡ (if ltb n number then none else slot n s)
unfolding slot before
slot-before number n [] = ground arith
slot-before number n ((m, x) ∷ s) = ground (arith, slot-before number n s)

All-later : (P : ℕ → Type 0) (number : ℕ) (ns : List ℕ) → All P ns → All P (from number ns)
unfolding from
All-later P number [] h = tt
All-later P number (n ∷ ns) h = elim (Bool-cases (ltb n number)) [
  | inl less ↦ rw less (All-later P number ns h.1)
  | inr more ↦ rw more (h.0, All-later P number ns h.1)
]

pub IsAscending-from : (number : ℕ) (ns : List ℕ) → IsAscending ns → IsAscending (from number ns)
unfolding from
IsAscending-from number [] h = tt
IsAscending-from number (n ∷ ns) h = elim (Bool-cases (ltb n number)) [
  | inl less ↦ rw less (IsAscending-from number ns h.1)
  | inr more ↦ rw more (All-later (λ m. n ≤ m) number ns h.0, IsAscending-from number ns h.1)
]

abbrev pub kept_log : LogStorage
kept_log = record {
  Store = Kept;
  get_commit = λ n s. log.get_commit n s.0;
  put_commit = λ n bytes s. ((fill n bytes s.0).0, ((fill n bytes s.0).1, s.1));
  list_commits = λ after s. log.list_commits after s.0;
  put_new = λ n bytes s h. log.put_new n bytes s.0 h;
  put_taken = λ n bytes x s h. ap (λ r. (r.0, (r.1, s.1))) (log.put_taken n bytes x s.0 h);
  put_other = λ n m bytes s h. log.put_other n m bytes s.0 h;
  listed = λ after s d. log.listed after s.0 d;
}

abbrev pub retained : RetainedStorage
retained = record {
  log = kept_log;
  list_snapshots = λ schema s. s.1.0;
  delete_snapshots_before =
      λ schema number s. (0, (s.0, (from number s.1.0, IsAscending-from number s.1.0 s.1.1)));
  delete_commits_before = λ number s. (0, (before number s.0, s.1));
  snapshots_ascending = λ schema s. s.1.1;
  snapshots_deleted = λ schema number s. refl;
  snapshots_only = λ schema number n s. refl;
  commits_deleted = λ number n s. slot-before number n s.0;
  commits_only = λ schema number s. refl;
}

abbrev full : Kept
full = ((1, 7 ∷ []) ∷ (2, 8 ∷ []) ∷ (3, 9 ∷ []) ∷ [], (1 ∷ 2 ∷ [], ((omega arith, tt), (tt, tt))))
