-- ===== src/Engine/Logs/Contract.antt =====
-- A named log keeps the contract of a commit log, on the stores of which the log's prefix holds
-- nothing but commits.
pub mod Isolation
use cairndb.Prelude.{
  ℕ, zero, suc, ◌+◌, ◌-◌, ◌≤◌, ◌<◌, Text, text_discrete, Bytes, codes, ◌≡◌, ◌≢◌, refl, sym, ap,
  subst, ◌∙◌, inl, inr, Bool, true, false, Option, Option-cases, none, some, List, [], ◌∷◌, ◌++◌,
  All, ltb, leb, if◌then◌else◌, Bool-cases, arith,
}
use mathlib.Core.List.{append_cancel_left}
use mathlib.Core.Option
use mathlib.Core.HLevel.{Σ_prop_path, hedberg}
use mathlib.Core.Path.{fun_ext, ap₂}
use cairndb.Storage.Interface.{BlobStorage, StoredObject}
use cairndb.Storage.LogInterface.{LogStorage}
use cairndb.Storage.Writes.{Wrote, written, put_absent}
use cairndb.Storage.Keys.{commit_key, parse_commit_key}
use cairndb.Storage.Keys.Parse.{commit_key_injective}
use cairndb.Storage.Listed.{ListedStorage}
use cairndb.Engine.Keys.{starts_with}
use cairndb.Engine.Logs.{
  insert_number, sorted, keep_number, numbers_after, succeeded, name_key, put_if_absent, get_bytes,
  put_commit, get_commit, list_commits,
}
use cairndb.Engine.Logs.Numbers.{parse_commit_key-le}

insert_number-All :
    (P : ℕ → Type 0) (n : ℕ) (ns : List ℕ) → P n → All P ns → All P (insert_number n ns)
unfolding insert_number
insert_number-All P n [] h hs = (h, tt)
insert_number-All P n (m ∷ ms) h hs = elim (Bool-cases (leb n m)) [
  | inl e ↦ rw e (h, hs)
  | inr e ↦ rw e (hs.0, insert_number-All P n ms h hs.1)
]

sorted-All : (P : ℕ → Type 0) (ns : List ℕ) → All P ns → All P (sorted ns)
unfolding sorted
sorted-All P [] h = tt
sorted-All P (n ∷ ns) h = insert_number-All P n (sorted ns) h.0 (sorted-All P ns h.1)

numbers_after-All :
    (P : ℕ → Type 0) (Q : Text → Type 0) (parse : Text → Option ℕ) (after : ℕ) (ks : List Text)
    → ((k : Text) (m : ℕ) → Q k → parse k ≡ some m → after < m → P m)
    → All Q ks
    → All P (numbers_after parse after ks)
unfolding numbers_after keep_number
numbers_after-All P Q parse after [] f h = tt
numbers_after-All P Q parse after (k ∷ ks) f h =
    kept (parse k) refl (numbers_after-All P Q parse after ks f h.1)
  where
    kept :
        (o : Option ℕ)
        → parse k ≡ o
        → All P (numbers_after parse after ks)
        → All P (keep_number after o (numbers_after parse after ks))
    kept none e rest = rest
    kept (some m) e rest = elim (Bool-cases (ltb after m)) [
      | inl l ↦ rw l (f k m h.0 e (ground (arith, l)), rest)
      | inr l ↦ rw l rest
    ]

-- Down a sequence without gaps.
downwards :
    (P : ℕ → Type 0) (j k : ℕ)
    → ((n : ℕ) → P (suc (suc n)) → P (suc n))
    → P (suc (k + j))
    → P (suc k)
downwards P zero k d h = subst P (omega arith) h
downwards P (suc j) k d h = downwards P j k d (d (k + j) (subst P (omega arith) h))

name_key_injective : (ns x y : Text) → name_key ns x ≡ name_key ns y → x ≡ y
unfolding name_key
name_key_injective ns x y e =
    append_cancel_left (b'/' ∷ []) x y (append_cancel_left ns (b'/' ∷ x) (b'/' ∷ y) e)

module _ (b : ListedStorage) (namespace : Text) where
  abbrev pub key_of : ℕ → Text
  key_of n = name_key namespace (commit_key n)

  pub key_of_injective : (n m : ℕ) → key_of n ≡ key_of m → n ≡ m
  key_of_injective n m e =
      commit_key_injective n m (name_key_injective namespace (commit_key n) (commit_key m) e)

  abbrev pub OnlyCommits : b.blob.Store → Type 0
  OnlyCommits s =
      (k : Text) (o : StoredObject)
      → b.blob.get_object k s ≡ some o
      → starts_with (name_key namespace (codes "log/")) k ≡ true
      → (n : ℕ) × (k ≡ key_of n)

  abbrev pub Present : ℕ → b.blob.Store → Type 0
  Present n s = (x : Bytes) × (get_commit b namespace n s ≡ some x)

  pub put_commit_new :
      (n : ℕ) (bytes : Bytes) (s : b.blob.Store)
      → get_commit b namespace n s ≡ none
      → ((put_commit b namespace n bytes s).0 ≡ true)
        × (get_commit b namespace n (put_commit b namespace n bytes s).1 ≡ some bytes)
  unfolding put_commit put_if_absent get_commit get_bytes succeeded
  put_commit_new n bytes s h = elim (put_absent b.blob (key_of n) bytes s) [
    | inl (free, wrote) ↦ (ap succeeded wrote.0, rw wrote.1 refl)
    | inr (o, e, refused) ↦ absurd (ground (arith, e, h))
  ]

  pub put_commit_taken :
      (n : ℕ) (bytes x : Bytes) (s : b.blob.Store)
      → get_commit b namespace n s ≡ some x
      → put_commit b namespace n bytes s ≡ (false, s)
  unfolding put_commit put_if_absent get_commit get_bytes succeeded
  put_commit_taken n bytes x s h = elim (put_absent b.blob (key_of n) bytes s) [
    | inl (free, wrote) ↦ absurd (ground (arith, free, h))
    | inr (o, e, refused) ↦ ap (λ r. (succeeded r.0, r.1)) refused
  ]

  pub put_commit_other :
      (n m : ℕ) (bytes : Bytes) (s : b.blob.Store)
      → n ≢ m
      → get_commit b namespace m (put_commit b namespace n bytes s).1 ≡ get_commit b namespace m s
  unfolding put_commit put_if_absent get_commit get_bytes
  put_commit_other n m bytes s ne =
      rw
        (b.blob.put_other (key_of n) (key_of m) bytes none true s
          (λ e. ne (key_of_injective n m e)))
        refl

  pub put_commit-OnlyCommits :
      (n : ℕ) (bytes : Bytes) (s : b.blob.Store)
      → OnlyCommits s
      → OnlyCommits (put_commit b namespace n bytes s).1
  unfolding put_commit put_if_absent
  put_commit-OnlyCommits n bytes s h k o there starts = elim (text_discrete (key_of n) k) [
    | yes e ↦ (n, sym e)
    | no ne ↦ h k o (sym (b.blob.put_other (key_of n) k bytes none true s ne) ∙ there) starts
  ]

  Present-below :
      (s : b.blob.Store) (n m : ℕ)
      → ((j : ℕ) → Present (suc (suc j)) s → Present (suc j) s)
      → m ≤ n
      → 0 < m
      → Present n s
      → Present m s
  Present-below s n zero d le pos h = absurd (omega arith)
  Present-below s n (suc m) d le pos h =
      downwards (λ j. Present j s) (n - suc m) m d (subst (λ j. Present j s) (omega arith) h)

  Present-stored :
      (n : ℕ) (k : Text) (o : StoredObject) (s : b.blob.Store)
      → k ≡ key_of n
      → b.blob.get_object k s ≡ some o
      → Present n s
  unfolding get_commit get_bytes
  Present-stored n k o s e there =
      (o.bytes, ap (Option.map (λ x. x.bytes)) (ap (λ j. b.blob.get_object j s) (sym e) ∙ there))

  read_number-le : (n m : ℕ) (k : Text) → k ≡ key_of n → parse_commit_key k ≡ some m → m ≤ n
  unfolding name_key
  read_number-le n m k e h = parse_commit_key-le namespace n m (ap parse_commit_key (sym e) ∙ h)

  pub list_commits_listed :
      (after : ℕ) (s : b.blob.Store)
      → OnlyCommits s
      → ((n : ℕ) → Present (suc (suc n)) s → Present (suc n) s)
      → All (λ n. (after < n) × Present n s) (list_commits b namespace after s)
  unfolding list_commits
  list_commits_listed after s only dense =
      sorted-All (λ n. (after < n) × Present n s)
        (numbers_after parse_commit_key after
          (b.list_objects (name_key namespace (codes "log/")) s))
        (numbers_after-All (λ n. (after < n) × Present n s)
          (λ k.
            (starts_with (name_key namespace (codes "log/")) k ≡ true)
            × ((o : StoredObject) × (b.blob.get_object k s ≡ some o)))
          parse_commit_key after (b.list_objects (name_key namespace (codes "log/")) s) found
          (b.listed_there (name_key namespace (codes "log/")) s))
    where
      found :
          (k : Text) (m : ℕ)
          → (starts_with (name_key namespace (codes "log/")) k ≡ true)
            × ((o : StoredObject) × (b.blob.get_object k s ≡ some o))
          → parse_commit_key k ≡ some m
          → after < m
          → (after < m) × Present m s
      found k m h e l =
          let (n, is_key) = only k h.1.0 h.1.1 h.0 in
          (
            l,
            Present-below s n m dense (read_number-le n m k is_key e) (omega (arith, l))
                (Present-stored n k h.1.0 s is_key h.1.1),
          )

  commit_of_key : (k : Text) (x y : (n : ℕ) × (k ≡ key_of n)) → x ≡ y
  commit_of_key k x y =
      Σ_prop_path (λ n. hedberg text_discrete k (key_of n))
        (key_of_injective x.0 y.0 (sym x.1 ∙ y.1))

  OnlyCommits-prop : (s : b.blob.Store) → IsProp (OnlyCommits s)
  OnlyCommits-prop s h h' = fun_ext (λ k. fun_ext (λ o.
      fun_ext
        (λ there. fun_ext (λ starts. commit_of_key k (h k o there starts) (h' k o there starts)))))

  pub put_commit_refused :
      (n : ℕ) (bytes x : Bytes) (s : b.blob.Store) (h : OnlyCommits s)
      → get_commit b namespace n s ≡ some x
      → ◌≡◌ {A = Bool × ((t : b.blob.Store) × OnlyCommits t)}
          (
            (put_commit b namespace n bytes s).0,
            ((put_commit b namespace n bytes s).1, put_commit-OnlyCommits n bytes s h),
          )
          (false, (s, h))
  put_commit_refused n bytes x s h e =
      ap₂ (λ (r : Bool) (t : (t : b.blob.Store) × OnlyCommits t). (r, t))
        (ap (λ r. r.0) (put_commit_taken n bytes x s e))
        (Σ_prop_path OnlyCommits-prop (ap (λ r. r.1) (put_commit_taken n bytes x s e)))

  -- The stores whose log prefix holds nothing but commits, with the operations of the named log.
  abbrev pub named_log : LogStorage
  named_log = record {
    Store = (s : b.blob.Store) × OnlyCommits s;
    get_commit = λ n s. get_commit b namespace n s.0;
    put_commit = λ n bytes s. (
      (put_commit b namespace n bytes s.0).0,
      ((put_commit b namespace n bytes s.0).1, put_commit-OnlyCommits n bytes s.0 s.1),
    );
    list_commits = λ after s. list_commits b namespace after s.0;
    put_new = λ n bytes s h. put_commit_new n bytes s.0 h;
    put_taken = λ n bytes x s h. put_commit_refused n bytes x s.0 s.1 h;
    put_other = λ n m bytes s ne. put_commit_other n m bytes s.0 ne;
    listed = λ after s dense. list_commits_listed after s.0 s.1 dense;
  }
