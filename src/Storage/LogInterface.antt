-- ===== src/Storage/LogInterface.antt =====
-- src/cairndb/storage/base.py: the commit half of BlobStorage, as a record of operations on the state
-- of a store and of the laws that its documentation states.
use cairndb.Prelude.{ℕ, suc, ◌<◌, Bytes, ◌≡◌, ◌≢◌, Bool, true, false, Option, none, some, List, All}

pub record LogStorage : Type 1 where
  pub Store : Type 0
  pub get_commit : ℕ → Store → Option Bytes
  pub put_commit : ℕ → Bytes → Store → Bool × Store
  -- The commit numbers greater than the first argument, ascending.
  pub list_commits : ℕ → Store → List ℕ
  -- put_commit creates the object if it does not exist, and only then.
  pub put_new :
      (n : ℕ) (bytes : Bytes) (s : Store)
      → get_commit n s ≡ none
      → ((put_commit n bytes s).0 ≡ true) × (get_commit n (put_commit n bytes s).1 ≡ some bytes)
  pub put_taken :
      (n : ℕ) (bytes x : Bytes) (s : Store)
      → get_commit n s ≡ some x
      → put_commit n bytes s ≡ (false, s)
  pub put_other :
      (n m : ℕ) (bytes : Bytes) (s : Store)
      → n ≢ m
      → get_commit m (put_commit n bytes s).1 ≡ get_commit m s
  -- What is listed exists, in a log without a gap.
  pub listed :
      (after : ℕ) (s : Store)
      → ((n : ℕ)
          → ((x : Bytes) × (get_commit (suc (suc n)) s ≡ some x))
          → ((x : Bytes) × (get_commit (suc n) s ≡ some x)))
      → All (λ n. (after < n) × ((x : Bytes) × (get_commit n s ≡ some x))) (list_commits after s)
