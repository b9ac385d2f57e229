-- ===== src/Jobs/Gc.antt =====
-- src/cairndb/jobs/gc.py: retention. The snapshots of a schema and the deletions, which the abstract
-- class of src/cairndb/storage/base.py declares, are parameters with the laws that it states.
pub mod Retention
use cairndb.Prelude.{
  ℕ, suc, ◌+◌, ◌-◌, ◌≤◌, Text, ◌≡◌, Bool, true, false, Option, none, some, List, [], ◌∷◌, All,
  length, get_elem?, ltb, leb, if◌then◌else◌,
}
use cairndb.Storage.LogInterface.{LogStorage}
use cairndb.Storage.Effects.{Io, pure, raise, call, value_error, ◌>>=◌}

-- Each number is at most the later ones.
abbrev pub IsAscending : List ℕ → Type 0
IsAscending [] = Unit
IsAscending (n ∷ ns) = All (λ m. n ≤ m) ns × IsAscending ns

unfoldable pub from : ℕ → List ℕ → List ℕ
from number [] = []
from number (n ∷ ns) = let rest = from number ns in if ltb n number then rest else n ∷ rest

pub record RetainedStorage : Type 1 where
  pub log : LogStorage
  pub list_snapshots : Text → log.Store → List ℕ
  pub delete_snapshots_before : Text → ℕ → log.Store → ℕ × log.Store
  pub delete_commits_before : ℕ → log.Store → ℕ × log.Store
  pub snapshots_ascending : (schema : Text) (s : log.Store) → IsAscending (list_snapshots schema s)
  -- Those with a smaller number are deleted, and nothing else.
  pub snapshots_deleted :
      (schema : Text) (number : ℕ) (s : log.Store)
      → list_snapshots schema (delete_snapshots_before schema number s).1
        ≡ from number (list_snapshots schema s)
  pub snapshots_only :
      (schema : Text) (number n : ℕ) (s : log.Store)
      → log.get_commit n (delete_snapshots_before schema number s).1 ≡ log.get_commit n s
  pub commits_deleted :
      (number n : ℕ) (s : log.Store)
      → log.get_commit n (delete_commits_before number s).1
        ≡ (if ltb n number then none else log.get_commit n s)
  pub commits_only :
      (schema : Text) (number : ℕ) (s : log.Store)
      → list_snapshots schema (delete_commits_before number s).1 ≡ list_snapshots schema s

pub record GcResult : Type 0 where
  pub snapshots_deleted : ℕ
  pub commits_deleted : ℕ
  pub oldest_kept_snapshot : Option ℕ

module _ (b : RetainedStorage) where
  abbrev Run : Type 0 → Type 0
  Run = Io b.log.Store

  unfoldable pub prune : Bool → Option ℕ → ℕ → Run GcResult
  prune true (some oldest) deleted = do
    commits ← call (b.delete_commits_before (suc oldest))
    pure (record {
      snapshots_deleted = deleted;
      commits_deleted = commits;
      oldest_kept_snapshot = some oldest;
    })
  prune prune_log oldest_kept deleted = pure (record {
    snapshots_deleted = deleted;
    commits_deleted = 0;
    oldest_kept_snapshot = oldest_kept;
  })

  -- numbers[-keep_snapshots], when there are more.
  unfoldable pub drop_old : Text → ℕ → Bool → List ℕ → Option ℕ → Run GcResult
  drop_old schema keep prune_log numbers none = prune prune_log none 0
  drop_old schema keep prune_log numbers (some oldest) = do
    deleted ← call (b.delete_snapshots_before schema oldest)
    prune prune_log (some oldest) deleted

  unfoldable pub retain : Text → ℕ → Bool → List ℕ → Run GcResult
  retain schema keep prune_log numbers = elim (leb (length numbers) keep) [
    | true ↦ prune prune_log (get_elem? numbers 0) 0
    | false ↦ drop_old schema keep prune_log numbers (get_elem? numbers (length numbers - keep))
  ]

  unfoldable pub collect_garbage : Text → ℕ → Bool → Run GcResult
  collect_garbage schema keep prune_log = elim (ltb keep 1) [
    | true ↦ raise value_error
    | false ↦ do
      numbers ← call (λ s. (b.list_snapshots schema s, s))
      retain schema keep prune_log numbers
  ]
