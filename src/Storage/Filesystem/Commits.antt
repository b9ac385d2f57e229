-- ===== src/Storage/Filesystem/Commits.antt =====
-- src/cairndb/storage/filesystem.py: commits and snapshots as files, by their paths below the root. The
-- link of a temporary file is one step; temporary files are dot-files that no operation takes for a
-- commit or a snapshot, and are left out, as are errors of the operating system.
pub mod Pruned
use cairndb.Prelude.{
  ℕ, suc, Text, Bytes, codes, Bool, true, false, ◌&&◌, Option, none, some, List, [], ◌∷◌, ◌++◌, ltb,
  if◌then◌else◌, ◌==◌,
}
use cairndb.Storage.Effects.{Result, ok, raised, storage_error}
use cairndb.Storage.Files.{Files, read_file, replace, unlink}
use cairndb.Storage.Keys.{
  commit_key, snapshot_key, snapshot_prefix, parse_commit_key, parse_snapshot_key,
}
use cairndb.Engine.Logs.{sorted, numbers_after, numbers_of}

-- The name of an entry of a directory, from a path: nothing more than the directory's is before it, and
-- it has no slash.
unfoldable pub has_slash : Text → Bool
has_slash [] = false
has_slash (c ∷ t) = if c == b'/' then true else has_slash t

unfoldable pub entry_name : Text → Text → Option Text
entry_name [] path = if has_slash path then none else some path
entry_name (d ∷ dir) [] = none
entry_name (d ∷ dir) (c ∷ path) = if d == c then entry_name dir path else none

unfoldable pub add_entry : Option Text → List Text → List Text
add_entry none names = names
add_entry (some name) names = name ∷ names

unfoldable pub iterdir : Text → Files → List Text
iterdir dir [] = []
iterdir dir ((path, x) ∷ fs) = add_entry (entry_name dir path) (iterdir dir fs)

abbrev pub log_dir : Text
log_dir = codes "log/"

unfoldable pub put_if_absent : Text → Bytes → Files → Bool × Files
put_if_absent key bytes fs = elim (read_file key fs) [
  | some x ↦ (false, fs)
  | none ↦ (true, replace key bytes fs)
]

unfoldable pub put_commit : ℕ → Bytes → Files → Bool × Files
put_commit number bytes fs = put_if_absent (commit_key number) bytes fs

unfoldable pub get_commit : ℕ → Files → Option Bytes
get_commit number fs = read_file (commit_key number) fs

unfoldable pub list_commits : ℕ → Files → List ℕ
list_commits after fs = sorted (numbers_after parse_commit_key after (iterdir log_dir fs))

unfoldable pub put_snapshot : Text → ℕ → Bytes → Files → Bool × Files
put_snapshot schema number bytes fs = put_if_absent (snapshot_key schema number) bytes fs

-- A directory that does not exist has no entries.
unfoldable pub list_snapshots : Text → Files → List ℕ
list_snapshots schema fs =
    sorted (numbers_of parse_snapshot_key (iterdir (snapshot_prefix schema) fs))

unfoldable pub get_snapshot : Text → ℕ → Files → Result Bytes
get_snapshot schema number fs = elim (read_file (snapshot_key schema number) fs) [
  | none ↦ raised storage_error
  | some bytes ↦ ok bytes
]

-- entry.unlink if the entry has a number and it is smaller.
unfoldable pub is_old : Option ℕ → ℕ → Bool
is_old none number = false
is_old (some n) number = ltb n number

unfoldable pub drop_entry : Bool → Text → ℕ × Files → ℕ × Files
drop_entry false path (deleted, fs) = (deleted, fs)
drop_entry true path (deleted, fs) = (suc deleted, unlink path fs)

unfoldable pub delete_entries : (Text → Option ℕ) → Text → ℕ → List Text → ℕ × Files → ℕ × Files
delete_entries parse dir number [] r = r
delete_entries parse dir number (name ∷ names) r =
    delete_entries parse dir number names (drop_entry (is_old (parse name) number) (dir ++ name) r)

unfoldable pub delete_commits_before : ℕ → Files → ℕ × Files
delete_commits_before number fs =
    delete_entries parse_commit_key log_dir number (iterdir log_dir fs) (0, fs)

unfoldable pub delete_snapshots_before : Text → ℕ → Files → ℕ × Files
delete_snapshots_before schema number fs =
    delete_entries parse_snapshot_key (snapshot_prefix schema) number
      (iterdir (snapshot_prefix schema) fs) (0, fs)
