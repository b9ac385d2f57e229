-- ===== src/Engine/Logs.antt =====
-- src/cairndb/engine/logs.py: the commit log and the snapshots of a named log, as objects under
-- logs/{name}/. Each operation of NamespacedStorage is one call of the base store, except the
-- deletions, which list the keys and delete one object after the other.
pub mod Numbers
pub mod Contract
use cairndb.Prelude.{
  ℕ, zero, suc, ◌+◌, Text, Bytes, codes, ◌≡◌, refl, Bool, true, false, ◌&&◌, ◌||◌, Option, none,
  some, List, [], ◌∷◌, ◌++◌, ltb, leb, ◌==◌, if◌then◌else◌,
}
use mathlib.Core.Option
use cairndb.Core.Sequence.{at_end}
use cairndb.Storage.Interface.{BlobStorage, StoredObject}
use cairndb.Storage.Keys.{
  commit_key, parse_commit_key, snapshot_key, snapshot_prefix, parse_snapshot_key,
}
use cairndb.Storage.Listed.{ListedStorage}
use cairndb.Storage.Effects.{
  Result, ok, raised, value_error, storage_error, Io, pure, raise, lift, call, get_object,
  put_object, delete_object, ◌>>=◌, ◌>>◌,
}

-- [a-z0-9._-]
unfoldable pub is_name_char : ℕ → Bool
is_name_char c =
    leb b'a' c && leb c b'z' || leb b'0' c && leb c b'9' || c == b'.' || c == b'_' || c == b'-'

-- What `+` and `$` leave: more characters of a name, then the end.
unfoldable pub is_name_rest : Text → Bool
unfolding is_name_char
is_name_rest [] = true
is_name_rest (c ∷ t) = let rest = is_name_rest t in if is_name_char c then rest else at_end (c ∷ t)

unfoldable pub is_log_name : Text → Bool
is_log_name [] = false
is_log_name (c ∷ t) = is_name_char c && is_name_rest t

unfoldable pub check_log_name : Text → Result (Unit {0})
check_log_name name = if is_log_name name then ok tt else raised value_error

-- sorted(numbers)
unfoldable pub insert_number : ℕ → List ℕ → List ℕ
insert_number n [] = n ∷ []
insert_number n (m ∷ ms) = let rest = insert_number n ms in if leb n m then n ∷ m ∷ ms else m ∷ rest

unfoldable pub sorted : List ℕ → List ℕ
sorted [] = []
sorted (n ∷ ns) = insert_number n (sorted ns)

-- [n for k in keys if (n := parse(k)) is not None and n > after]
unfoldable pub keep_number : ℕ → Option ℕ → List ℕ → List ℕ
keep_number after none ns = ns
keep_number after (some n) ns = if ltb after n then n ∷ ns else ns

unfoldable pub numbers_after : (Text → Option ℕ) → ℕ → List Text → List ℕ
unfolding keep_number
numbers_after parse after [] = []
numbers_after parse after (k ∷ ks) = keep_number after (parse k) (numbers_after parse after ks)

-- [n for k in keys if (n := parse(k)) is not None]
unfoldable pub numbers_of : (Text → Option ℕ) → List Text → List ℕ
numbers_of parse [] = []
numbers_of parse (k ∷ ks) = elim (parse k) [
  | none ↦ numbers_of parse ks
  | some n ↦ n ∷ numbers_of parse ks
]

-- etag is not None
unfoldable pub succeeded : Option Text → Bool
succeeded none = false
succeeded (some etag) = true

-- f"{self.namespace}/{relative}"
unfoldable pub name_key : Text → Text → Text
name_key namespace relative = namespace ++ (b'/' ∷ relative)

-- f"logs/{name}", as log_storage passes it; it does not end in a slash.
unfoldable pub log_namespace : Text → Text
log_namespace name = codes "logs/" ++ name

module _ (b : ListedStorage) (namespace : Text) where
  abbrev Run : Type 0 → Type 0
  Run = Io b.blob.Store

  unfoldable pub put_if_absent : Text → Bytes → b.blob.Store → Bool × b.blob.Store
  put_if_absent key bytes s =
      let (etag, s') = b.blob.put_object key bytes none true s in (succeeded etag, s')

  unfoldable pub get_bytes : Text → b.blob.Store → Option Bytes
  get_bytes key s = Option.map (λ o. o.bytes) (b.blob.get_object key s)

  unfoldable pub put_commit : ℕ → Bytes → b.blob.Store → Bool × b.blob.Store
  put_commit number bytes s = put_if_absent (name_key namespace (commit_key number)) bytes s

  unfoldable pub get_commit : ℕ → b.blob.Store → Option Bytes
  get_commit number s = get_bytes (name_key namespace (commit_key number)) s

  unfoldable pub list_commits : ℕ → b.blob.Store → List ℕ
  list_commits after s =
      sorted (
        numbers_after parse_commit_key after (b.list_objects (name_key namespace (codes "log/")) s))

  -- The loop over the keys, with the deletions so far.
  unfoldable pub delete_keys : (Text → Option ℕ) → ℕ → List Text → ℕ → Run ℕ
  delete_keys parse number [] deleted = pure deleted
  delete_keys parse number (k ∷ ks) deleted = elim (parse k) [
    | none ↦ delete_keys parse number ks deleted
    | some n ↦ elim (ltb n number) [
      | false ↦ delete_keys parse number ks deleted
      | true ↦ do delete_object b.blob k; delete_keys parse number ks (suc deleted)
    ]
  ]

  unfoldable pub delete_commits_before : ℕ → Run ℕ
  delete_commits_before number = do
    keys ← call (λ s. (b.list_objects (name_key namespace (codes "log/")) s, s))
    delete_keys parse_commit_key number keys 0

  unfoldable pub put_snapshot : Text → ℕ → Bytes → b.blob.Store → Bool × b.blob.Store
  put_snapshot schema number bytes s =
      put_if_absent (name_key namespace (snapshot_key schema number)) bytes s

  unfoldable pub list_snapshots : Text → b.blob.Store → List ℕ
  list_snapshots schema s = sorted (
      numbers_of parse_snapshot_key
        (b.list_objects (name_key namespace (snapshot_prefix schema)) s))

  unfoldable pub found_snapshot : Option Bytes → Run Bytes
  found_snapshot none = raise storage_error
  found_snapshot (some bytes) = pure bytes

  unfoldable pub get_snapshot : Text → ℕ → Run Bytes
  get_snapshot schema number = do
    found ← call (λ s. (get_bytes (name_key namespace (snapshot_key schema number)) s, s))
    found_snapshot found

  unfoldable pub delete_snapshots_before : Text → ℕ → Run ℕ
  delete_snapshots_before schema number = do
    keys ← call (λ s. (b.list_objects (name_key namespace (snapshot_prefix schema)) s, s))
    delete_keys parse_snapshot_key number keys 0
