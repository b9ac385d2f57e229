-- ===== src/Storage/Keys.antt =====
-- src/cairndb/storage/base.py: the keys of commits and snapshots. A key is one of ASCII characters, as
-- every key is that the program writes.
pub mod Parse
use cairndb.Prelude.{
  ℕ, Text, text_discrete, ite, codes, ◌≡◌, refl, Option, none, some, [], ◌∷◌, ◌++◌,
}
use cairndb.Core.Decimal.{zero_padded, take_digits}

abbrev pub commit_width : ℕ
commit_width = 12

abbrev pub commit_suffix : Text
commit_suffix = codes ".msgpack"

abbrev pub snapshot_suffix : Text
snapshot_suffix = codes ".sqlite"

unfoldable pub commit_key : ℕ → Text
commit_key number = codes "log/" ++ (zero_padded commit_width number ++ commit_suffix)

unfoldable pub snapshot_prefix : Text → Text
snapshot_prefix schema = codes "snapshots/v" ++ (schema ++ codes "/")

unfoldable pub snapshot_key : Text → ℕ → Text
unfolding snapshot_prefix
snapshot_key schema number =
    snapshot_prefix schema ++ (zero_padded commit_width number ++ snapshot_suffix)

-- The end of a match: the suffix, and what `$` allows after it.
unfoldable pub end_match : Text → Option (ℕ × Text) → Option ℕ
end_match suffix none = none
end_match suffix (some (n, t)) =
    ite (text_discrete t suffix) (some n)
      (ite (text_discrete t (suffix ++ (10 ∷ []))) (some n) none)

unfoldable pub first_of : Option ℕ → Option ℕ → Option ℕ
first_of (some n) later = some n
first_of none later = later

-- re.search: the first position from which the pattern matches.
unfoldable pub search_key : Text → Text → Option ℕ
search_key suffix [] = none
search_key suffix (c ∷ t) =
    first_of (end_match suffix (take_digits commit_width 0 (c ∷ t))) (search_key suffix t)

unfoldable pub parse_commit_key : Text → Option ℕ
parse_commit_key key = search_key commit_suffix key

unfoldable pub parse_snapshot_key : Text → Option ℕ
parse_snapshot_key key = search_key snapshot_suffix key
