-- ===== src/Storage/Filesystem/Commits/Pruned.antt =====
-- Which commits a deletion leaves in a directory.
use cairndb.Prelude.{
  ℕ, ◌<◌, ◌^◌, Text, Bytes, text_discrete, ite, ◌≡◌, refl, sym, ap, ◌∙◌, inl, inr, Bool, true,
  false, Bool-cases, Option, Option-cases, none, some, List, [], ◌∷◌, ◌++◌, All, ltb, if◌then◌else◌,
  arith,
}
use mathlib.Core.List.{append_cancel_left}
use cairndb.Core.Decimal.{zero_padded}
use cairndb.Core.Decimal.Digits.{IsDigit, zero_padded-All}
use cairndb.Storage.Files.{Files, read_file, read_file-unlink}
use cairndb.Storage.Keys.{commit_width, commit_suffix, commit_key, parse_commit_key}
use cairndb.Storage.Keys.Parse.{search_key-name}
use cairndb.Storage.Listed.{Among}
use cairndb.Storage.Filesystem.Commits.{
  has_slash, entry_name, add_entry, iterdir, log_dir, get_commit, is_old, drop_entry,
  delete_entries, delete_commits_before,
}

-- The name of a commit's file.
abbrev pub file_name : ℕ → Text
file_name m = zero_padded commit_width m ++ commit_suffix

key_of_file : (m : ℕ) → commit_key m ≡ log_dir ++ file_name m
unfolding commit_key
key_of_file m = refl

suffix_no_slash : has_slash commit_suffix ≡ false
unfolding has_slash
suffix_no_slash = refl

has_slash-digits : (t : Text) → All IsDigit t → has_slash (t ++ commit_suffix) ≡ false
unfolding has_slash
has_slash-digits [] h = suffix_no_slash
has_slash-digits (c ∷ t) h = ground (arith, h.0, has_slash-digits t h.1)

entry_name-commit_key : (m : ℕ) → entry_name log_dir (commit_key m) ≡ some (file_name m)
unfolding entry_name commit_key
entry_name-commit_key m =
    rw (has_slash-digits (zero_padded commit_width m) (zero_padded-All commit_width m)) refl

-- A file that is there is an entry of its directory.
iterdir-Among :
    (m : ℕ) (x : Bytes) (fs : Files)
    → get_commit m fs ≡ some x
    → Among (file_name m) (iterdir log_dir fs)
unfolding iterdir get_commit read_file
iterdir-Among m x [] h = absurd (ground arith)
iterdir-Among m x ((path, y) ∷ fs) h = elim (text_discrete path (commit_key m)) [
  | yes e ↦ rw (ap (entry_name log_dir) e ∙ entry_name-commit_key m) (unfold add_entry in inl refl)
  | no ne ↦ later (entry_name log_dir path) (iterdir-Among m x fs (ground (arith, h, ne)))
]
  where
    later :
        (o : Option Text)
        → Among (file_name m) (iterdir log_dir fs)
        → Among (file_name m) (add_entry o (iterdir log_dir fs))
    later none a = unfold add_entry in a
    later (some name) a = unfold add_entry in inr a

module _ (number m : ℕ) (read_back : parse_commit_key (file_name m) ≡ some m) where
  -- Only an entry with this name is the file of the commit.
  is_old-number :
      (name : Text)
      → log_dir ++ name ≡ commit_key m
      → is_old (parse_commit_key name) number ≡ ltb m number
  unfolding is_old
  is_old-number name e =
      ap (λ t. is_old (parse_commit_key t) number)
        (append_cancel_left log_dir name (file_name m) (e ∙ key_of_file m))
      ∙ rw read_back refl

  -- A step keeps the commit, or removes it if it is old.
  dropped :
      (name : Text) (r : ℕ × Files) (x : Bool)
      → is_old (parse_commit_key name) number ≡ x
      → ltb m number ≡ false
      → get_commit m (drop_entry x (log_dir ++ name) r).1 ≡ get_commit m r.1
  unfolding drop_entry get_commit
  dropped name r false e h = refl
  dropped name r true e h =
      read_file-unlink (log_dir ++ name) (commit_key m) r.1
      ∙ elim (text_discrete (log_dir ++ name) (commit_key m))
          as (λ d. ite d none (read_file (commit_key m) r.1) ≡ read_file (commit_key m) r.1) [
            | yes k ↦ absurd (ground (arith, is_old-number name k, e, h))
            | no k ↦ refl
          ]

  kept :
      (names : List Text) (r : ℕ × Files)
      → ltb m number ≡ false
      → get_commit m (delete_entries parse_commit_key log_dir number names r).1 ≡ get_commit m r.1
  unfolding delete_entries
  kept [] r h = refl
  kept (name ∷ names) r h =
      kept names (drop_entry (is_old (parse_commit_key name) number) (log_dir ++ name) r) h
      ∙ dropped name r (is_old (parse_commit_key name) number) refl h

  -- What is gone stays away.
  gone :
      (name : Text) (r : ℕ × Files) (x : Bool)
      → get_commit m r.1 ≡ none
      → get_commit m (drop_entry x (log_dir ++ name) r).1 ≡ none
  unfolding drop_entry get_commit
  gone name r false h = h
  gone name r true h = ground (arith, h, read_file-unlink (log_dir ++ name) (commit_key m) r.1)

  stays_gone :
      (names : List Text) (r : ℕ × Files)
      → get_commit m r.1 ≡ none
      → get_commit m (delete_entries parse_commit_key log_dir number names r).1 ≡ none
  unfolding delete_entries
  stays_gone [] r h = h
  stays_gone (name ∷ names) r h =
      stays_gone names (drop_entry (is_old (parse_commit_key name) number) (log_dir ++ name) r)
        (gone name r (is_old (parse_commit_key name) number) h)

  removed :
      (r : ℕ × Files)
      → ltb m number ≡ true
      → get_commit m
          (drop_entry (is_old (parse_commit_key (file_name m)) number) (log_dir ++ file_name m) r).1
        ≡ none
  unfolding drop_entry get_commit is_old
  removed r h =
      rw (read_back, h)
        (read_file-unlink (log_dir ++ file_name m) (commit_key m) r.1
          ∙ elim (text_discrete (log_dir ++ file_name m) (commit_key m))
              as (λ d. ite d none (read_file (commit_key m) r.1) ≡ none) [
                | yes k ↦ refl
                | no k ↦ absurd (k (sym (key_of_file m)))
              ])

  deleted :
      (names : List Text) (r : ℕ × Files)
      → ltb m number ≡ true
      → Among (file_name m) names
      → get_commit m (delete_entries parse_commit_key log_dir number names r).1 ≡ none
  unfolding delete_entries
  deleted [] r h a = elim a [ ]
  deleted (name ∷ names) r h (inl e) =
      stays_gone names (drop_entry (is_old (parse_commit_key name) number) (log_dir ++ name) r) (
        ap (λ t. get_commit m (drop_entry (is_old (parse_commit_key t) number) (log_dir ++ t) r).1)
          e
        ∙ removed r h)
  deleted (name ∷ names) r h (inr a) =
      deleted names (drop_entry (is_old (parse_commit_key name) number) (log_dir ++ name) r) h a

-- A deletion before a number removes each commit with a smaller number and leaves each other one, for
-- commits whose number has at most twelve digits.
pub delete_commits_before-Prunes :
    (number m : ℕ) (fs : Files)
    → m < 10 ^ 12
    → get_commit m (delete_commits_before number fs).1
      ≡ (if ltb m number then none else get_commit m fs)
unfolding delete_commits_before
delete_commits_before-Prunes number m fs small = elim (Bool-cases (ltb m number)) [
  | inr h ↦ kept number m read_back (iterdir log_dir fs) (0, fs) h ∙ rw h refl
  | inl h ↦ elim (Option-cases (get_commit m fs)) [
    | inl e ↦ stays_gone number m read_back (iterdir log_dir fs) (0, fs) e ∙ rw h refl
    | inr (x, e) ↦
        deleted number m read_back (iterdir log_dir fs) (0, fs) h (iterdir-Among m x fs e)
        ∙ rw h refl
  ]
]
  where
    read_back : parse_commit_key (file_name m) ≡ some m
    read_back = unfold parse_commit_key in search_key-name commit_suffix m small
