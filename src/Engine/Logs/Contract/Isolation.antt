-- ===== src/Engine/Logs/Contract/Isolation.antt =====
-- The logs of different names, and the application's objects, are kept apart.
use cairndb.Prelude.{
  ℕ, Text, Bytes, codes, ◌≡◌, ◌≢◌, refl, sym, ap, ◌∙◌, inl, inr, true, false, none, some,
  Option-cases, [], ◌∷◌, ◌++◌, All, ◌==◌, if◌then◌else◌, Bool-cases, arith,
}
use mathlib.Core.Option
use mathlib.Core.List.{append_cancel_left, head-eq_of_cons-eq, tail-eq_of_cons-eq}
use native.Mathlib.Decide.{ℕ_discrete}
use cairndb.Storage.Effects.{ok}
use cairndb.Storage.Keys.{commit_key}
use cairndb.Storage.Listed.{ListedStorage}
use cairndb.Core.Sequence.{at_end}
use cairndb.Engine.Keys.{starts_with, check_key, check_prefixes}
use cairndb.Engine.Logs.{
  is_name_char, is_name_rest, is_log_name, check_log_name, log_namespace, name_key, put_if_absent,
  get_bytes, put_commit, get_commit,
}
use cairndb.Engine.Logs.Contract.{
  OnlyCommits, put_commit_new, put_commit_taken, put_commit_other, put_commit-OnlyCommits,
}

abbrev NoSlash : Text → Type 0
NoSlash = All (λ c. c ≢ b'/')

name_char_no_slash : (c : ℕ) → is_name_char c ≡ true → c ≢ b'/'
unfolding is_name_char
name_char_no_slash c h e = ground (arith, h, e)

name_rest-NoSlash : (t : Text) → is_name_rest t ≡ true → NoSlash t
unfolding is_name_rest at_end
name_rest-NoSlash [] h = tt
name_rest-NoSlash (c ∷ []) h = elim (Bool-cases (is_name_char c)) [
  | inl e ↦ (name_char_no_slash c e, tt)
  | inr e ↦ ((λ k. ground (arith, h, e, k)), tt)
]
name_rest-NoSlash (c ∷ d ∷ t) h = elim (Bool-cases (is_name_char c)) [
  | inl e ↦ (name_char_no_slash c e, name_rest-NoSlash (d ∷ t) (ground (arith, h, e)))
  | inr e ↦ absurd (ground (arith, h, e))
]

log_name-NoSlash : (name : Text) → check_log_name name ≡ ok tt → NoSlash name
unfolding check_log_name is_log_name
log_name-NoSlash [] h = tt
log_name-NoSlash (c ∷ t) h =
    (name_char_no_slash c (ground (arith, h)), name_rest-NoSlash t (ground (arith, h)))

-- What stands before the first slash is the same.
before_slash : (a b x y : Text) → NoSlash a → NoSlash b → a ++ (b'/' ∷ x) ≡ b ++ (b'/' ∷ y) → a ≡ b
before_slash [] [] x y ha hb e = refl
before_slash [] (d ∷ b) x y ha hb e = absurd (hb.0 (sym (head-eq_of_cons-eq e)))
before_slash (c ∷ a) [] x y ha hb e = absurd (ha.0 (head-eq_of_cons-eq e))
before_slash (c ∷ a) (d ∷ b) x y ha hb e =
    let rest = before_slash a b x y ha.1 hb.1 (tail-eq_of_cons-eq e) in
    ap (λ h. h ∷ a) (head-eq_of_cons-eq e) ∙ ap (λ t. d ∷ t) rest

pub name_key-log : (a x : Text) → name_key (log_namespace a) x ≡ codes "logs/" ++ (a ++ (b'/' ∷ x))
unfolding name_key log_namespace
name_key-log a x = refl

pub log_key-refused : (t : Text) → check_key (codes "logs/" ++ t) ≢ ok tt
unfolding check_key check_prefixes starts_with
log_key-refused t e = cc

-- A commit to the log of one name leaves each commit of a log of another name, and each object whose
-- key an application may use, as it was.
pub put_commit_isolated :
    (b : ListedStorage) (name other : Text) (n m : ℕ) (key : Text) (bytes : Bytes)
    (s : b.blob.Store)
    → check_log_name name ≡ ok tt
    → check_log_name other ≡ ok tt
    → name ≢ other
    → check_key key ≡ ok tt
    → (get_commit b (log_namespace other) m (put_commit b (log_namespace name) n bytes s).1
        ≡ get_commit b (log_namespace other) m s)
      × (b.blob.get_object key (put_commit b (log_namespace name) n bytes s).1
          ≡ b.blob.get_object key s)
unfolding put_commit get_commit put_if_absent get_bytes
put_commit_isolated b name other n m key bytes s h h' ne k = (
  ap (Option.map (λ o. o.bytes)) (
      b.blob.put_other (name_key (log_namespace name) (commit_key n))
        (name_key (log_namespace other) (commit_key m)) bytes none true s apart),
  b.blob.put_other (name_key (log_namespace name) (commit_key n)) key bytes none true s (λ e.
      log_key-refused (name ++ (b'/' ∷ commit_key n))
        (ap check_key (sym (name_key-log name (commit_key n)) ∙ e) ∙ k)),
)
  where
    apart :
        name_key (log_namespace name) (commit_key n) ≢ name_key (log_namespace other) (commit_key m)
    apart e = ne (
        before_slash name other (commit_key n) (commit_key m) (log_name-NoSlash name h)
          (log_name-NoSlash other h')
          (append_cancel_left (codes "logs/") (name ++ (b'/' ∷ commit_key n))
            (other ++ (b'/' ∷ commit_key m))
            (sym (name_key-log name (commit_key n)) ∙ e ∙ name_key-log other (commit_key m))))

-- The commit log that a named log shows: a partial map from numbers to commits. A put is true if there
-- was no commit of the number, and then adds it; otherwise it changes nothing. Either way the log's
-- prefix still holds nothing but commits.
pub put_commit-Refines :
    (b : ListedStorage) (namespace : Text) (n m : ℕ) (bytes : Bytes) (s : b.blob.Store)
    → OnlyCommits b namespace s
    → let r = put_commit b namespace n bytes s in
      (r.0 ≡ (elim (get_commit b namespace n s) [ none ↦ true | some x ↦ false ]))
      × (get_commit b namespace m r.1 ≡ (
          if n == m
          then some (Option.get_or (get_commit b namespace n s) bytes)
          else get_commit b namespace m s))
      × OnlyCommits b namespace r.1
put_commit-Refines b namespace n m bytes s h = elim (Option-cases (get_commit b namespace n s)) [
  | inl free ↦ (
    rw free (put_commit_new b namespace n bytes s free).0,
    elim (ℕ_discrete n m) [
      | yes e ↦
          ap (λ k. get_commit b namespace k (put_commit b namespace n bytes s).1) (sym e)
          ∙ (put_commit_new b namespace n bytes s free).1
          ∙ rw free (ground (arith, e))
      | no ne ↦ put_commit_other b namespace n m bytes s ne ∙ ground (arith, ne)
    ],
    put_commit-OnlyCommits b namespace n bytes s h,
  )
  | inr (x, taken) ↦ (
    rw taken (ap (λ r. r.0) (put_commit_taken b namespace n bytes x s taken)),
    ap (λ r. get_commit b namespace m r.1) (put_commit_taken b namespace n bytes x s taken)
        ∙ elim (ℕ_discrete n m) [
          | yes e ↦
              ap (λ k. get_commit b namespace k s) (sym e) ∙ taken ∙ rw taken (ground (arith, e))
          | no ne ↦ ground (arith, ne)
        ],
    put_commit-OnlyCommits b namespace n bytes s h,
  )
]
