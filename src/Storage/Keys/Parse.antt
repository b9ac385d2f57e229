-- ===== src/Storage/Keys/Parse.antt =====
-- The number in a key is found again, so that different numbers have different keys.
use cairndb.Prelude.{
  ℕ, zero, suc, ◌+◌, ◌*◌, ◌-◌, ◌^◌, ◌<◌, ◌≤◌, Text, text_discrete, codes, ◌≡◌, refl, sym, ap, ◌∙◌,
  Option, none, some, [], ◌∷◌, ◌++◌, length, length-append, arith,
}
use mathlib.Core.List.{append_assoc, append_cancel_left, append_cancel_right}
use cairndb.Core.Decimal.{zero_padded, take_digits}
use cairndb.Core.Decimal.Digits.{take_digits-zero_padded, zero_padded_injective, length-zero_padded}
use cairndb.Storage.Keys.{
  commit_width, commit_suffix, snapshot_suffix, commit_key, snapshot_prefix, snapshot_key,
  end_match, first_of, search_key, parse_commit_key, parse_snapshot_key,
}

pub length-take_digits :
    (w n : ℕ) (t : Text) (m : ℕ) (r : Text)
    → take_digits w n t ≡ some (m, r)
    → length t ≡ w + length r
unfolding take_digits
length-take_digits zero n t m r h = ground arith
length-take_digits (suc w) n [] m r h = absurd (ground arith)
length-take_digits (suc w) n (c ∷ t) m r h =
    ground (arith, length-take_digits w (n * 10 + (c - b'0')) t m r)

-- A match leaves the suffix, and a line feed at most.
length-end_match :
    (suffix : Text) (m : ℕ) (r : Text) (n : ℕ)
    → end_match suffix (some (m, r)) ≡ some n
    → length r ≤ length suffix + 1
unfolding end_match
length-end_match suffix m r n h = elim (text_discrete r suffix) [
  | yes e ↦ omega (arith, ap length e)
  | no ne ↦ elim (text_discrete r (suffix ++ (10 ∷ []))) [
    | yes e ↦ omega (arith, ap length e, length-append suffix (10 ∷ []))
    | no ne' ↦ absurd (ground (arith, h))
  ]
]

end_match_self : (suffix : Text) (n : ℕ) → end_match suffix (some (n, suffix)) ≡ some n
unfolding end_match
end_match_self suffix n = ground arith

-- Too much is left for a match.
pub end_match_long :
    (suffix t : Text)
    → commit_width + length suffix + 1 < length t
    → end_match suffix (take_digits commit_width 0 t) ≡ none
end_match_long suffix t h = read (take_digits commit_width 0 t) refl
  where
    matched :
        (m : ℕ) (r : Text)
        → take_digits commit_width 0 t ≡ some (m, r)
        → (x : Option ℕ) → end_match suffix (some (m, r)) ≡ x
        → x ≡ none
    matched m r e none k = refl
    matched m r e (some n) k = absurd (
        omega
          (arith, h, length-take_digits commit_width 0 t m r e, length-end_match suffix m r n k))

    read : (o : Option (ℕ × Text)) → take_digits commit_width 0 t ≡ o → end_match suffix o ≡ none
    read none e = unfold end_match in refl
    read (some (m, r)) e = matched m r e (end_match suffix (some (m, r))) refl

search_key-here :
    (suffix t : Text) (n : ℕ)
    → end_match suffix (take_digits commit_width 0 t) ≡ some n
    → search_key suffix t ≡ some n
unfolding search_key first_of end_match take_digits
search_key-here suffix [] n e = cc
search_key-here suffix (c ∷ t) n e = ap (λ o. first_of o (search_key suffix t)) e

-- A number of at most twelve digits at the start, before the suffix, is the one that is found.
pub search_key-name :
    (suffix : Text) (n : ℕ)
    → n < 10 ^ 12
    → search_key suffix (zero_padded commit_width n ++ suffix) ≡ some n
search_key-name suffix n h = search_key-here suffix (zero_padded commit_width n ++ suffix) n (
    ap (end_match suffix) (take_digits-zero_padded commit_width n suffix h)
    ∙ end_match_self suffix n)

-- A number of at most twelve digits behind a slash is found, too.
pub search_key-slash :
    (suffix p : Text) (n : ℕ)
    → n < 10 ^ 12
    → search_key suffix (p ++ (b'/' ∷ (zero_padded commit_width n ++ suffix))) ≡ some n
unfolding search_key first_of
search_key-slash suffix [] n h =
    ap (λ o. first_of o (search_key suffix (zero_padded commit_width n ++ suffix)))
      (no_digit (zero_padded commit_width n ++ suffix))
    ∙ search_key-name suffix n h
  where
    no_digit : (t : Text) → end_match suffix (take_digits commit_width 0 (b'/' ∷ t)) ≡ none
    no_digit t = unfold take_digits end_match in refl
search_key-slash suffix (c ∷ p) n h =
    ap (λ o. first_of o (search_key suffix (p ++ (b'/' ∷ (zero_padded commit_width n ++ suffix)))))
      (end_match_long suffix (c ∷ (p ++ (b'/' ∷ (zero_padded commit_width n ++ suffix)))) (
        omega (
          arith,
          length-append p (b'/' ∷ (zero_padded commit_width n ++ suffix)),
          length-append (zero_padded commit_width n) suffix,
          length-zero_padded commit_width n h,
        )))
    ∙ search_key-slash suffix p n h

snapshot_key_eq :
    (schema t : Text)
    → (codes "snapshots/v" ++ (schema ++ codes "/")) ++ t
      ≡ (codes "snapshots/v" ++ schema) ++ (b'/' ∷ t)
snapshot_key_eq schema t =
    append_assoc (codes "snapshots/v") (schema ++ codes "/") t
    ∙ ap (λ u. codes "snapshots/v" ++ u) (append_assoc schema (codes "/") t)
    ∙ sym (append_assoc (codes "snapshots/v") schema (b'/' ∷ t))

-- The number of a commit's key and of a snapshot's key is found again, if it has at most twelve
-- digits.
pub parse-key :
    (schema : Text) (number : ℕ)
    → number < 10 ^ 12
    → (parse_commit_key (commit_key number) ≡ some number)
      × (parse_snapshot_key (snapshot_key schema number) ≡ some number)
unfolding parse_commit_key commit_key parse_snapshot_key snapshot_key snapshot_prefix
parse-key schema number h = (
  search_key-slash commit_suffix (codes "log") number h,
  ap (search_key snapshot_suffix)
        (snapshot_key_eq schema (zero_padded commit_width number ++ snapshot_suffix))
      ∙ search_key-slash snapshot_suffix (codes "snapshots/v" ++ schema) number h,
)

-- Different numbers have different keys, of any width.
pub commit_key_injective : (n m : ℕ) → commit_key n ≡ commit_key m → n ≡ m
unfolding commit_key
commit_key_injective n m e = zero_padded_injective commit_width n m (
    append_cancel_right (zero_padded commit_width n) (zero_padded commit_width m) commit_suffix (
      append_cancel_left (codes "log/") (zero_padded commit_width n ++ commit_suffix)
        (zero_padded commit_width m ++ commit_suffix) e))
