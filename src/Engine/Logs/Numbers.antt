-- ===== src/Engine/Logs/Numbers.antt =====
-- The number that is read from the key of a commit is the commit's, or a smaller one if the key is
-- wider than the pattern.
use cairndb.Prelude.{
  ℕ, zero, suc, ◌+◌, ◌*◌, ◌-◌, ◌≤◌, Text, codes, ◌≡◌, refl, sym, ap, subst, ◌∙◌, ◌⊎◌, inl, inr,
  Option, none, some, [], ◌∷◌, ◌++◌, length, length-append, arith,
}
use mathlib.Core.List.{append_assoc}
use native.Mathlib.Nat.{le_trans}
use cairndb.Core.Decimal.{zero_padded, take_digits}
use cairndb.Core.Decimal.Digits.{spelled, spelled-zero_padded, width-le}
use cairndb.Storage.Keys.{
  commit_width, commit_suffix, commit_key, end_match, first_of, search_key, parse_commit_key,
}
use cairndb.Storage.Keys.Parse.{end_match_long}

spelled_mono : (xs : Text) (n m : ℕ) → n ≤ m → spelled n xs ≤ spelled m xs
spelled_mono [] n m h = h
spelled_mono (x ∷ xs) n m h =
    spelled_mono xs (n * 10 + (x - b'0')) (m * 10 + (x - b'0')) (omega arith)

le-spelled : (xs : Text) (n : ℕ) → n ≤ spelled n xs
le-spelled [] n = omega arith
le-spelled (x ∷ xs) n = omega (arith, le-spelled xs (n * 10 + (x - b'0')))

take_digits-le :
    (w n : ℕ) (ds : Text) (m : ℕ) (r : Text)
    → take_digits w n (ds ++ commit_suffix) ≡ some (m, r)
    → m ≤ spelled n ds
unfolding take_digits
take_digits-le zero n ds m r h = ground (arith, le-spelled ds n)
take_digits-le (suc w) n [] m r h = absurd (ground arith)
take_digits-le (suc w) n (d ∷ ds) m r h =
    ground (arith, take_digits-le w (n * 10 + (d - b'0')) ds m r)

end_match-le :
    (o : Option (ℕ × Text)) (m : ℕ)
    → end_match commit_suffix o ≡ some m
    → (r : Text) × (o ≡ some (m, r))
unfolding end_match
end_match-le none m h = absurd (ground arith)
end_match-le (some (n, r)) m h = (r, ground arith)

first_of-cases :
    (o later : Option ℕ) (m : ℕ) → first_of o later ≡ some m → (o ≡ some m) ⊎ (later ≡ some m)
unfolding first_of
first_of-cases none later m h = inr h
first_of-cases (some n) later m h = inl h

nothing : (m : ℕ) → search_key commit_suffix commit_suffix ≡ some m → ⊥
unfolding search_key first_of end_match take_digits
nothing m h = cc

no_digit : (t : Text) → end_match commit_suffix (take_digits commit_width 0 (b'/' ∷ t)) ≡ none
unfolding end_match take_digits
no_digit t = refl

first_of-none : (o later : Option ℕ) → o ≡ none → first_of o later ≡ later
unfolding first_of
first_of-none o later e = rw e refl

-- The search over digits and the suffix.
search_key-le :
    (ds : Text) (n m : ℕ)
    → search_key commit_suffix (ds ++ commit_suffix) ≡ some m
    → m ≤ spelled n ds
unfolding search_key
search_key-le [] n m h = absurd (nothing m h)
search_key-le (d ∷ ds) n m h =
    elim (first_of-cases
      (end_match commit_suffix (take_digits commit_width 0 (d ∷ (ds ++ commit_suffix))))
      (search_key commit_suffix (ds ++ commit_suffix)) m h) [
        | inl e ↦
            (let (r, t) = end_match-le _ m e in
              le_trans (take_digits-le commit_width 0 (d ∷ ds) m r t)
                (spelled_mono (d ∷ ds) 0 n (omega arith)))
        | inr e ↦ search_key-le ds (n * 10 + (d - b'0')) m e
      ]

-- Over a prefix that ends in a slash.
search_key-prefix :
    (p ds : Text) (m : ℕ)
    → commit_width ≤ length ds
    → search_key commit_suffix (p ++ (b'/' ∷ (ds ++ commit_suffix))) ≡ some m
    → m ≤ spelled 0 ds
unfolding search_key
search_key-prefix [] ds m w h = search_key-le ds 0 m (
    sym (
      first_of-none _ (search_key commit_suffix (ds ++ commit_suffix))
        (no_digit (ds ++ commit_suffix)))
    ∙ h)
search_key-prefix (c ∷ p) ds m w h = search_key-prefix p ds m w (
    sym (
      first_of-none _ (search_key commit_suffix (p ++ (b'/' ∷ (ds ++ commit_suffix)))) (
        end_match_long commit_suffix (c ∷ (p ++ (b'/' ∷ (ds ++ commit_suffix)))) (
          omega (
            arith,
            length-append p (b'/' ∷ (ds ++ commit_suffix)),
            length-append ds commit_suffix,
          ))))
    ∙ h)

-- What is read from a commit's key, below any prefix, is at most its number.
pub parse_commit_key-le :
    (p : Text) (n m : ℕ) → parse_commit_key (p ++ (b'/' ∷ commit_key n)) ≡ some m → m ≤ n
unfolding parse_commit_key commit_key
parse_commit_key-le p n m h =
    subst (λ k. m ≤ k) (spelled-zero_padded commit_width n)
      (search_key-prefix (p ++ codes "/log") (zero_padded commit_width n) m
        (width-le commit_width n)
        (ap (search_key commit_suffix)
            (append_assoc p (codes "/log") (b'/' ∷ (zero_padded commit_width n ++ commit_suffix)))
          ∙ h))
