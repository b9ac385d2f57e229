-- ===== src/Core/Decimal/Digits.antt =====
-- What a padded number spells, and its width.
use cairndb.Prelude.{
  ℕ, zero, suc, ◌+◌, ◌-◌, ◌*◌, ◌/◌, ◌%◌, ◌^◌, ◌≤◌, ◌<◌, Text, ◌≡◌, refl, sym, ap, ◌∙◌, true, some,
  [], ◌∷◌, ◌++◌, Bool-cases, inl, inr, length, length-append, All, ◌==◌, arith,
}
use native.Mathlib.Nat.{pow-suc}
use cairndb.Core.Decimal.{digits, zeros, zero_padded, take_digits}

abbrev pub IsDigit : ℕ → Type 0
IsDigit c = (b'0' ≤ c) × (c ≤ b'9')

-- The number that digits spell behind `n`.
abbrev pub spelled : ℕ → Text → ℕ
spelled n [] = n
spelled n (c ∷ t) = spelled (n * 10 + (c - b'0')) t

spelled-append : (n : ℕ) (xs ys : Text) → spelled n (xs ++ ys) ≡ spelled (spelled n xs) ys
spelled-append n [] ys = refl
spelled-append n (x ∷ xs) ys = spelled-append (n * 10 + (x - b'0')) xs ys

All-append : (xs ys : Text) → All IsDigit xs → All IsDigit ys → All IsDigit (xs ++ ys)
All-append [] ys hx hy = hy
All-append (x ∷ xs) ys hx hy = (hx.0, All-append xs ys hx.1 hy)

digits-All : (f n : ℕ) → All IsDigit (digits f n)
unfolding digits
digits-All zero n = tt
digits-All (suc f) n = elim (Bool-cases (n == 0)) [
  | inl e ↦ rw e tt
  | inr e ↦
      rw e (
        All-append (digits f (n / 10)) ((b'0' + n % 10) ∷ []) (digits-All f (n / 10)) (omega arith))
]

spelled-digits : (f n : ℕ) → n ≤ f → spelled 0 (digits f n) ≡ n
unfolding digits
spelled-digits zero n h = omega arith
spelled-digits (suc f) n h =
    ground (
      arith,
      spelled-digits f (n / 10),
      spelled-append 0 (digits f (n / 10)) ((b'0' + n % 10) ∷ []),
    )

length-digits : (f n w : ℕ) → n < 10 ^ w → length (digits f n) ≤ w
unfolding digits
length-digits zero n w h = omega arith
length-digits (suc f) n zero h = rw (none_left n h) (omega arith)
  where
    none_left : (m : ℕ) → m < 10 ^ 0 → (m == 0) ≡ true
    none_left m k = ground arith
length-digits (suc f) n (suc w) h = elim (Bool-cases (n == 0)) [
  | inl e ↦ rw e (omega arith)
  | inr e ↦ rw e (
      omega (
        arith,
        length-append (digits f (n / 10)) ((b'0' + n % 10) ∷ []),
        length-digits f (n / 10) w (omega (arith, pow-suc 10 w)),
      ))
]

zeros-All : (k : ℕ) → All IsDigit (zeros k)
unfolding zeros
zeros-All zero = tt
zeros-All (suc k) = (omega arith, zeros-All k)

spelled-zeros : (k : ℕ) → spelled 0 (zeros k) ≡ 0
unfolding zeros
spelled-zeros zero = refl
spelled-zeros (suc k) = spelled-zeros k

length-zeros : (k : ℕ) → length (zeros k) ≡ k
unfolding zeros
length-zeros zero = refl
length-zeros (suc k) = ap suc (length-zeros k)

module _ (width n : ℕ) where
  pub zero_padded-All : All IsDigit (zero_padded width n)
  unfolding zero_padded
  zero_padded-All =
      All-append (zeros (width - length (digits n n))) (digits n n)
        (zeros-All (width - length (digits n n))) (digits-All n n)

  -- A padded number spells itself, however wide it is.
  pub spelled-zero_padded : spelled 0 (zero_padded width n) ≡ n
  unfolding zero_padded
  spelled-zero_padded =
      spelled-append 0 (zeros (width - length (digits n n))) (digits n n)
      ∙ ap (λ k. spelled k (digits n n)) (spelled-zeros (width - length (digits n n)))
      ∙ spelled-digits n n (omega arith)

  pub length-zero_padded : n < 10 ^ width → length (zero_padded width n) ≡ width
  unfolding zero_padded
  length-zero_padded h = omega (
    arith,
    length-append (zeros (width - length (digits n n))) (digits n n),
    length-zeros (width - length (digits n n)),
    length-digits n n width h,
  )

pub width-le : (width n : ℕ) → width ≤ length (zero_padded width n)
unfolding zero_padded
width-le width n = omega (
  arith,
  length-append (zeros (width - length (digits n n))) (digits n n),
  length-zeros (width - length (digits n n)),
)

-- Reading takes the digits that there are.
pub take_digits-append :
    (xs rest : Text) (n : ℕ)
    → All IsDigit xs
    → take_digits (length xs) n (xs ++ rest) ≡ some (spelled n xs, rest)
unfolding take_digits
take_digits-append [] rest n h = refl
take_digits-append (x ∷ xs) rest n h =
    ground (arith, take_digits-append xs rest (n * 10 + (x - b'0')) h.1)

pub take_digits-zero_padded :
    (width n : ℕ) (rest : Text)
    → n < 10 ^ width
    → take_digits width 0 (zero_padded width n ++ rest) ≡ some (n, rest)
take_digits-zero_padded width n rest h =
    ap (λ w. take_digits w 0 (zero_padded width n ++ rest)) (sym (length-zero_padded width n h))
    ∙ take_digits-append (zero_padded width n) rest 0 (zero_padded-All width n)
    ∙ ap (λ k. some (k, rest)) (spelled-zero_padded width n)

-- Different numbers are written differently.
pub zero_padded_injective : (width n m : ℕ) → zero_padded width n ≡ zero_padded width m → n ≡ m
zero_padded_injective width n m e =
    sym (spelled-zero_padded width n) ∙ ap (spelled 0) e ∙ spelled-zero_padded width m
