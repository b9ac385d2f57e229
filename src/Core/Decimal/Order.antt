-- ===== src/Core/Decimal/Order.antt =====
-- Numbers that are padded to one width sort as texts in the order of the numbers.
use cairndb.Prelude.{
  ℕ, ◌+◌, ◌-◌, ◌*◌, ◌^◌, ◌<◌, Text, ◌≡◌, refl, sym, ap, ◌∙◌, Bool, true, false, Bool-cases, ◌⊎◌,
  inl, inr, [], ◌∷◌, ◌++◌, length, All, ltb, ◌==◌, if◌then◌else◌, arith,
}
use cairndb.Core.Decimal.{zero_padded}
use cairndb.Core.Decimal.Digits.{
  IsDigit, spelled, zero_padded-All, spelled-zero_padded, length-zero_padded,
}

-- s < t, on texts.
unfoldable pub text_ltb : Text → Text → Bool
text_ltb s [] = false
text_ltb [] (d ∷ t) = true
text_ltb (c ∷ s) (d ∷ t) = let rest = text_ltb s t in if c == d then rest else ltb c d

-- Digits do not make up for a smaller number before them.
spelled_lt :
    (xs ys : Text) (n m : ℕ)
    → All IsDigit xs
    → length xs ≡ length ys
    → n < m
    → spelled n xs < spelled m ys
spelled_lt [] [] n m hx e h = h
spelled_lt [] (y ∷ ys) n m hx e h = absurd (omega arith)
spelled_lt (x ∷ xs) [] n m hx e h = absurd (omega arith)
spelled_lt (x ∷ xs) (y ∷ ys) n m hx e h =
    spelled_lt xs ys (n * 10 + (x - b'0')) (m * 10 + (y - b'0')) hx.1 (omega arith) (omega arith)

-- What two numbers compare to, when they are known to differ.
below : (a b : ℕ) (t : Bool) → a < b → (if a == b then t else ltb a b) ≡ true
below a b t h = ground arith

above : (a b : ℕ) (t : Bool) → b < a → (if a == b then t else ltb a b) ≡ false
above a b t h = ground arith

-- Before equal rests, the two texts compare as the numbers they spell.
pub text_ltb-spelled :
    (xs ys us vs : Text) (n : ℕ)
    → All IsDigit xs
    → All IsDigit ys
    → length xs ≡ length ys
    → text_ltb (xs ++ us) (ys ++ vs)
      ≡ (if spelled n xs == spelled n ys then text_ltb us vs else ltb (spelled n xs) (spelled n ys))
unfolding text_ltb
text_ltb-spelled [] [] us vs n hx hy e = ground arith
text_ltb-spelled [] (y ∷ ys) us vs n hx hy e = absurd (omega arith)
text_ltb-spelled (x ∷ xs) [] us vs n hx hy e = absurd (omega arith)
text_ltb-spelled (x ∷ xs) (y ∷ ys) us vs n hx hy e = elim (Nat_cases x y) [
  | inl (inl less) ↦
      below x y (text_ltb (xs ++ us) (ys ++ vs)) less
      ∙ sym (
          below (spelled nx xs) (spelled ny ys) (text_ltb us vs)
            (spelled_lt xs ys nx ny hx.1 (omega arith) (omega arith)))
  | inl (inr more) ↦
      above x y (text_ltb (xs ++ us) (ys ++ vs)) more
      ∙ sym (
          above (spelled nx xs) (spelled ny ys) (text_ltb us vs)
            (spelled_lt ys xs ny nx hy.1 (omega arith) (omega arith)))
  | inr same ↦
      ground (arith, text_ltb-spelled xs ys us vs nx hx.1 hy.1, ap (λ k. n * 10 + (k - b'0')) same)
]
  where
    nx : ℕ
    nx = n * 10 + (x - b'0')

    ny : ℕ
    ny = n * 10 + (y - b'0')

    Nat_cases : (a b : ℕ) → ((a < b) ⊎ (b < a)) ⊎ (a ≡ b)
    Nat_cases a b = elim (Bool-cases (a == b)) [
      | inl e ↦ inr (ground (arith, e))
      | inr e ↦ elim (Bool-cases (ltb a b)) [
        | inl l ↦ inl (inl (ground (arith, l)))
        | inr l ↦ inl (inr (ground (arith, l, e)))
      ]
    ]

-- Two numbers of at most `width` digits, padded and followed by other text: the texts compare as the
-- numbers do, and by what follows if these are equal.
pub text_ltb-zero_padded :
    (width n m : ℕ) (us vs : Text)
    → n < 10 ^ width
    → m < 10 ^ width
    → text_ltb (zero_padded width n ++ us) (zero_padded width m ++ vs)
      ≡ (if n == m then text_ltb us vs else ltb n m)
text_ltb-zero_padded width n m us vs hn hm =
    text_ltb-spelled (zero_padded width n) (zero_padded width m) us vs 0 (zero_padded-All width n)
      (zero_padded-All width m)
      (length-zero_padded width n hn ∙ sym (length-zero_padded width m hm))
    ∙ rw (spelled-zero_padded width n, spelled-zero_padded width m) refl
