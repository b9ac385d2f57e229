-- ===== src/Core/Decimal.antt =====
-- The numbers in keys and sequence strings: f"{n:0{width}d}" and the \d{width} of a pattern, on ASCII.
pub mod Digits
pub mod Order
use cairndb.Prelude.{
  ℕ, zero, suc, ◌+◌, ◌-◌, ◌*◌, ◌/◌, ◌%◌, Text, codes, ◌≡◌, refl, Bool, ◌&&◌, Option, none, some, [],
  ◌∷◌, ◌++◌, length, leb, ◌==◌, if◌then◌else◌,
}

-- The decimal digits of a number, none for zero, on fuel of at least the number.
unfoldable pub digits : ℕ → ℕ → Text
digits zero n = []
digits (suc f) n =
    let rest = digits f (n / 10) in if n == 0 then [] else rest ++ ((b'0' + n % 10) ∷ [])

unfoldable pub zeros : ℕ → Text
zeros zero = []
zeros (suc n) = b'0' ∷ zeros n

unfoldable pub zero_padded : ℕ → ℕ → Text
zero_padded width n = zeros (width - length (digits n n)) ++ digits n n

unfoldable pub is_digit : ℕ → Bool
is_digit c = leb b'0' c && leb c b'9'

-- As many digits as that, read as a number behind `n`, and the rest of the text.
unfoldable pub take_digits : ℕ → ℕ → Text → Option (ℕ × Text)
unfolding is_digit
take_digits zero n t = some (n, t)
take_digits (suc w) n [] = none
take_digits (suc w) n (c ∷ t) =
    let rest = take_digits w (n * 10 + (c - b'0')) t in if is_digit c then rest else none

zero_padded_run :
    (zero_padded 12 42 ≡ codes "000000000042")
    × (zero_padded 2 4096 ≡ codes "4096")
    × (take_digits 3 0 (codes "007.x") ≡ some (7, codes ".x"))
unfolding zero_padded digits zeros take_digits
zero_padded_run = (refl, refl, refl)
