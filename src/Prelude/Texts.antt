-- ===== src/Prelude/Texts.antt =====
-- Texts and byte strings as lists of code points, with a decidable equality.
use Prim.Native.Nat.{ℕ}
use Prim.Native.Char.{code}
use Prim.Native.String.{String}
use mathlib.Core.List.{List, [], ◌∷◌}
use mathlib.Core.Path.{◌≡◌, refl, sym, ap₂}
use mathlib.Core.Logic.{◌≢◌}
use native.Mathlib.Decide.{ℕ_discrete}

abbrev pub Text : Type 0
Text = List ℕ

abbrev pub Bytes : Type 0
Bytes = List ℕ

abbrev pub codes : String → Text
codes String.[] = []
codes (String.◌∷◌ c s) = code c ∷ codes s

pub nil-ne-cons : {y : ℕ} {ys : Text} → ◌≢◌ {A = Text} [] (y ∷ ys)
nil-ne-cons e = cc

pub head-eq : {x y : ℕ} {xs ys : Text} → x ∷ xs ≡ y ∷ ys → x ≡ y
head-eq e = cc

pub tail-eq : {x y : ℕ} {xs ys : Text} → x ∷ xs ≡ y ∷ ys → xs ≡ ys
tail-eq e = cc

join : (x y : ℕ) (xs ys : Text) → Dec (x ≡ y) → Dec (xs ≡ ys) → Dec (x ∷ xs ≡ y ∷ ys)
join x y xs ys (yes p) (yes q) = yes (ap₂ ◌∷◌ p q)
join x y xs ys (yes p) (no q) = no (λ e. q (tail-eq e))
join x y xs ys (no p) _ = no (λ e. p (head-eq e))

unfoldable pub text_discrete : Discrete Text
unfolding ℕ_discrete join
text_discrete [] [] = yes refl
text_discrete [] (y ∷ ys) = no nil-ne-cons
text_discrete (x ∷ xs) [] = no (λ e. nil-ne-cons (sym e))
text_discrete (x ∷ xs) (y ∷ ys) = join x y xs ys (ℕ_discrete x y) (text_discrete xs ys)
