-- ===== src/Core/Results.antt =====
-- Exceptions as values, in code that does not touch the store.
use cairndb.Prelude.{◌≡◌}
use cairndb.Storage.Effects.{Result, ok, raised}

infixl 5 ◌>>=◌ ◌>>◌
abbrev pub ◌>>=◌ {ℓ κ} : {A : Type ℓ} {B : Type κ} → Result A → (A → Result B) → Result B
ok a >>= f = f a
raised e >>= f = raised e

abbrev pub ◌>>◌ {ℓ} : {A B : Type ℓ} → Result A → Result B → Result B
m >> k = m >>= λ _. k

pub ok-injective : {A : Type 0} {x v : A} → ok x ≡ ok v → x ≡ v
ok-injective e = cc
