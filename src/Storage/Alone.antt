-- ===== src/Storage/Alone.antt =====
-- Runs with nobody else about: no turns are left, so every call is answered.
use cairndb.Prelude.{ℕ, ◌≡◌, refl, []}
use cairndb.Storage.Effects.{
  Result, ok, raised, Error, World, Io, call, lift, now, pure, attempt, ◌>>=◌,
}

abbrev pub alone : {S : Type 0} → S → ℕ → World S
alone s t = record { store = s; clock = t; turns = [] }

module _ {S A B : Type 0} where
  pub run-lift :
      (r : Result A) (k : A → Io S B) (w : World S) {a : A} → r ≡ ok a → (lift r >>= k) w ≡ k a w
  unfolding ◌>>=◌ lift
  run-lift r k w e = rw e

  pub run-raised :
      (r : Result A) (k : A → Io S B) (w : World S) {e : Error}
      → r ≡ raised e
      → (lift r >>= k) w ≡ (raised e, w)
  unfolding ◌>>=◌ lift
  run-raised r k w e = rw e

  pub run-call :
      (f : S → A × S) (k : A → Io S B) (s : S) (t : ℕ)
      → (call f >>= k) (alone s t) ≡ k (f s).0 (alone (f s).1 t)
  unfolding ◌>>=◌ call
  run-call f k s t = refl

  pub run-attempt :
      (f : S → A × S) (k : Result A → Io S B) (s : S) (t : ℕ)
      → (attempt (call f) >>= k) (alone s t) ≡ k (ok (f s).0) (alone (f s).1 t)
  unfolding ◌>>=◌ call attempt
  run-attempt f k s t = refl

  pub run-pure : (a : A) (k : A → Io S B) (w : World S) → (pure a >>= k) w ≡ k a w
  unfolding ◌>>=◌ pure
  run-pure a k w = refl

pub run-now :
    {S B : Type 0} (k : ℕ → Io S B) (s : S) (t : ℕ) → (now >>= k) (alone s t) ≡ k t (alone s t)
unfolding ◌>>=◌ now
run-now k s t = refl
