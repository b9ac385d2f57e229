-- ===== src/Committer/Futures.antt =====
-- How often a future has been set.
use cairndb.Prelude.{
  ℕ, suc, ◌+◌, ◌≡◌, refl, ap, Bool, true, false, Option, none, some, List, [], ◌∷◌, ◌++◌, length,
  arith, ◌==◌,
}
use cairndb.Core.Log.{Event}
use cairndb.Storage.Effects.{Error}
use cairndb.Committer.{Pending, Resolution, fail_all, succeed_from, sort_out}

abbrev pub one_if : Bool → ℕ
one_if true = 1
one_if false = 0

-- The pendings with that future.
abbrev pub awaited : ℕ → List Pending → ℕ
awaited f [] = 0
awaited f (p ∷ ps) = one_if (p.future == f) + awaited f ps

-- The times that it has been set.
abbrev pub set : ℕ → List Resolution → ℕ
set f [] = 0
set f (r ∷ rs) = one_if (r.future == f) + set f rs

pub set-append : (f : ℕ) (xs ys : List Resolution) → set f (xs ++ ys) ≡ set f xs + set f ys
set-append f [] ys = omega arith
set-append f (x ∷ xs) ys = omega (arith, set-append f xs ys)

pub set-fail_all : (f : ℕ) (e : Error) (ps : List Pending) → set f (fail_all e ps) ≡ awaited f ps
unfolding fail_all
set-fail_all f e [] = refl
set-fail_all f e (p ∷ ps) = ap (λ n. one_if (p.future == f) + n) (set-fail_all f e ps)

pub set-succeed_from :
    (f number i : ℕ) (ps : List Pending) → set f (succeed_from number i ps) ≡ awaited f ps
unfolding succeed_from
set-succeed_from f number i [] = refl
set-succeed_from f number i (p ∷ ps) =
    ap (λ n. one_if (p.future == f) + n) (set-succeed_from f number (suc i) ps)

-- Each pending is kept or has its future set.
pub awaited-sort_out :
    (f : ℕ) (ps : List Pending) (ds : List (Option Event))
    → length ds ≡ length ps
    → awaited f (sort_out ps ds).0 + set f (sort_out ps ds).1 ≡ awaited f ps
unfolding sort_out
awaited-sort_out f [] [] h = refl
awaited-sort_out f [] (d ∷ ds) h = absurd (omega arith)
awaited-sort_out f (p ∷ ps) [] h = absurd (omega arith)
awaited-sort_out f (p ∷ ps) (none ∷ ds) h = omega (arith, awaited-sort_out f ps ds (omega arith))
awaited-sort_out f (p ∷ ps) (some e ∷ ds) h = omega (arith, awaited-sort_out f ps ds (omega arith))
