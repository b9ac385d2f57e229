-- ===== src/Tests/Codec.antt =====
-- A codec for values that meets what the program relies on: a prefix code with a decoder on fuel.
pub mod Instances
use cairndb.Prelude.{
  ℕ, zero, suc, ◌+◌, ◌≤◌, Text, Bytes, ◌≡◌, refl, true, false, Option, none, some, [], ◌∷◌, arith,
  length,
}
use cairndb.Core.Log.{MsgPack}
use cairndb.Core.Value.{
  Tree, Items, Fields, null, boolean, raw, num, str, arr, obj, nil, cons, end, field, Codec,
}

pub put_text : Text → Bytes → Bytes
put_text [] k = 0 ∷ k
put_text (x ∷ xs) k = 1 ∷ x ∷ put_text xs k

pub take_text : Bytes → Option (Text × Bytes)
take_text [] = none
take_text (zero ∷ k) = some ([], k)
take_text (suc n ∷ []) = none
take_text (suc n ∷ x ∷ k) = elim (take_text k) [ none ↦ none | some (xs, r) ↦ some (x ∷ xs, r) ]

pub take_text-put_text : (t : Text) (k : Bytes) → take_text (put_text t k) ≡ some (t, k)
unfolding put_text take_text
take_text-put_text [] k = refl
take_text-put_text (x ∷ xs) k = rw (take_text-put_text xs k)

pub length-put_text : (t : Text) (k : Bytes) → suc (length k) ≤ length (put_text t k)
unfolding put_text
length-put_text [] k = omega arith
length-put_text (x ∷ xs) k = omega (arith, length-put_text xs k)

module _ {B : Type 0} (put_raw : B → Bytes → Bytes) (take_raw : Bytes → Option (B × Bytes))
    (grows : (x : B) (k : Bytes) → length k ≤ length (put_raw x k))
    (back : (x : B) (k : Bytes) → take_raw (put_raw x k) ≡ some (x, k)) where
  mutual
    put : Tree B → Bytes → Bytes
    put null k = 0 ∷ k
    put (boolean true) k = 1 ∷ k
    put (boolean false) k = 2 ∷ k
    put (raw x) k = 6 ∷ put_raw x k
    put (num n) k = 3 ∷ n ∷ k
    put (str t) k = 4 ∷ put_text t k
    put (arr xs) k = 5 ∷ put_items xs k
    put (obj fs) k = 7 ∷ put_fields fs k

    put_items : Items B → Bytes → Bytes
    put_items nil k = 0 ∷ k
    put_items (cons x xs) k = 1 ∷ put x (put_items xs k)

    put_fields : Fields B → Bytes → Bytes
    put_fields end k = 0 ∷ k
    put_fields (field t v fs) k = 1 ∷ put_text t (put v (put_fields fs k))

  abbrev as_num : Bytes → Option (Tree B × Bytes)
  as_num [] = none
  as_num (n ∷ k) = some (num n, k)

  abbrev as_str : Option (Text × Bytes) → Option (Tree B × Bytes)
  as_str none = none
  as_str (some (t, k)) = some (str t, k)

  abbrev as_arr : Option (Items B × Bytes) → Option (Tree B × Bytes)
  as_arr none = none
  as_arr (some (xs, k)) = some (arr xs, k)

  abbrev as_raw : Option (B × Bytes) → Option (Tree B × Bytes)
  as_raw none = none
  as_raw (some (x, k)) = some (raw x, k)

  abbrev as_obj : Option (Fields B × Bytes) → Option (Tree B × Bytes)
  as_obj none = none
  as_obj (some (fs, k)) = some (obj fs, k)

  mutual
    take : ℕ → Bytes → Option (Tree B × Bytes)
    take zero k = none
    take (suc f) [] = none
    take (suc f) (zero ∷ k) = some (null, k)
    take (suc f) (suc zero ∷ k) = some (boolean true, k)
    take (suc f) (suc (suc zero) ∷ k) = some (boolean false, k)
    take (suc f) (suc (suc (suc zero)) ∷ k) = as_num k
    take (suc f) (suc (suc (suc (suc zero))) ∷ k) = as_str (take_text k)
    take (suc f) (suc (suc (suc (suc (suc zero)))) ∷ k) = as_arr (take_items f k)
    take (suc f) (suc (suc (suc (suc (suc (suc zero))))) ∷ k) = as_raw (take_raw k)
    take (suc f) (suc (suc (suc (suc (suc (suc (suc n)))))) ∷ k) = as_obj (take_fields f k)

    take_items : ℕ → Bytes → Option (Items B × Bytes)
    take_items zero k = none
    take_items (suc f) [] = none
    take_items (suc f) (zero ∷ k) = some (nil, k)
    take_items (suc f) (suc n ∷ k) = elim (take f k) [
      | none ↦ none
      | some (x, r) ↦ elim (take_items f r) [ none ↦ none | some (xs, r') ↦ some (cons x xs, r') ]
    ]

    take_fields : ℕ → Bytes → Option (Fields B × Bytes)
    take_fields zero k = none
    take_fields (suc f) [] = none
    take_fields (suc f) (zero ∷ k) = some (end, k)
    take_fields (suc f) (suc n ∷ k) = elim (take_text k) [
      | none ↦ none
      | some (t, r) ↦ elim (take f r) [
        | none ↦ none
        | some (v, r') ↦ elim (take_fields f r') [
          | none ↦ none
          | some (fs, r'') ↦ some (field t v fs, r'')
        ]
      ]
    ]

  mutual
    size : Tree B → ℕ
    size null = 1
    size (boolean x) = 1
    size (raw x) = 1
    size (num n) = 1
    size (str t) = 1
    size (arr xs) = suc (size_items xs)
    size (obj fs) = suc (size_fields fs)

    size_items : Items B → ℕ
    size_items nil = 1
    size_items (cons x xs) = suc (size x + size_items xs)

    size_fields : Fields B → ℕ
    size_fields end = 1
    size_fields (field t v fs) = suc (size v + size_fields fs)

  mutual
    unfolding size put

    size-le : (v : Tree B) (k : Bytes) → size v + length k ≤ length (put v k)
    size-le null k = omega arith
    size-le (boolean true) k = omega arith
    size-le (boolean false) k = omega arith
    size-le (raw x) k = omega (arith, grows x k)
    size-le (num n) k = omega arith
    size-le (str t) k = omega (arith, length-put_text t k)
    size-le (arr xs) k = omega (arith, size_items-le xs k)
    size-le (obj fs) k = omega (arith, size_fields-le fs k)

    size_items-le : (xs : Items B) (k : Bytes) → size_items xs + length k ≤ length (put_items xs k)
    size_items-le nil k = omega arith
    size_items-le (cons x xs) k = omega (arith, size-le x (put_items xs k), size_items-le xs k)

    size_fields-le :
        (fs : Fields B) (k : Bytes) → size_fields fs + length k ≤ length (put_fields fs k)
    size_fields-le end k = omega arith
    size_fields-le (field t v fs) k = omega (
      arith,
      length-put_text t (put v (put_fields fs k)),
      size-le v (put_fields fs k),
      size_fields-le fs k,
    )

  mutual
    unfolding size put take

    take-put : (v : Tree B) (f : ℕ) (k : Bytes) → size v ≤ f → take f (put v k) ≡ some (v, k)
    take-put null (suc f) k h = refl
    take-put (boolean true) (suc f) k h = refl
    take-put (boolean false) (suc f) k h = refl
    take-put (raw x) (suc f) k h = rw (back x k)
    take-put (num n) (suc f) k h = refl
    take-put (str t) (suc f) k h = rw (take_text-put_text t k)
    take-put (arr xs) (suc f) k h = rw (take_items-put xs f k (omega arith))
    take-put (obj fs) (suc f) k h = rw (take_fields-put fs f k (omega arith))
    take-put (boolean x) zero k h = absurd (omega arith)
    take-put v zero k h = absurd (omega arith)

    take_items-put :
        (xs : Items B) (f : ℕ) (k : Bytes)
        → size_items xs ≤ f
        → take_items f (put_items xs k) ≡ some (xs, k)
    take_items-put nil (suc f) k h = refl
    take_items-put (cons x xs) (suc f) k h =
        ground (arith, take-put x f (put_items xs k), take_items-put xs f k)
    take_items-put nil zero k h = absurd (omega arith)
    take_items-put (cons x xs) zero k h = absurd (omega arith)

    take_fields-put :
        (fs : Fields B) (f : ℕ) (k : Bytes)
        → size_fields fs ≤ f
        → take_fields f (put_fields fs k) ≡ some (fs, k)
    take_fields-put end (suc f) k h = refl
    take_fields-put (field t v fs) (suc f) k h = ground (
      arith,
      take_text-put_text t (put v (put_fields fs k)),
      take-put v f (put_fields fs k),
      take_fields-put fs f k,
    )
    take_fields-put end zero k h = absurd (omega arith)
    take_fields-put (field t v fs) zero k h = absurd (omega arith)

  pub dumps : Tree B → Bytes
  unfolding put
  dumps v = put v []

  pub loads : Bytes → Option (Tree B)
  unfolding take
  loads bytes = elim (take (length bytes) bytes) [ none ↦ none | some (v, rest) ↦ some v ]

  pub loads-dumps : (v : Tree B) → loads (dumps v) ≡ some v
  unfolding loads dumps
  loads-dumps v = ground (arith, take-put v (length (put v [])) [], size-le v [])
