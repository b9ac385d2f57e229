-- ===== src/Engine/Transactions/Markers.antt =====
-- The markers of applied commits: which numbers `recover` finds in the keys that are listed.
use std.Path.{fun_ext}
use cairndb.Prelude.{
  ℕ, ◌≤◌, Text, ◌≡◌, refl, sym, ap, ◌∙◌, inl, inr, Bool, true, false, Bool-cases, Option, none,
  some, List, [], ◌∷◌, All, length, arith, ◌==◌,
}
use cairndb.Core.Decimal.{is_digit, zero_padded}
use cairndb.Core.Decimal.Digits.{IsDigit, spelled, spelled-zero_padded, zero_padded-All, width-le}
use cairndb.Storage.Interface.{StoredObject}
use cairndb.Storage.Listed.{ListedStorage, Among}
use cairndb.Engine.Keys.{starts_with}
use cairndb.Engine.Transactions.Manager.{
  marker_key, marker_prefix, without_prefix, all_digits, number_of, marker_number, applied_numbers,
  is_applied,
}

all_digits-All : (t : Text) → All IsDigit t → all_digits t ≡ true
unfolding all_digits is_digit
all_digits-All [] h = refl
all_digits-All (c ∷ t) h = ground (arith, all_digits-All t h.1, h.0)

number_of-All : (t : Text) → 1 ≤ length t → All IsDigit t → number_of t ≡ some (spelled 0 t)
unfolding number_of
number_of-All [] l h = absurd (omega (arith, l))
number_of-All (c ∷ t) l h = rw (all_digits-All (c ∷ t) h) refl

marker_number-key : (n : ℕ) → marker_number (marker_key n) ≡ some n
unfolding marker_number marker_key starts_with without_prefix
marker_number-key n =
    number_of-All (zero_padded 12 n) (omega (arith, width-le 12 n)) (zero_padded-All 12 n)
    ∙ ap some (spelled-zero_padded 12 n)

starts_with-key : (n : ℕ) → starts_with marker_prefix (marker_key n) ≡ true
unfolding marker_key starts_with
starts_with-key n = refl

is_applied-Among :
    (n : ℕ) (ks : List Text) → Among (marker_key n) ks → is_applied n (applied_numbers ks) ≡ true
unfolding is_applied applied_numbers marker_number number_of starts_with
is_applied-Among n [] h = absurd h
is_applied-Among n (k ∷ ks) (inl same) =
    rw (ap marker_number same ∙ marker_number-key n) (ground arith)
is_applied-Among n (k ∷ ks) (inr later) = go (marker_number k) (is_applied-Among n ks later)
  where
    go :
        (o : Option ℕ)
        → is_applied n (applied_numbers ks) ≡ true
        → is_applied n (elim o [ none ↦ applied_numbers ks | some m ↦ m ∷ applied_numbers ks ])
          ≡ true
    go none h = h
    go (some m) h = ground (arith, h)

module _ (b : ListedStorage) where
  -- Is there an object?
  abbrev pub is_there : Option StoredObject → Bool
  is_there none = false
  is_there (some o) = true

  -- Is there a marker of the commit?
  abbrev pub is_marked : b.blob.Store → ℕ → Bool
  is_marked s n = is_there (b.blob.get_object (marker_key n) s)

  -- The keys with the prefix of the markers are those of markers.
  abbrev pub HasMarkers : b.blob.Store → Type 0
  HasMarkers s =
      (k : Text) (o : StoredObject)
      → b.blob.get_object k s ≡ some o
      → starts_with marker_prefix k ≡ true
      → (m : ℕ) × (k ≡ marker_key m)

  abbrev Listing : b.blob.Store → Text → Type 0
  Listing s k =
      (starts_with marker_prefix k ≡ true) × ((o : StoredObject) × (b.blob.get_object k s ≡ some o))

  is_marked-applied :
      (s : b.blob.Store) (n : ℕ) (ks : List Text)
      → HasMarkers s
      → All (Listing s) ks
      → is_applied n (applied_numbers ks) ≡ true
      → is_marked s n ≡ true
  unfolding is_applied applied_numbers
  is_marked-applied s n [] marks h e = absurd (ground (arith, e))
  is_marked-applied s n (k ∷ ks) marks h e =
      let (m, same) = marks k h.0.1.0 h.0.1.1 h.0.0 in
      elim (Bool-cases (m == n)) [
        | inl here ↦ ap is_there (
            ap (λ i. b.blob.get_object i s) (ap marker_key (sym (ground (arith, here))) ∙ sym same)
            ∙ h.0.1.1)
        | inr other ↦
            is_marked-applied s n ks marks h.1
              (ground (arith, ap marker_number same ∙ marker_number-key m, other, e))
      ]

  -- The numbers of the keys that are listed are those of the commits that have a marker.
  pub is_applied-is_marked :
      (s : b.blob.Store)
      → HasMarkers s
      → (λ n. is_applied n (applied_numbers (b.list_objects marker_prefix s))) ≡ is_marked s
  is_applied-is_marked s marks = fun_ext (λ n. both n (b.blob.get_object (marker_key n) s) refl)
    where
      ks : List Text
      ks = b.list_objects marker_prefix s

      both :
          (n : ℕ) (o : Option StoredObject)
          → b.blob.get_object (marker_key n) s ≡ o
          → is_applied n (applied_numbers ks) ≡ is_there o
      both n (some o) e =
          is_applied-Among n ks
            (b.listed_all marker_prefix (marker_key n) o s e (starts_with-key n))
      both n none e = elim (Bool-cases (is_applied n (applied_numbers ks))) [
        | inl yes_ ↦ absurd (
            ground (
              arith,
              is_marked-applied s n ks marks (b.listed_there marker_prefix s) yes_,
              ap is_there e,
            ))
        | inr no_ ↦ no_
      ]
