-- ===== src/Tests/Files.antt =====
-- A directory of files as a store that lists its keys.
use cairndb.Prelude.{
  Text, Bytes, text_discrete, ite, ◌≡◌, refl, ap, ◌∙◌, inl, inr, true, some, List, [], ◌∷◌, All,
  if◌then◌else◌, Bool-cases, arith,
}
use mathlib.Core.Option
use cairndb.Storage.Interface.{BlobStorage, StoredObject}
use cairndb.Storage.Files.{Files, read_file}
use cairndb.Storage.Filesystem.{stored}
use cairndb.Storage.Filesystem.Contract.{files_storage, get_at}
use cairndb.Storage.Listed.{ListedStorage, Among}
use cairndb.Engine.Keys.{starts_with}

-- The content stands for its digest.
abbrev pub digest : Bytes → Text
digest x = x

abbrev pub blob : BlobStorage
blob = files_storage digest (λ a b e. e)

unfoldable pub paths : Text → Files → List Text
paths prefix [] = []
paths prefix ((p, d) ∷ fs) =
    let rest = paths prefix fs in if starts_with prefix p then p ∷ rest else rest

abbrev pub IsThere : Text → Files → Text → Type 0
IsThere prefix fs k =
    (starts_with prefix k ≡ true) × ((o : StoredObject) × (get_at digest k fs ≡ some o))

there_later :
    (p k : Text) (d : Bytes) (fs : Files)
    → ((o : StoredObject) × (get_at digest k fs ≡ some o))
    → ((o : StoredObject) × (get_at digest k ((p, d) ∷ fs) ≡ some o))
unfolding get_at read_file stored
there_later p k d fs (o, h) =
    elim (text_discrete p k)
      as (λ x.
        (o' : StoredObject) × (Option.map (stored digest) (ite x (some d) (read_file k fs))
          ≡ some o')) [ yes e ↦ (stored digest d, refl) | no ne ↦ (o, h) ]

there_first :
    (p : Text) (d : Bytes) (fs : Files)
    → ((o : StoredObject) × (get_at digest p ((p, d) ∷ fs) ≡ some o))
unfolding get_at read_file stored
there_first p d fs =
    elim (text_discrete p p)
      as (λ x.
        (o' : StoredObject) × (Option.map (stored digest) (ite x (some d) (read_file p fs))
          ≡ some o')) [ yes e ↦ (stored digest d, refl) | no ne ↦ absurd (ne refl) ]

All-map : (P Q : Text → Type 0) (ks : List Text) → ((k : Text) → P k → Q k) → All P ks → All Q ks
All-map P Q [] f h = tt
All-map P Q (k ∷ ks) f h = (f k h.0, All-map P Q ks f h.1)

pub paths-IsThere : (prefix : Text) (fs : Files) → All (IsThere prefix fs) (paths prefix fs)
unfolding paths
paths-IsThere prefix [] = tt
paths-IsThere prefix ((p, d) ∷ fs) =
    let later =
      All-map (IsThere prefix fs) (IsThere prefix ((p, d) ∷ fs)) (paths prefix fs)
        (λ k h. (h.0, there_later p k d fs h.1)) (paths-IsThere prefix fs) in
    elim (Bool-cases (starts_with prefix p)) [
      | inl e ↦ rw e ((e, there_first p d fs), later)
      | inr e ↦ rw e later
    ]

pub paths_all :
    (prefix k : Text) (o : StoredObject) (fs : Files)
    → get_at digest k fs ≡ some o
    → starts_with prefix k ≡ true
    → Among k (paths prefix fs)
unfolding get_at read_file stored paths
paths_all prefix k o [] h e = absurd (ground arith)
paths_all prefix k o ((p, d) ∷ fs) h e = elim (text_discrete p k) [
  | yes eq ↦ rw (ap (starts_with prefix) eq ∙ e) (inl eq)
  | no ne ↦ elim (Bool-cases (starts_with prefix p)) [
    | inl x ↦ rw x (inr (paths_all prefix k o fs (ground (arith, h, ne)) e))
    | inr x ↦ rw x (paths_all prefix k o fs (ground (arith, h, ne)) e)
  ]
]

abbrev pub listed : ListedStorage
listed = record {
  blob = blob;
  list_objects = paths;
  listed_there = paths-IsThere;
  listed_all = paths_all;
}
