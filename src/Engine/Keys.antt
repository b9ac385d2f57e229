-- ===== src/Engine/Keys.antt =====
-- src/cairndb/engine/objects.py: the keys that application objects may have.
use cairndb.Prelude.{
  Text, codes, ◌≡◌, refl, Bool, true, false, List, [], ◌∷◌, ◌==◌, ◌&&◌, if◌then◌else◌,
}
use cairndb.Storage.Effects.{Result, ok, raised, value_error}

-- key.startswith(prefix), the prefix first
unfoldable pub starts_with : Text → Text → Bool
starts_with [] key = true
starts_with (p ∷ ps) [] = false
starts_with (p ∷ ps) (k ∷ ks) = p == k && starts_with ps ks

abbrev pub reserved_prefixes : List Text
reserved_prefixes = codes "log/" ∷ codes "snapshots/" ∷ codes "logs/" ∷ codes "txapplied/" ∷ []

unfoldable pub check_prefixes : List Text → Text → Result (Unit {0})
check_prefixes [] key = ok tt
check_prefixes (p ∷ ps) key =
    if starts_with p key then raised value_error else check_prefixes ps key

unfoldable pub check_key : Text → Result (Unit {0})
unfolding check_prefixes starts_with
check_key [] = raised value_error
check_key (c ∷ cs) = check_prefixes reserved_prefixes (c ∷ cs)

check_key_run :
    (check_key (codes "state/run-1") ≡ ok tt) × (check_key (codes "logs/x") ≡ raised value_error)
unfolding check_key
check_key_run = (refl, refl)
