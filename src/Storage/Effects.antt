-- ===== src/Storage/Effects.antt =====
-- A program that runs against a store which other programs use at the same time. Before each call
-- that it makes, the others have a turn: they change the store, time passes, and the turn says how
-- the call fares: it is answered, it fails before it reached the store, or its effect lands and the
-- answer is lost (StorageError, both). With no turn left nobody interferes.
-- The exceptions are those of src/cairndb/core/exceptions.py and the built-in ones the code raises.
use cairndb.Prelude.{Text, Bytes, Bool, Option, ℕ, List, [], ◌∷◌}
use cairndb.Storage.Interface.{BlobStorage, StoredObject}

pub data Error : Type 0 where
  value_error type_error decode_error key_error : Error
  timeout_error runtime_error file_exists_error : Error
  cairndb_error storage_error replay_error commit_error event_rejected : Error
  handler_not_found lease_lost transaction_conflict : Error

pub data Result {ℓ} (A : Type ℓ) : Type ℓ where
  ok : A → Result A
  raised : Error → Result A

pub data Fate : Type 0 where
  answered unreached cut_off : Fate

pub record Turn (S : Type 0) : Type 0 where
  pub others : S → S
  pub clock : ℕ
  pub fate : Fate

pub record World (S : Type 0) : Type 0 where
  pub store : S
  pub clock : ℕ
  pub turns : List (Turn S)

-- What the others did, and how the next call fares.
unfoldable pub next_turn : {S : Type 0} → List (Turn S) → ℕ → S → World S × Fate
next_turn [] clock s = (record { store = s; clock = clock; turns = [] }, answered)
next_turn (t ∷ ts) clock s = (record { store = t.others s; clock = t.clock; turns = ts }, t.fate)

abbrev pub Io : Type 0 → Type 0 → Type 0
Io S A = World S → Result A × World S

module _ {S : Type 0} where
  unfoldable pub deliver : {A : Type 0} → (S → A × S) → World S → Fate → Result A × World S
  deliver f w answered = let (a, s) = f w.store in (ok a, record w { store = s })
  deliver f w unreached = (raised storage_error, w)
  deliver f w cut_off = let (a, s) = f w.store in (raised storage_error, record w { store = s })

  -- One call of the store.
  unfoldable pub call : {A : Type 0} → (S → A × S) → Io S A
  unfolding deliver next_turn
  call f w = let (w', fate) = next_turn w.turns w.clock w.store in deliver f w' fate

  unfoldable pub pure : {A : Type 0} → A → Io S A
  pure a w = (ok a, w)

  unfoldable pub raise : {A : Type 0} → Error → Io S A
  raise e w = (raised e, w)

  -- A result that was computed without the store, raised if it is an exception.
  unfoldable pub lift : {A : Type 0} → Result A → Io S A
  lift r w = (r, w)

  abbrev pub continue : {A B : Type 0} → (A → Io S B) → Result A → World S → Result B × World S
  continue f (ok a) w = f a w
  continue f (raised e) w = (raised e, w)

  infixl 5 ◌>>=◌ ◌>>◌
  unfoldable pub ◌>>=◌ : {A B : Type 0} → Io S A → (A → Io S B) → Io S B
  ◌>>=◌ m f w = let (r, w') = m w in continue f r w'

  abbrev pub ◌>>◌ : {A B : Type 0} → Io S A → Io S B → Io S B
  m >> n = m >>= λ _. n

  -- Timestamp.now(): the clock as it stands after the last turn.
  unfoldable pub now : Io S ℕ
  now w = (ok w.clock, w)

  -- try: the exception becomes a value.
  unfoldable pub attempt : {A : Type 0} → Io S A → Io S (Result A)
  attempt m w = let (r, w') = m w in (ok r, w')

module _ (b : BlobStorage) where
  open b use {Store}

  unfoldable pub get_object : Text → Io Store (Option StoredObject)
  get_object key = call (λ s. (b.get_object key s, s))

  unfoldable pub put_object : Text → Bytes → Option Text → Bool → Io Store (Option Text)
  put_object key bytes if_match if_absent = call (b.put_object key bytes if_match if_absent)

  unfoldable pub delete_object : Text → Io Store (Unit {0})
  delete_object key = call (λ s. (tt, b.delete_object key s))
