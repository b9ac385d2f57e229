-- ===== src/Storage/Rely.antt =====
-- Reasoning about a program that others interfere with. A `Rely` bounds what one turn of the others
-- does to the store. `Ensures` says that the program, under such interference, moves the store within
-- the same bound and ends with a result and a store as stated, whatever the faults.
use cairndb.Prelude.{List, [], ◌∷◌, All, ℕ, ◌≡◌, refl, sym, subst}
use cairndb.Storage.Effects.{
  Result, ok, raised, Error, storage_error, Turn, World, Io, Fate, answered, unreached, cut_off,
  deliver, call, pure, raise, lift, now, attempt, ◌>>=◌, continue,
}

pub record Rely (S : Type 0) : Type 1 where
  pub rel : S → S → Type 0
  pub here : (s : S) → rel s s
  pub trans : {s t u : S} → rel s t → rel t u → rel s u

-- The outcome of a call: its answer, or the exception of the store.
abbrev pub Answers : {S A : Type 0} → (A → S → Type 0) → Result A → S → Type 0
Answers Q (ok a) s = Q a s
Answers Q (raised e) s = e ≡ storage_error

module _ {S : Type 0} (R : Rely S) where
  abbrev pub Respects : List (Turn S) → Type 0
  Respects = All (λ t. (s : S) → R.rel s (t.others s))

  abbrev pub IsStable : (S → Type 0) → Type 0
  IsStable P = (s t : S) → R.rel s t → P s → P t

  pub record Ensures {A : Type 0} (P : S → Type 0) (m : Io S A) (Q : Result A → S → Type 0)
      : Type 0 where
    pub at :
        (w : World S)
        → Respects w.turns
        → P w.store
        → R.rel w.store (m w).1.store × Respects (m w).1.turns × Q (m w).0 (m w).1.store

  pub Ensures-pure :
      {A : Type 0} {P : S → Type 0} {Q : Result A → S → Type 0} (a : A)
      → ((s : S) → P s → Q (ok a) s)
      → Ensures P (pure a) Q
  unfolding pure
  Ensures-pure a h = record { at = λ w r p. (R.here w.store, r, h w.store p) }

  pub Ensures-raise :
      {A : Type 0} {P : S → Type 0} {Q : Result A → S → Type 0} (e : Error)
      → ((s : S) → P s → Q (raised e) s)
      → Ensures P (raise e) Q
  unfolding raise
  Ensures-raise e h = record { at = λ w r p. (R.here w.store, r, h w.store p) }

  pub Ensures-lift :
      {A : Type 0} {P : S → Type 0} {Q : Result A → S → Type 0} (r : Result A)
      → ((s : S) → P s → Q r s)
      → Ensures P (lift r) Q
  unfolding lift
  Ensures-lift r h = record { at = λ w g p. (R.here w.store, g, h w.store p) }

  pub Ensures-now-bind :
      {B : Type 0} {P : S → Type 0} {Q : Result B → S → Type 0} (k : ℕ → Io S B)
      → ((n : ℕ) → Ensures P (k n) Q)
      → Ensures P (now >>= k) Q
  unfolding ◌>>=◌ now
  Ensures-now-bind k h = record { at = λ w r p. (h w.clock).at w r p }

  -- The rest of the program starts where the first part ended, by its result or with its exception.
  pub Ensures-bind :
      {A B : Type 0} {P : S → Type 0} {Q : Result A → S → Type 0} {Q' : Result B → S → Type 0}
      (m : Io S A) (f : A → Io S B)
      → Ensures P m Q
      → ((a : A) → Ensures (Q (ok a)) (f a) Q')
      → ((e : Error) (s : S) → Q (raised e) s → Q' (raised e) s)
      → Ensures P (m >>= f) Q'
  unfolding ◌>>=◌
  Ensures-bind {A} {B} {P} {Q} {Q'} m f hm hf he = record {
    at = λ w r p. let (g, r', q) = hm.at w r p in next (m w).0 (m w).1 w.store g r' q;
  }
    where
      next :
          (x : Result A) (w' : World S) (s : S)
          → R.rel s w'.store
          → Respects w'.turns
          → Q x w'.store
          → R.rel s (continue f x w').1.store
            × Respects (continue f x w').1.turns
            × Q' (continue f x w').0 (continue f x w').1.store
      next (ok a) w' s g r q = let (g', r', q') = (hf a).at w' r q in (R.trans g g', r', q')
      next (raised e) w' s g r q = (g, r, he e w'.store q)

  -- A call: what is known must survive the others' turn, and the call keeps the bound.
  pub Ensures-call :
      {A : Type 0} {P : S → Type 0} {Q : Result A → S → Type 0} (f : S → A × S)
      → IsStable P
      → ((s : S) → P s → R.rel s (f s).1)
      → ((s : S) → P s → Q (ok (f s).0) (f s).1)
      → ((s : S) → P s → Q (raised storage_error) s)
      → ((s : S) → P s → Q (raised storage_error) (f s).1)
      → Ensures P (call f) Q
  unfolding call
  Ensures-call {A} {P} {Q} f stable keeps done missed lost = record {
    at = λ w r p. split w.turns w.clock w.store r p;
  }
    where
      faced :
          (w : World S) (x : Fate) (s : S)
          → R.rel s w.store
          → Respects w.turns
          → P w.store
          → R.rel s (deliver f w x).1.store
            × Respects (deliver f w x).1.turns
            × Q (deliver f w x).0 (deliver f w x).1.store
      faced w answered s g r p = (R.trans g (keeps w.store p), r, done w.store p)
      faced w unreached s g r p = (g, r, missed w.store p)
      faced w cut_off s g r p = (R.trans g (keeps w.store p), r, lost w.store p)

      split :
          (ts : List (Turn S)) (c : ℕ) (s : S)
          → Respects ts
          → P s
          → R.rel s (call f (record { store = s; clock = c; turns = ts })).1.store
            × Respects (call f (record { store = s; clock = c; turns = ts })).1.turns
            × Q
                (call f (record { store = s; clock = c; turns = ts })).0
                (call f (record { store = s; clock = c; turns = ts })).1.store
      split [] c s r p =
          faced (record { store = s; clock = c; turns = [] }) answered s (R.here s) r p
      split (t ∷ ts) c s r p =
          faced (record { store = t.others s; clock = t.clock; turns = ts }) t.fate s (r.0 s) r.1
            (stable s (t.others s) (r.0 s) p)

  pub Ensures-weaken :
      {A : Type 0} {P P' : S → Type 0} {Q Q' : Result A → S → Type 0} (m : Io S A)
      → Ensures P m Q
      → ((s : S) → P' s → P s)
      → ((x : Result A) (s : S) → Q x s → Q' x s)
      → Ensures P' m Q'
  Ensures-weaken m h hp hq = record {
    at = λ w r p. let (g, r', q) = h.at w r (hp w.store p) in (g, r', hq (m w).0 (m w).1.store q);
  }

  -- A program that starts with a call and goes on by its answer.
  pub Ensures-ask :
      {A B : Type 0} {P : S → Type 0} {Q' : Result B → S → Type 0} (Q : A → S → Type 0)
      (f : S → A × S) (k : A → Io S B)
      → IsStable P
      → ((s : S) → P s → R.rel s (f s).1)
      → ((s : S) → P s → Q (f s).0 (f s).1)
      → ((s : S) → Q' (raised storage_error) s)
      → ((a : A) → Ensures (Q a) (k a) Q')
      → Ensures P (call f >>= k) Q'
  Ensures-ask {A} {B} {P} {Q'} Q f k stable keeps done failed rest =
      Ensures-bind (call f) k
        (Ensures-call {Q = Answers Q} f stable keeps done (λ s p. refl) (λ s p. refl)) rest
        (λ e s h. subst (λ (x : Error). Q' (raised x) s) (sym h) (failed s))

  -- A program that starts with a computed result.
  pub Ensures-lift-bind :
      {A B : Type 0} {P : S → Type 0} {Q' : Result B → S → Type 0} (r : Result A) (k : A → Io S B)
      → ((a : A) → r ≡ ok a → Ensures P (k a) Q')
      → ((e : Error) (s : S) → r ≡ raised e → P s → Q' (raised e) s)
      → Ensures P (lift r >>= k) Q'
  unfolding ◌>>=◌ lift
  Ensures-lift-bind (ok a) k rest failed = record { at = λ w r p. (rest a refl).at w r p }
  Ensures-lift-bind (raised e) k rest failed = record {
    at = λ w r p. (R.here w.store, r, failed e w.store refl p);
  }

  -- A program that starts with a call and goes on whatever its outcome.
  pub Ensures-try :
      {A B : Type 0} {P : S → Type 0} {Q' : Result B → S → Type 0} (Q : Result A → S → Type 0)
      (f : S → A × S) (k : Result A → Io S B)
      → IsStable P
      → ((s : S) → P s → R.rel s (f s).1)
      → ((s : S) → P s → Q (ok (f s).0) (f s).1)
      → ((s : S) → P s → Q (raised storage_error) s)
      → ((s : S) → P s → Q (raised storage_error) (f s).1)
      → ((r : Result A) → Ensures (Q r) (k r) Q')
      → Ensures P (attempt (call f) >>= k) Q'
  unfolding ◌>>=◌ attempt
  Ensures-try {P} {Q'} Q f k stable keeps done missed lost rest = record {
    at = λ w r p.
        let (g, r', q) = (Ensures-call {Q = Q} f stable keeps done missed lost).at w r p in
        let (g', r'', q') = (rest (call f w).0).at (call f w).1 r' q in (R.trans g g', r'', q');
  }

  -- What others cannot undo stays known.
  pub Ensures-frame :
      {A : Type 0} {P F : S → Type 0} {Q : Result A → S → Type 0} (m : Io S A)
      → Ensures P m Q
      → IsStable F
      → Ensures (λ s. P s × F s) m (λ x s. Q x s × F s)
  Ensures-frame m h stable = record {
    at = λ w r p. let (g, r', q) = h.at w r p.0 in (g, r', (q, stable w.store (m w).1.store g p.1));
  }

  -- A program whose first part may raise, and goes on whatever its outcome.
  pub Ensures-attempt :
      {A B : Type 0} {P : S → Type 0} {Q : Result A → S → Type 0} {Q' : Result B → S → Type 0}
      (m : Io S A) (k : Result A → Io S B)
      → Ensures P m Q
      → ((r : Result A) → Ensures (Q r) (k r) Q')
      → Ensures P (attempt m >>= k) Q'
  unfolding ◌>>=◌ attempt
  Ensures-attempt m k h rest = record {
    at = λ w r p.
        let (g, r', q) = h.at w r p in
        let (g', r'', q') = (rest (m w).0).at (m w).1 r' q in (R.trans g g', r'', q');
  }
