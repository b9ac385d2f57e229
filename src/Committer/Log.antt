-- ===== src/Committer/Log.antt =====
-- A log that only grows: what holds of it, and what a committer may say of it.
use cairndb.Prelude.{
  ℕ, suc, Bytes, ◌≡◌, sym, ap, ◌∙◌, ◌⊎◌, inl, inr, true, false, Option-cases, none, some, List, [],
  ◌∷◌, get_elem?, All, arith,
}
use native.Mathlib.Decide.{ℕ_discrete}
use cairndb.Core.Value.{Codec}
use cairndb.Core.Log.{Event, Commit, SequenceNumber, MsgPack, from_msgpack}
use cairndb.Storage.LogInterface.{LogStorage}
use cairndb.Storage.Effects.{ok}
use cairndb.Storage.Rely.{Rely, IsStable}
use cairndb.Committer.{Resolution}

module _ (b : LogStorage) where
  open b use {Store}

  abbrev pub IsThere : ℕ → Store → Type 0
  IsThere n s = (x : Bytes) × (b.get_commit n s ≡ some x)

  -- Commit n + 1 is there only if commit n is: the log has no gap.
  abbrev pub IsDense : Store → Type 0
  IsDense s = (n : ℕ) → IsThere (suc (suc n)) s → IsThere (suc n) s

  -- The log is empty up to there, or the commit exists.
  abbrev pub IsTail : ℕ → Store → Type 0
  IsTail k s = (k ≡ 0) ⊎ IsThere k s

  -- Commits are never altered or removed, and no gap appears.
  abbrev pub grows : Rely Store
  grows = record {
    rel = λ s t.
        ((n : ℕ) (x : Bytes) → b.get_commit n s ≡ some x → b.get_commit n t ≡ some x)
        × (IsDense s → IsDense t);
    here = λ s. ((λ n x e. e), (λ d. d));
    trans = λ f g. ((λ n x e. g.0 n x (f.0 n x e)), (λ d. g.1 (f.1 d)));
  }

  pub IsTail-stable : (k : ℕ) → IsStable grows (IsTail k)
  IsTail-stable k s t g (inl e) = inl e
  IsTail-stable k s t g (inr (x, e)) = inr (x, g.0 k x e)

  module _ (k : ℕ) (bytes : Bytes) (s : Store) (free : b.get_commit (suc k) s ≡ none) where
    abbrev after : Store
    after = (b.put_commit (suc k) bytes s).1

    kept : (n : ℕ) (x : Bytes) → b.get_commit n s ≡ some x → b.get_commit n after ≡ some x
    kept n x e = elim (ℕ_discrete (suc k) n) [
      | yes p ↦ absurd (ground (arith, ap (λ m. b.get_commit m s) p))
      | no p ↦ b.put_other (suc k) n bytes s p ∙ e
    ]

    after-IsDense : IsTail k s → IsDense s → IsDense after
    after-IsDense tail d n (x, e) = elim (ℕ_discrete (suc k) (suc (suc n))) [
      | yes p ↦ before (omega arith) tail
      | no p ↦
          let (y, e') = d n (x, sym (b.put_other (suc k) (suc (suc n)) bytes s p) ∙ e) in
          (y, kept (suc n) y e')
    ]
      where
        before : k ≡ suc n → IsTail k s → IsThere (suc n) after
        before p (inl z) = absurd (omega arith)
        before p (inr (y, e')) = (y, kept (suc n) y (sym (ap (λ m. b.get_commit m s) p) ∙ e'))

  -- A put at the number after the tail keeps the log growing.
  pub put-grows :
      (k : ℕ) (bytes : Bytes) (s : Store)
      → IsTail k s
      → grows.rel s (b.put_commit (suc k) bytes s).1
  put-grows k bytes s tail = elim (Option-cases (b.get_commit (suc k) s)) [
    | inr (x, e) ↦ rw (b.put_taken (suc k) bytes x s e) (grows.here s)
    | inl free ↦ (kept k bytes s free, after-IsDense k bytes s free tail)
  ]

  -- The outcome of such a put: the bytes are there, or another commit is.
  pub put-IsThere :
      (k : ℕ) (bytes : Bytes) (s : Store)
      → (((b.put_commit (suc k) bytes s).0 ≡ true)
          × (b.get_commit (suc k) (b.put_commit (suc k) bytes s).1 ≡ some bytes))
        ⊎ (b.put_commit (suc k) bytes s ≡ (false, s))
  put-IsThere k bytes s = elim (Option-cases (b.get_commit (suc k) s)) [
    | inr (x, e) ↦ inr (b.put_taken (suc k) bytes x s e)
    | inl free ↦ inl (b.put_new (suc k) bytes s free)
  ]

  module _ (c : Codec) (p : MsgPack) (Fits : ℕ → Event → Type 0) where
    -- The event at a position of the log is one that fits the future.
    pub record IsStored (future : ℕ) (q : SequenceNumber) (s : Store) : Type 0 where
      pub bytes : Bytes
      pub commit : Commit
      pub event : Event
      pub there : b.get_commit q.commit s ≡ some bytes
      pub reads : from_msgpack c p bytes ≡ ok commit
      pub at : get_elem? commit.events q.index ≡ some event
      pub fits : Fits future event

    -- A future that is set to a sequence number is durable.
    abbrev pub IsDurable : Store → Resolution → Type 0
    IsDurable s r = (q : SequenceNumber) → r.value ≡ ok q → IsStored r.future q s

    abbrev pub AllDurable : List Resolution → Store → Type 0
    AllDurable rs s = All (IsDurable s) rs

    IsStored-stable : (future : ℕ) (q : SequenceNumber) → IsStable grows (IsStored future q)
    IsStored-stable future q s t g h = record {
      bytes = h.bytes;
      commit = h.commit;
      event = h.event;
      there = g.0 q.commit h.bytes h.there;
      reads = h.reads;
      at = h.at;
      fits = h.fits;
    }

    pub AllDurable-stable : (rs : List Resolution) → IsStable grows (AllDurable rs)
    AllDurable-stable [] s t g h = tt
    AllDurable-stable (r ∷ rs) s t g h =
        ((λ q e. IsStored-stable r.future q s t g (h.0 q e)), AllDurable-stable rs s t g h.1)
