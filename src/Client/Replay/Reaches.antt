-- ===== src/Client/Replay/Reaches.antt =====
-- The databases that a log leads to: a replay, cut off at any point, has applied the commits that
-- follow its start, whole and in order.
use cairndb.Prelude.{
  ℕ, zero, suc, ◌+◌, ◌≤◌, Bytes, ◌≡◌, refl, sym, ap, subst, ◌∙◌, ◌⊎◌, inl, inr, Bool, true, false,
  Option, none, some, List, [], ◌∷◌, arith, length, Option-cases,
}
use cairndb.Core.Value.{Codec}
use cairndb.Core.Log.{SequenceNumber, Commit, MsgPack, from_msgpack, last_sequence}
use cairndb.Storage.LogInterface.{LogStorage}
use cairndb.Storage.Effects.{Result, ok, raised, replay_error}
use cairndb.Storage.Rely.{
  IsStable, Ensures, Ensures-pure, Ensures-try, Ensures-weaken, Ensures-frame,
}
use cairndb.Committer.Log.{grows}
use cairndb.Client.Replay.{
  Database, Registry, apply_commit, Progress, Outcome, Rest, on_applied, on_commit, on_data,
  goes_on, replay_step, replay_loop, replay,
}

module _ (Tables : Type 0) where
  -- Every commit of the list applied, one after the other.
  abbrev pub apply_rest :
      (Database Tables → Result (Database Tables))
      → Result (Unit {0}) × Database Tables
      → Result (Database Tables)
  apply_rest rest (raised e, db) = raised e
  apply_rest rest (ok x, db) = rest db

  abbrev pub apply_all : Registry Tables → List Commit → Database Tables → Result (Database Tables)
  apply_all registry [] db = ok db
  apply_all registry (x ∷ xs) db =
      apply_rest (apply_all registry xs) (apply_commit Tables registry x db)

  abbrev pub last_from : Option SequenceNumber → List Commit → Option SequenceNumber
  last_from o [] = o
  last_from o (x ∷ xs) = last_from (some (last_sequence x)) xs

  module _ (b : LogStorage) (c : Codec) (p : MsgPack) where
    open b use {Store}

    -- The commits that stand in the log after number `n`, in order.
    abbrev pub Holds : ℕ → List Commit → Store → Type 0
    Holds n [] s = Unit {0}
    Holds n (x ∷ xs) s =
        ((bytes : Bytes) × (b.get_commit (suc n) s ≡ some bytes) × (from_msgpack c p bytes ≡ ok x))
        × Holds (suc n) xs s

    pub Holds-stable : (n : ℕ) (xs : List Commit) → IsStable (grows b) (Holds n xs)
    Holds-stable n [] s t g h = tt
    Holds-stable n (x ∷ xs) s t g ((bytes, there, reads), h) =
        ((bytes, g.0 (suc n) bytes there, reads), Holds-stable (suc n) xs s t g h)

    -- The replay is of the log that grows from `s0`, to the commit `end_at` if there is one.
    module _ (registry : Registry Tables) (s0 : Store) (end_at : Option ℕ) where
      -- Beyond these commits there was none at the start, or there is none to apply.
      abbrev pub Complete : ℕ → List Commit → Type 0
      Complete n xs =
          (b.get_commit (suc (n + length xs)) s0 ≡ none)
          ⊎ ((last : ℕ) × (end_at ≡ some last) × (last ≤ n + length xs))

      -- Not one of these commits is beyond the end.
      abbrev pub Within : Option ℕ → ℕ → List Commit → Type 0
      Within none n xs = Unit {0}
      Within (some last) n [] = Unit {0}
      Within (some last) n (x ∷ xs) = n + length (x ∷ xs) ≤ last

      abbrev pub Returns :
          ℕ → Option SequenceNumber → List Commit → Result (Option SequenceNumber) → Type 0
      Returns n o xs (ok q) = (q ≡ last_from o xs) × Complete n xs
      Returns n o xs (raised e) = Unit {0}

      abbrev Since : Store → Type 0
      Since s = (grows b).rel s0 s

      abbrev Next : ℕ → Bytes → Store → Type 0
      Next n bytes s = (b.get_commit (suc n) s ≡ some bytes) × Since s

      Next-stable : (n : ℕ) (bytes : Bytes) → IsStable (grows b) (Next n bytes)
      Next-stable n bytes s t g h = (g.0 (suc n) bytes h.0, (grows b).trans h.1 g)

      -- The test of the loop.
      abbrev Goes : ℕ → Type 0
      Goes n = goes_on Tables b c p registry end_at (suc n) ≡ true

      -- What a replay leaves that starts after commit `n`.
      abbrev pub Reached : ℕ → Progress Tables → Result (Option (Outcome Tables)) → Store → Type 0
      Reached n pr (raised e) s = ⊥
      Reached n pr (ok none) s = Unit {0}
      Reached n pr (ok (some (r, db))) s =
          (xs : List Commit) × Holds n xs s
          × (apply_all registry xs pr.db ≡ ok db)
          × Within end_at n xs
          × Returns n pr.last xs r

      abbrev Goal : ℕ → Progress Tables → Rest Tables b c p registry → Type 0
      Goal n pr m = Ensures (grows b) Since (m pr) (Reached n pr)

      Reached-nothing :
          (n : ℕ) (pr : Progress Tables) (r : Result (Option SequenceNumber)) (s : Store)
          → Returns n pr.last [] r
          → Reached n pr (ok (some (r, pr.db))) s
      Reached-nothing n pr r s h = ([], tt, refl, none_within end_at, h)
        where
          none_within : (o : Option ℕ) → Within o n []
          none_within none = tt
          none_within (some last) = tt

      Returns-more :
          (n : ℕ) (o : Option SequenceNumber) (x : Commit) (xs : List Commit)
          (r : Result (Option SequenceNumber))
          → Returns (suc n) (some (last_sequence x)) xs r
          → Returns n o (x ∷ xs) r
      Returns-more n o x xs (ok q) (h, inl none_left) =
          (h, inl (subst (λ m. b.get_commit m s0 ≡ none) (omega arith) none_left))
      Returns-more n o x xs (ok q) (h, inr (last, e, le)) = (h, inr (last, e, omega (arith, le)))
      Returns-more n o x xs (raised e) h = tt

      Within-more :
          (end : Option ℕ) (n : ℕ) (x : Commit) (xs : List Commit)
          → goes_on Tables b c p registry end (suc n) ≡ true
          → Within end (suc n) xs
          → Within end n (x ∷ xs)
      unfolding goes_on
      Within-more none n x xs on h = tt
      Within-more (some last) n x [] on h = ground (arith, on)
      Within-more (some last) n x (y ∷ ys) on h = omega (arith, h)

      Reached-more :
          (n : ℕ) (pr : Progress Tables) (bytes : Bytes) (x : Commit) (db : Database Tables)
          (y : Result (Option (Outcome Tables))) (s : Store)
          → Goes n
          → from_msgpack c p bytes ≡ ok x
          → apply_commit Tables registry x pr.db ≡ (ok tt, db)
          → Reached (suc n) (record { db = db; last = some (last_sequence x) }) y s
          → b.get_commit (suc n) s ≡ some bytes
          → Reached n pr y s
      Reached-more n pr bytes x db (raised e) s on reads applied h there = h
      Reached-more n pr bytes x db (ok none) s on reads applied h there = tt
      Reached-more n pr bytes x db (ok (some (r, db'))) s on reads applied
            (xs, held, folded, within, last) there =
          (
            x ∷ xs,
            ((bytes, there, reads), held),
            ap (apply_rest (apply_all registry xs)) applied ∙ folded,
            Within-more end_at n x xs on within,
            Returns-more n pr.last x xs r last,
          )

      on_applied-Reached :
          (n : ℕ) (again : Rest Tables b c p registry) (x : Commit) (pr : Progress Tables)
          (bytes : Bytes) (a : Result (Unit {0}) × Database Tables)
          → Goes n
          → ((pr' : Progress Tables) → Goal (suc n) pr' again)
          → from_msgpack c p bytes ≡ ok x
          → apply_commit Tables registry x pr.db ≡ a
          → (a.0 ≡ ok tt) ⊎ (a.1 ≡ pr.db)
          → Ensures
              (grows b)
              (Next n bytes)
              (on_applied Tables b c p registry again x pr a)
              (Reached n pr)
      unfolding on_applied
      on_applied-Reached n again x pr bytes (raised e, db) on h reads applied (inl bad) =
          absurd (ground (arith, bad))
      on_applied-Reached n again x pr bytes (raised e, db) on h reads applied (inr same) =
          Ensures-pure (grows b) _ (λ s there.
            subst (λ d. Reached n pr (ok (some (raised replay_error, d))) s) (sym same)
              (Reached-nothing n pr (raised replay_error) s tt))
      on_applied-Reached n again x pr bytes (ok u, db) on h reads applied same =
          Ensures-weaken (grows b) _
            (Ensures-frame (grows b) _ (h (record { db = db; last = some (last_sequence x) }))
              (Next-stable n bytes))
            (λ s there. (there.1, there))
            (λ y s held. Reached-more n pr bytes x db y s on reads applied held.0 held.1.0)

      apply_commit_atomic :
          (x : Commit) (db : Database Tables)
          → ((apply_commit Tables registry x db).0 ≡ ok tt)
            ⊎ ((apply_commit Tables registry x db).1 ≡ db)
      unfolding apply_commit
      apply_commit_atomic x db = ground arith

      on_commit-Reached :
          (n : ℕ) (again : Rest Tables b c p registry) (pr : Progress Tables) (bytes : Bytes)
          (r : Result Commit)
          → Goes n
          → ((pr' : Progress Tables) → Goal (suc n) pr' again)
          → from_msgpack c p bytes ≡ r
          → Ensures
              (grows b)
              (Next n bytes)
              (on_commit Tables b c p registry again pr r)
              (Reached n pr)
      unfolding on_commit
      on_commit-Reached n again pr bytes (raised e) on h reads =
          Ensures-pure (grows b) _ (λ s there. Reached-nothing n pr (raised e) s tt)
      on_commit-Reached n again pr bytes (ok x) on h reads =
          on_applied-Reached n again x pr bytes (apply_commit Tables registry x pr.db) on h reads
            refl (apply_commit_atomic x pr.db)

      -- What a read of the next commit tells.
      abbrev Read : ℕ → Result (Option Bytes) → Store → Type 0
      Read n (ok (some bytes)) s = Next n bytes s
      Read n (ok none) s = Since s × (b.get_commit (suc n) s0 ≡ none)
      Read n (raised e) s = Since s

      -- What is not there now was not there at the start.
      was_absent :
          (n : ℕ) (s : Store)
          → Since s
          → b.get_commit (suc n) s ≡ none
          → b.get_commit (suc n) s0 ≡ none
      was_absent n s g h = elim (Option-cases (b.get_commit (suc n) s0)) [
        | inl free ↦ free
        | inr (bytes, there) ↦ absurd (ground (arith, h, g.0 (suc n) bytes there))
      ]

      Read-get_commit :
          (n : ℕ) (s : Store) (o : Option Bytes)
          → Since s
          → b.get_commit (suc n) s ≡ o
          → Read n (ok o) s
      Read-get_commit n s none g h = (g, was_absent n s g h)
      Read-get_commit n s (some bytes) g h = (h, g)

      on_data-Reached :
          (n : ℕ) (again : Rest Tables b c p registry) (pr : Progress Tables)
          (r : Result (Option Bytes))
          → Goes n
          → ((pr' : Progress Tables) → Goal (suc n) pr' again)
          → Ensures (grows b) (Read n r) (on_data Tables b c p registry again pr r) (Reached n pr)
      unfolding on_data
      on_data-Reached n again pr (raised e) on h =
          Ensures-pure (grows b) _ (λ s there. Reached-nothing n pr (raised e) s tt)
      on_data-Reached n again pr (ok none) on h = Ensures-pure (grows b) _ (λ s there.
          Reached-nothing n pr (ok pr.last) s
            (refl, inl (subst (λ m. b.get_commit m s0 ≡ none) (omega arith) there.1)))
      on_data-Reached n again pr (ok (some bytes)) on h =
          on_commit-Reached n again pr bytes (from_msgpack c p bytes) on h refl

      replay_step-Reached :
          (n : ℕ) (on : Bool) (again : Rest Tables b c p registry) (pr : Progress Tables)
          → goes_on Tables b c p registry end_at (suc n) ≡ on
          → ((pr' : Progress Tables) → Goal (suc n) pr' again)
          → Goal n pr (replay_step Tables b c p registry on (suc n) again)
      unfolding replay_step goes_on
      replay_step-Reached n false again pr off h =
          Ensures-pure (grows b) _
            (λ s t. Reached-nothing n pr (ok pr.last) s (refl, inr (past end_at off)))
        where
          past :
              (o : Option ℕ)
              → goes_on Tables b c p registry o (suc n) ≡ false
              → (last : ℕ) × (o ≡ some last) × (last ≤ n + 0)
          past none e = absurd (ground arith)
          past (some last) e = (last, refl, ground (arith, e))
      replay_step-Reached n true again pr on h =
          Ensures-try (grows b) (Read n) _ (on_data Tables b c p registry again pr)
            (λ s t g since. (grows b).trans since g) (λ s x. (grows b).here s)
            (λ s since. Read-get_commit n s (b.get_commit (suc n) s) since refl) (λ s since. since)
            (λ s since. since) (λ r. on_data-Reached n again pr r on h)

      replay_loop-Reached :
          (f n : ℕ) (pr : Progress Tables)
          → Goal n pr (replay_loop Tables b c p registry f end_at (suc n))
      unfolding replay_loop
      replay_loop-Reached zero n pr = Ensures-pure (grows b) _ (λ s t. tt)
      replay_loop-Reached (suc f) n pr =
          replay_step-Reached n (goes_on Tables b c p registry end_at (suc n))
            (replay_loop Tables b c p registry f end_at (suc (suc n))) pr refl
            (replay_loop-Reached f (suc n))

      -- While the log only grows, a replay after commit `after` leaves the database as it stands when
      -- the commits that follow have been applied in order, some number of them and each one whole,
      -- also when it ends by an exception; what it returns is the sequence number of the last event
      -- applied, or nothing.
      pub replay-Reached :
          (fuel after : ℕ) (db : Database Tables)
          → Ensures
              (grows b)
              Since
              (replay Tables b c p registry fuel db after end_at)
              (Reached after (record { db = db; last = none }))
      unfolding replay
      replay-Reached fuel after db =
          replay_loop-Reached fuel after (record { db = db; last = none })
