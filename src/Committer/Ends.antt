-- ===== src/Committer/Ends.antt =====
-- The reads of a lost race come to an end: while no commit is numbered above a limit, fuel of more
-- than the limit is enough for every attempt of a batch.
use cairndb.Prelude.{
  ℕ, zero, suc, ◌+◌, ◌<◌, Bytes, ◌≡◌, ◌⊎◌, inl, inr, Bool, true, false, Option, none, some, List,
  [], ◌∷◌, All, length, arith,
}
use cairndb.Core.Value.{Codec}
use cairndb.Core.Log.{Commit, MsgPack, make_commit, to_msgpack, from_msgpack}
use cairndb.Storage.LogInterface.{LogStorage}
use cairndb.Storage.Effects.{
  Result, ok, raised, Error, storage_error, Turn, World, Fate, answered, unreached, cut_off,
  deliver, Io, pure, lift, now, call, attempt, ◌>>=◌, continue,
}
use cairndb.Committer.{
  CommitterConfig, Pending, Committer, Step, Hook, events_of, discover, known_tail, keep_commit,
  on_found, fetch, Attempts, go_on, apply_revalidation, revalidate, after_lost, after_put,
  try_commit, at_number, commit_loop,
}
use cairndb.Committer.Log.{put-IsThere}

module _ (b : LogStorage) (limit : ℕ) where
  open b use {Store}

  -- No commit is numbered above the limit.
  abbrev pub IsBelow : Store → Type 0
  IsBelow s = (n : ℕ) → limit < n → b.get_commit n s ≡ none

  -- The others put no commit above the limit.
  abbrev pub KeepBelow : List (Turn Store) → Type 0
  KeepBelow = All (λ t. (s : Store) → IsBelow s → IsBelow (t.others s))

  abbrev pub IsCalm : World Store → Type 0
  IsCalm w = IsBelow w.store × KeepBelow w.turns

  pub record Ends {A : Type 0} (m : Io Store A) (Q : Result A → World Store → Type 0) : Type 0 where
    pub at : (w : World Store) → IsCalm w → Q (m w).0 (m w).1

  abbrev pub Calm : {A : Type 0} → Result A → World Store → Type 0
  Calm x w = IsCalm w

  -- Not out of fuel.
  abbrev pub Ended : {A : Type 0} → Result (Option A) → World Store → Type 0
  Ended (ok none) w = ⊥
  Ended x w = Unit {0}

  abbrev pub Fetched : {A : Type 0} → Result (Option A) → World Store → Type 0
  Fetched x w = Ended x w × IsCalm w

  pub Ends-pure :
      {A : Type 0} {Q : Result A → World Store → Type 0} (a : A)
      → ((w : World Store) → IsCalm w → Q (ok a) w)
      → Ends (pure a) Q
  unfolding pure
  Ends-pure a h = record { at = h }

  pub Ends-bind :
      {A B : Type 0} {Q : Result B → World Store → Type 0} (m : Io Store A) (k : A → Io Store B)
      → Ends m Calm
      → ((a : A) → Ends (k a) Q)
      → ((e : Error) (w : World Store) → IsCalm w → Q (raised e) w)
      → Ends (m >>= k) Q
  unfolding ◌>>=◌
  Ends-bind {A} {B} {Q} m k h rest failed = record {
    at = λ w calm. go (m w).0 (m w).1 (h.at w calm);
  }
    where
      go : (x : Result A) (w : World Store) → IsCalm w → Q (continue k x w).0 (continue k x w).1
      go (ok a) w calm = (rest a).at w calm
      go (raised e) w calm = failed e w calm

  pub Ends-attempt :
      {A B : Type 0} {P : Result A → World Store → Type 0} {Q : Result B → World Store → Type 0}
      (m : Io Store A) (k : Result A → Io Store B)
      → Ends m P
      → ((r : Result A) (w : World Store) → P r w → Q (k r w).0 (k r w).1)
      → Ends (attempt m >>= k) Q
  unfolding ◌>>=◌ attempt
  Ends-attempt m k h rest = record { at = λ w calm. rest (m w).0 (m w).1 (h.at w calm) }

  pub Ends-call :
      {A : Type 0} {Q : Result A → World Store → Type 0} (f : Store → A × Store)
      → ((w : World Store) → IsCalm w → Q (ok (f w.store).0) (record w { store = (f w.store).1 }))
      → ((w : World Store) → IsCalm w → Q (raised storage_error) w)
      → ((w : World Store)
          → IsCalm w
          → Q (raised storage_error) (record w { store = (f w.store).1 }))
      → Ends (call f) Q
  unfolding call
  Ends-call {A} {Q} f done missed lost = record {
    at = λ w calm. split w.turns w.clock w.store calm;
  }
    where
      faced : (w : World Store) (x : Fate) → IsCalm w → Q (deliver f w x).0 (deliver f w x).1
      faced w answered calm = done w calm
      faced w unreached calm = missed w calm
      faced w cut_off calm = lost w calm

      split :
          (ts : List (Turn Store)) (c : ℕ) (s : Store)
          → IsBelow s × KeepBelow ts
          → Q
              (call f (record { store = s; clock = c; turns = ts })).0
              (call f (record { store = s; clock = c; turns = ts })).1
      split [] c s calm = faced (record { store = s; clock = c; turns = [] }) answered calm
      split (t ∷ ts) c s calm =
          faced (record { store = t.others s; clock = t.clock; turns = ts }) t.fate
            (calm.1.0 s calm.0, calm.1.1)

  -- A call that only reads.
  pub Ends-read :
      {A B : Type 0} {Q : Result B → World Store → Type 0} (g : Store → A) (k : A → Io Store B)
      → ((s : Store) → IsBelow s → Ends (k (g s)) Q)
      → ((w : World Store) → IsCalm w → Q (raised storage_error) w)
      → Ends (call (λ s. (g s, s)) >>= k) Q
  unfolding ◌>>=◌
  Ends-read {A} {B} {Q} g k rest failed = record {
    at = λ w calm.
        (Ends-call {Q = λ x w'. Q (continue k x w').0 (continue k x w').1} (λ s. (g s, s))
            (λ w' calm'. (rest w'.store calm'.0).at w' calm') failed failed).at
          w calm;
  }

  module _ (c : Codec) (p : MsgPack) (config : CommitterConfig) where
    keep_commit-Fetched :
        (commit : Commit) (x : Option (List Commit)) (w : World Store)
        → Fetched (ok x) w
        → Fetched (ok (keep_commit b c p config commit x)) w
    unfolding keep_commit
    keep_commit-Fetched commit none w h = h
    keep_commit-Fetched commit (some cs) w h = h

    on_found-Fetched :
        (again : Io Store (Option (List Commit))) (x : Option Bytes)
        → (x ≡ none) ⊎ Ends again Fetched
        → Ends (on_found b c p config again x) Fetched
    unfolding on_found ◌>>=◌ lift pure
    on_found-Fetched again none h = Ends-pure _ (λ w calm. (tt, calm))
    on_found-Fetched again (some bytes) (inl e) = absurd (ground (arith, e))
    on_found-Fetched again (some bytes) (inr h) = parsed (from_msgpack c p bytes)
      where
        kept :
            (commit : Commit)
            → Ends (again >>= λ rest. pure (keep_commit b c p config commit rest)) Fetched
        kept commit = record { at = λ w calm. go (again w).0 (again w).1 (h.at w calm) }
          where
            go :
                (x : Result (Option (List Commit))) (w : World Store)
                → Fetched x w
                → Fetched
                    (continue (λ rest. pure (keep_commit b c p config commit rest)) x w).0
                    (continue (λ rest. pure (keep_commit b c p config commit rest)) x w).1
            go (ok x) w q = keep_commit-Fetched commit x w q
            go (raised e) w q = q

        parsed :
            (r : Result Commit)
            → Ends
                (lift r >>= λ commit. again >>= λ rest. pure (keep_commit b c p config commit rest))
                Fetched
        parsed (ok commit) = record { at = λ w calm. (kept commit).at w calm }
        parsed (raised e) = record { at = λ w calm. (tt, calm) }

    -- With fuel for every number up to the limit, the reads reach a gap.
    pub fetch-Fetched : (f n : ℕ) → limit < f + n → Ends (fetch b c p config (suc f) n) Fetched
    unfolding fetch
    fetch-Fetched zero n enough =
        Ends-read (b.get_commit n) (on_found b c p config (fetch b c p config zero (suc n)))
          (λ s h. on_found-Fetched _ (b.get_commit n s) (inl (h n (omega (arith, enough)))))
          (λ w calm. (tt, calm))
    fetch-Fetched (suc f) n enough =
        Ends-read (b.get_commit n) (on_found b c p config (fetch b c p config (suc f) (suc n)))
          (λ s h.
            on_found-Fetched _ (b.get_commit n s)
              (inr (fetch-Fetched f (suc n) (omega (arith, enough)))))
          (λ w calm. (tt, calm))

    module _ (hook : Option Hook) (fuel : ℕ) (enough : limit < fuel) where
      abbrev pub Attempt : Type 0
      Attempt = Attempts b c p config hook (suc fuel)

      abbrev pub AllEnd : Attempt → Type 0
      AllEnd again = (cm : Committer) (ps : List Pending) → Ends (again cm ps) Ended

      go_on-Ended :
          (again : Attempt) (x : Step (List Pending))
          → AllEnd again
          → Ends (go_on b c p config hook (suc fuel) again x) Ended
      unfolding go_on
      go_on-Ended again (raised e, cm) h = Ends-pure _ (λ w calm. tt)
      go_on-Ended again (ok [], cm) h = Ends-pure _ (λ w calm. tt)
      go_on-Ended again (ok (q ∷ qs), cm) h = record { at = λ w calm. (h cm (q ∷ qs)).at w calm }

      revalidate-Ended :
          (o : Option Hook) (again : Attempt) (cm : Committer) (ps : List Pending)
          (cs : List Commit)
          → AllEnd again
          → Ends (revalidate b c p config hook (suc fuel) o again cm ps cs) Ended
      unfolding revalidate
      revalidate-Ended none again cm ps cs h = h cm ps
      revalidate-Ended (some f) again cm ps cs h =
          go_on-Ended again (apply_revalidation f cm ps cs) h

      after_lost-Ended :
          (again : Attempt) (cm : Committer) (ps : List Pending) (k : ℕ)
          (x : Result (Option (List Commit))) (w : World Store)
          → AllEnd again
          → Fetched x w
          → Ended
              (after_lost b c p config hook (suc fuel) again cm ps k x w).0
              (after_lost b c p config hook (suc fuel) again cm ps k x w).1
      unfolding after_lost pure
      after_lost-Ended again cm ps k (raised e) w h q = tt
      after_lost-Ended again cm ps k (ok none) w h q = q.0
      after_lost-Ended again cm ps k (ok (some [])) w h q = (h cm ps).at w q.1
      after_lost-Ended again cm ps k (ok (some (y ∷ ys))) w h q =
          (revalidate-Ended hook again (record cm { tail = some (k + length (y ∷ ys)) }) ps (y ∷ ys)
              h).at
            w q.1

      -- A put that lost has left the store as it was.
      abbrev Lost : Result Bool → World Store → Type 0
      Lost (ok false) w = IsCalm w
      Lost x w = Unit {0}

      after_put-Ended :
          (again : Attempt) (cm : Committer) (ps : List Pending) (k : ℕ) (x : Result Bool)
          (w : World Store)
          → AllEnd again
          → Lost x w
          → Ended
              (after_put b c p config hook (suc fuel) again cm ps k x w).0
              (after_put b c p config hook (suc fuel) again cm ps k x w).1
      unfolding after_put pure
      after_put-Ended again cm ps k (raised e) w h q = tt
      after_put-Ended again cm ps k (ok true) w h q = tt
      after_put-Ended again cm ps k (ok false) w h q =
          (Ends-attempt {Q = Ended} _ (after_lost b c p config hook (suc fuel) again cm ps k)
              (fetch-Fetched fuel (suc k) (omega (arith, enough)))
              (λ y v. after_lost-Ended again cm ps k y v h)).at
            w q

      try_commit-Ended :
          (again : Attempt) (cm : Committer) (ps : List Pending) (k : ℕ) (r : Result Commit)
          → AllEnd again
          → Ends (try_commit b c p config hook (suc fuel) again cm ps k r) Ended
      unfolding try_commit
      try_commit-Ended again cm ps k (raised e) h = Ends-pure _ (λ w calm. tt)
      try_commit-Ended again cm ps k (ok commit) h =
          Ends-attempt {P = Lost} _ (after_put b c p config hook (suc fuel) again cm ps k)
            (Ends-call (b.put_commit (suc k) (to_msgpack c p commit)) put (λ w calm. tt)
              (λ w calm. tt))
            (λ x w. after_put-Ended again cm ps k x w h)
        where
          put :
              (w : World Store)
              → IsCalm w
              → Lost
                  (ok (b.put_commit (suc k) (to_msgpack c p commit) w.store).0)
                  (record w { store = (b.put_commit (suc k) (to_msgpack c p commit) w.store).1 })
          put w calm = elim (put-IsThere b k (to_msgpack c p commit) w.store) [
            | inl (won, there) ↦ rw won tt
            | inr lost ↦ rw lost calm
          ]

      at_number-Ended :
          (again : Attempt) (ps : List Pending) (r : Result ℕ) (cm : Committer)
          → AllEnd again
          → Ends (at_number b c p config hook (suc fuel) again ps (r, cm)) Ended
      unfolding at_number ◌>>=◌ now
      at_number-Ended again ps (raised e) cm h = Ends-pure _ (λ w calm. tt)
      at_number-Ended again ps (ok k) cm h = record {
        at = λ w calm.
            (try_commit-Ended again cm ps k (make_commit (suc k) w.clock (events_of ps)) h).at w
              calm;
      }

      known_tail-Calm : (cm : Committer) → Ends (known_tail b c p config cm) Calm
      unfolding known_tail discover pure
      known_tail-Calm cm = by_tail cm.tail
        where
          found :
              (r : Result (List ℕ)) (w : World Store)
              → IsCalm w
              → IsCalm (discover b c p config cm r w).1
          found (raised e) w calm = calm
          found (ok ns) w calm = calm

          by_tail :
              (o : Option ℕ)
              → Ends {A = Step ℕ}
                  (elim o [
                    | some tail ↦ pure (ok tail, cm)
                    | none ↦ do
                      commits ← attempt (call (λ s. (b.list_commits config.tail_hint s, s)))
                      discover b c p config cm commits
                  ])
                  Calm
          by_tail (some k) = Ends-pure _ (λ w calm. calm)
          by_tail none =
              Ends-attempt {P = Calm} _ (discover b c p config cm)
                (Ends-call _ (λ w calm. calm) (λ w calm. calm) (λ w calm. calm)) found

      pub commit_loop-Ended : (n : ℕ) → AllEnd (commit_loop b c p config hook (suc fuel) n)
      unfolding commit_loop
      commit_loop-Ended zero cm ps = Ends-pure _ (λ w calm. tt)
      commit_loop-Ended (suc n) cm ps =
          Ends-bind _ _ (known_tail-Calm cm)
            (λ x.
              at_number-Ended (commit_loop b c p config hook (suc fuel) n) ps x.0 x.1
                (commit_loop-Ended n))
            (λ e w calm. tt)
