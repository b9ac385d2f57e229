-- ===== src/Committer/Batch.antt =====
-- The commit protocol of a batch, against any number of other writers.
use cairndb.Prelude.{
  get_elem?, ℕ, suc, ◌+◌, ◌≡◌, refl, sym, ap, ◌∙◌, ◌≢◌, inl, inr, Bool, true, false, Option, none,
  some, List, [], ◌∷◌, length, arith, ◌==◌, if◌then◌else◌,
}
use cairndb.Core.Value.{Codec}
use cairndb.Core.Log.{Event, Commit, MsgPack, to_msgpack}
use cairndb.Core.Log.RoundTrip.{from_msgpack-to_msgpack}
use cairndb.Storage.LogInterface.{LogStorage}
use cairndb.Storage.Effects.{Result, ok, raised, commit_error}
use cairndb.Storage.Rely.{
  IsStable, Ensures, Ensures-pure, Ensures-try, Ensures-frame, Ensures-attempt,
}
use cairndb.Committer.{
  CommitterConfig, Pending, Resolution, Committer, Step, Hook, fail_all, succeed_from, resolve,
  events_of, sort_out, apply_revalidation, Attempts, go_on, revalidate, after_lost, after_put,
  try_commit,
}
use cairndb.Committer.Log.{IsTail, IsTail-stable, grows, put-grows, put-IsThere}
use cairndb.Committer.Fetch.{
  Durable, AllFit, IsGood, IsGood-stable, Durable-append, Durable-fail_all, Durable-succeed_from,
  Found, fetch-Found,
}

zero_add : (j : ℕ) → 0 + j ≡ j
zero_add j = omega arith

module _ (b : LogStorage) (c : Codec) (p : MsgPack) (config : CommitterConfig)
    (Fits : ℕ → Event → Type 0) where
  open b use {Store}

  abbrev pub Good : Committer → Store → Type 0
  Good = IsGood b c p config Fits

  -- What an attempt must leave, for each way in which the loop can end. An exception of the batch is the
  -- outcome `r`, with the committer as it stands then.
  abbrev pub Leaves : Result (Option (Step (Unit {0}))) → Store → Type 0
  Leaves (raised e) s = ⊥
  Leaves (ok none) s = Unit {0}
  Leaves (ok (some (r, cm))) s = Good cm s

  Durable-sort_out :
      (ps : List Pending) (ds : List (Option Event)) (s : Store)
      → Durable b c p config Fits (sort_out ps ds).1 s
  unfolding sort_out
  Durable-sort_out [] ds s = tt
  Durable-sort_out (q ∷ ps) [] s = tt
  Durable-sort_out (q ∷ ps) (none ∷ ds) s =
      ((λ x h. absurd (ground arith)), Durable-sort_out ps ds s)
  Durable-sort_out (q ∷ ps) (some e ∷ ds) s = Durable-sort_out ps ds s

  pub Good-resolve :
      (cm : Committer) (rs : List Resolution) (s : Store)
      → Durable b c p config Fits rs s
      → Good cm s
      → Good (resolve cm rs) s
  Good-resolve cm rs s h g = (Durable-append b c p config Fits rs cm.resolved s h g.0, g.1, g.2)

  -- The hook keeps, in the place of each pending event, one that fits its future.
  abbrev pub IsFitting : Option Hook → Type 0
  IsFitting none = Unit {0}
  IsFitting (some h) =
      (ps : List Pending) (commits : List Commit) (ds : List (Option Event))
      → AllFit b c p config Fits ps
      → h (events_of ps) commits ≡ ok ds
      → AllFit b c p config Fits (sort_out ps ds).0

  module _ (hook : Option Hook) (fuel : ℕ) (fitting : IsFitting hook) where
    -- What is known of the attempts that are left.
    abbrev pub Carries : Attempts b c p config hook fuel → Type 0
    Carries again =
        (cm : Committer) (ps : List Pending)
        → AllFit b c p config Fits ps
        → Ensures (grows b) (Good cm) (again cm ps) Leaves

    abbrev Sorted : Step (List Pending) → Store → Type 0
    Sorted (raised e, cm) s = Good cm s
    Sorted (ok ps, cm) s = Good cm s × AllFit b c p config Fits ps

    go_on-Leaves :
        (again : Attempts b c p config hook fuel) (x : Step (List Pending))
        → Carries again
        → Ensures (grows b) (Sorted x) (go_on b c p config hook fuel again x) Leaves
    unfolding go_on
    go_on-Leaves again (raised e, cm) k = Ensures-pure (grows b) _ (λ s h. h)
    go_on-Leaves again (ok [], cm) k = Ensures-pure (grows b) _ (λ s h. h.0)
    go_on-Leaves again (ok (q ∷ qs), cm) k = record { at = λ w r h. (k cm (q ∷ qs) h.1).at w r h.0 }

    Sorted-apply_revalidation :
        (h : Hook) (cm : Committer) (ps : List Pending) (cs : List Commit) (s : Store)
        → ((ds : List (Option Event))
            → h (events_of ps) cs ≡ ok ds
            → AllFit b c p config Fits (sort_out ps ds).0)
        → Good cm s
        → Sorted (apply_revalidation h cm ps cs) s
    unfolding apply_revalidation
    Sorted-apply_revalidation h cm ps cs s fit g = decide (h (events_of ps) cs) refl
      where
        chosen :
            (ds : List (Option Event)) (x : Bool)
            → h (events_of ps) cs ≡ ok ds
            → Sorted
                (if x
                  then (ok (sort_out ps ds).0, resolve cm (sort_out ps ds).1)
                  else (raised commit_error, cm))
                s
        chosen ds true e =
            (Good-resolve cm (sort_out ps ds).1 s (Durable-sort_out ps ds s) g, fit ds e)
        chosen ds false e = g

        decide :
            (x : Result (List (Option Event)))
            → h (events_of ps) cs ≡ x
            → Sorted
                (elim x [
                  | raised e ↦ (raised e, cm)
                  | ok decisions ↦
                      if length decisions == length ps
                      then (let (kept, failed) = sort_out ps decisions in
                          (ok kept, resolve cm failed))
                      else (raised commit_error, cm)
                ])
                s
        decide (raised e) h' = g
        decide (ok ds) h' = chosen ds (length ds == length ps) h'

    revalidate-Leaves :
        (o : Option Hook) (again : Attempts b c p config hook fuel) (cm : Committer)
        (ps : List Pending) (cs : List Commit)
        → IsFitting o
        → Carries again
        → AllFit b c p config Fits ps
        → Ensures (grows b) (Good cm) (revalidate b c p config hook fuel o again cm ps cs) Leaves
    unfolding revalidate
    revalidate-Leaves none again cm ps cs f k fit = k cm ps fit
    revalidate-Leaves (some h) again cm ps cs f k fit = record {
      at = λ w r g.
          (go_on-Leaves again (apply_revalidation h cm ps cs) k).at w r
            (Sorted-apply_revalidation h cm ps cs w.store (λ ds e. f ps cs ds fit e) g);
    }

    after_lost-Leaves :
        (again : Attempts b c p config hook fuel) (cm : Committer) (ps : List Pending) (k : ℕ)
        (r : Result (Option (List Commit)))
        → Carries again
        → AllFit b c p config Fits ps
        → Ensures
            (grows b)
            (λ s. Found b c p config Fits k r s × Good cm s)
            (after_lost b c p config hook fuel again cm ps k r)
            Leaves
    unfolding after_lost
    after_lost-Leaves again cm ps k (raised e) carries fit = Ensures-pure (grows b) _ (λ s h. h.1)
    after_lost-Leaves again cm ps k (ok none) carries fit = Ensures-pure (grows b) _ (λ s h. tt)
    after_lost-Leaves again cm ps k (ok (some [])) carries fit = record {
      at = λ w r h. (carries cm ps fit).at w r h.1;
    }
    after_lost-Leaves again cm ps k (ok (some (x ∷ xs))) carries fit = record {
      at = λ w r h.
          (revalidate-Leaves hook again (record cm { tail = some (k + length (x ∷ xs)) }) ps
              (x ∷ xs) fitting carries fit).at
            w r (h.1.0, h.0, h.1.2);
    }

    -- The outcome of the put of a commit after tail `k`.
    abbrev Put : ℕ → Commit → Result Bool → Store → Type 0
    Put k commit (ok true) s = b.get_commit (suc k) s ≡ some (to_msgpack c p commit)
    Put k commit _ s = Unit {0}

    after_put-Leaves :
        (again : Attempts b c p config hook fuel) (cm : Committer) (ps : List Pending) (k : ℕ)
        (commit : Commit) (r : Result Bool)
        → Carries again
        → AllFit b c p config Fits ps
        → (commit.number ≡ suc k) × (commit.events ≡ events_of ps) × (events_of ps ≢ [])
        → Ensures
            (grows b)
            (λ s. Put k commit r s × (IsTail b k s × Good cm s))
            (after_put b c p config hook fuel again cm ps k r)
            Leaves
    unfolding after_put
    after_put-Leaves again cm ps k commit (raised e) carries fit made =
        Ensures-pure (grows b) _ (λ s h.
          Good-resolve cm (fail_all e ps) s (Durable-fail_all b c p config Fits e ps s) h.1.1)
    after_put-Leaves again cm ps k commit (ok true) carries fit made =
        Ensures-pure (grows b) _ (λ s h.
          Good-resolve (record cm { tail = some (suc k) }) (succeed_from (suc k) 0 ps) s
            (Durable-succeed_from b c p config Fits k 0 ps commit s h.0
              (from_msgpack-to_msgpack c p commit (omega arith) (λ e. made.2 (sym made.1 ∙ e))) fit
              (λ j. ap (get_elem? commit.events) (zero_add j) ∙ ap (λ es. get_elem? es j) made.1))
            (h.1.1.0, inr (to_msgpack c p commit, h.0), h.1.1.2))
    after_put-Leaves again cm ps k commit (ok false) carries fit made = record {
      at = λ w r h.
          (Ensures-attempt (grows b) _ _
              (Ensures-frame (grows b) _ (fetch-Found b c p config Fits fuel k)
                (IsGood-stable b c p config Fits cm))
              (λ x. after_lost-Leaves again cm ps k x carries fit)).at
            w r h.1;
    }

    pub try_commit-Leaves :
        (again : Attempts b c p config hook fuel) (cm : Committer) (ps : List Pending) (k : ℕ)
        (r : Result Commit)
        → Carries again
        → AllFit b c p config Fits ps
        → ((commit : Commit)
            → r ≡ ok commit
            → (commit.number ≡ suc k) × (commit.events ≡ events_of ps) × (events_of ps ≢ []))
        → Ensures
            (grows b)
            (λ s. IsTail b k s × Good cm s)
            (try_commit b c p config hook fuel again cm ps k r)
            Leaves
    unfolding try_commit
    try_commit-Leaves again cm ps k (raised e) carries fit made =
        Ensures-pure (grows b) _ (λ s h. h.1)
    try_commit-Leaves again cm ps k (ok commit) carries fit made =
        Ensures-try (grows b) (λ x s. Put k commit x s × (IsTail b k s × Good cm s)) _
          (after_put b c p config hook fuel again cm ps k) stays
          (λ s h. put-grows b k (to_msgpack c p commit) s h.0)
          (λ s h. (placed s, stays s (after s) (put-grows b k (to_msgpack c p commit) s h.0) h))
          (λ s h. (tt, h))
          (λ s h. (tt, stays s (after s) (put-grows b k (to_msgpack c p commit) s h.0) h))
          (λ x. after_put-Leaves again cm ps k commit x carries fit (made commit refl))
      where
        after : Store → Store
        after s = (b.put_commit (suc k) (to_msgpack c p commit) s).1

        stays : IsStable (grows b) (λ s. IsTail b k s × Good cm s)
        stays s t g h = (IsTail-stable b k s t g h.0, IsGood-stable b c p config Fits cm s t g h.1)

        placed :
            (s : Store)
            → Put k commit (ok (b.put_commit (suc k) (to_msgpack c p commit) s).0) (after s)
        placed s = elim (put-IsThere b k (to_msgpack c p commit) s) [
          | inl (won, there) ↦ rw won there
          | inr lost ↦ rw lost tt
        ]
