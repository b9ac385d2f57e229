-- ===== src/Committer/Loop.antt =====
-- The attempts of a batch, one after the other, against any number of other writers.
use cairndb.Prelude.{
  ℕ, zero, suc, ◌<◌, ◌≡◌, refl, subst, inr, Option, none, some, List, [], ◌∷◌, All,
}
use cairndb.Core.Value.{Codec}
use cairndb.Core.Log.{Event, MsgPack, make_commit}
use cairndb.Storage.LogInterface.{LogStorage}
use cairndb.Storage.Effects.{Result, ok, raised, commit_error, pure, call, attempt, ◌>>=◌}
use cairndb.Storage.Rely.{Ensures, Ensures-pure, Ensures-try, Ensures-now-bind, Ensures-bind}
use cairndb.Committer.{
  CommitterConfig, Pending, Committer, Step, Hook, fail_all, events_of, max_of, discover,
  known_tail, Attempts, at_number, commit_loop,
}
use cairndb.Committer.Log.{IsThere, IsTail, grows}
use cairndb.Committer.Fetch.{
  make_commit-eq, All-max_of, Knows, AllFit, IsGood-stable, Durable-fail_all,
}
use cairndb.Committer.Batch.{Good, Leaves, Good-resolve, IsFitting, Carries, try_commit-Leaves}

module _ (b : LogStorage) (c : Codec) (p : MsgPack) (config : CommitterConfig)
    (Fits : ℕ → Event → Type 0) where
  open b use {Store}

  -- What asking for the tail leaves.
  abbrev Tailed : Result (Step ℕ) → Store → Type 0
  Tailed (raised e) s = ⊥
  Tailed (ok (raised e, cm)) s = Good b c p config Fits cm s
  Tailed (ok (ok k, cm)) s = IsTail b k s × Good b c p config Fits cm s

  abbrev Listed : Result (List ℕ) → Store → Type 0
  Listed (raised e) s = Unit {0}
  Listed (ok ns) s = All (λ n. IsThere b n s) ns

  listed-IsThere :
      (after : ℕ) (s : Store) (ns : List ℕ)
      → All (λ n. (after < n) × IsThere b n s) ns
      → All (λ n. IsThere b n s) ns
  listed-IsThere after s [] h = tt
  listed-IsThere after s (n ∷ ns) h = (h.0.1, listed-IsThere after s ns h.1)

  All-IsTail : (s : Store) (ns : List ℕ) → All (λ n. IsThere b n s) ns → All (λ n. IsTail b n s) ns
  All-IsTail s [] h = tt
  All-IsTail s (n ∷ ns) h = (inr h.0, All-IsTail s ns h.1)

  discover-Tailed :
      (cm : Committer) (r : Result (List ℕ))
      → Ensures
          (grows b)
          (λ s. Listed r s × Good b c p config Fits cm s)
          (discover b c p config cm r)
          Tailed
  unfolding discover
  discover-Tailed cm (raised e) = Ensures-pure (grows b) _ (λ s h. h.1)
  discover-Tailed cm (ok ns) =
      Ensures-pure (grows b) _ (λ s h. (tail s h, (h.1.0, tail s h, h.1.2)))
    where
      tail :
          (s : Store)
          → Listed (ok ns) s × Good b c p config Fits cm s
          → IsTail b (max_of config.tail_hint ns) s
      tail s h = All-max_of (λ n. IsTail b n s) config.tail_hint ns h.1.2.0 (All-IsTail s ns h.0)

  known_tail-Tailed :
      (cm : Committer)
      → Ensures (grows b) (Good b c p config Fits cm) (known_tail b c p config cm) Tailed
  unfolding known_tail
  known_tail-Tailed cm = by_tail cm.tail refl
    where
      known :
          (s : Store) (k : ℕ)
          → cm.tail ≡ some k
          → Good b c p config Fits cm s
          → Tailed (ok (ok k, cm)) s
      known s k e h = (subst (λ o. Knows b c p config Fits o s) e h.1, h)

      by_tail :
          (o : Option ℕ)
          → cm.tail ≡ o
          → Ensures
              (grows b)
              (Good b c p config Fits cm)
              (elim o [
                | some tail ↦ pure (ok tail, cm)
                | none ↦ do
                  commits ← attempt (call (λ s. (b.list_commits config.tail_hint s, s)))
                  discover b c p config cm commits
              ])
              Tailed
      by_tail (some k) e = Ensures-pure (grows b) _ (λ s h. known s k e h)
      by_tail none e =
          Ensures-try (grows b) (λ r s. Listed r s × Good b c p config Fits cm s) _
            (discover b c p config cm) (IsGood-stable b c p config Fits cm)
            (λ s h. (grows b).here s)
            (λ s h. (
              listed-IsThere config.tail_hint s (b.list_commits config.tail_hint s)
                  (b.listed config.tail_hint s h.2.1),
              h,
            ))
            (λ s h. (tt, h)) (λ s h. (tt, h)) (discover-Tailed cm)

  module _ (hook : Option Hook) (fuel : ℕ) (fitting : IsFitting b c p config Fits hook) where
    at_number-Leaves :
        (again : Attempts b c p config hook fuel) (ps : List Pending) (r : Result ℕ)
        (cm : Committer)
        → Carries b c p config Fits hook fuel fitting again
        → AllFit b c p config Fits ps
        → Ensures
            (grows b)
            (Tailed (ok (r, cm)))
            (at_number b c p config hook fuel again ps (r, cm))
            (Leaves b c p config Fits)
    unfolding at_number
    at_number-Leaves again ps (raised e) cm carries fit = Ensures-pure (grows b) _ (λ s h. h)
    at_number-Leaves again ps (ok k) cm carries fit = Ensures-now-bind (grows b) _ (λ t.
        try_commit-Leaves b c p config Fits hook fuel fitting again cm ps k
          (make_commit (suc k) t (events_of ps)) carries fit
          (λ commit e. make_commit-eq k t (events_of ps) commit e))

    pub commit_loop-Leaves :
        (n : ℕ) → Carries b c p config Fits hook fuel fitting (commit_loop b c p config hook fuel n)
    unfolding commit_loop
    commit_loop-Leaves zero cm ps fit = Ensures-pure (grows b) _ (λ s h.
        Good-resolve b c p config Fits cm (fail_all commit_error ps) s
          (Durable-fail_all b c p config Fits commit_error ps s) h)
    commit_loop-Leaves (suc n) cm ps fit =
        Ensures-bind (grows b) _ _ (known_tail-Tailed cm)
          (λ x.
            at_number-Leaves (commit_loop b c p config hook fuel n) ps x.0 x.1
              (commit_loop-Leaves n) fit)
          (λ e s h. h)
