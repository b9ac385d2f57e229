-- ===== src/Committer/Once.antt =====
-- A batch sets each of its futures once.
use cairndb.Prelude.{
  ℕ, zero, suc, ◌+◌, ◌≤◌, ◌≡◌, refl, ap, ◌∙◌, inl, inr, Bool, true, false, Option, none, some, List,
  [], ◌∷◌, length, arith, ◌==◌, if◌then◌else◌, Bool-cases,
}
use cairndb.Core.Value.{Codec}
use cairndb.Core.Log.{Commit, MsgPack, make_commit, to_msgpack}
use cairndb.Storage.LogInterface.{LogStorage}
use cairndb.Storage.Effects.{
  Result, ok, raised, commit_error, World, Io, pure, now, call, attempt, ◌>>=◌, continue,
}
use cairndb.Committer.{
  CommitterConfig, Pending, Committer, Step, Hook, fail_all, succeed_from, resolve, events_of,
  sort_out, discover, known_tail, fetch, Attempts, go_on, apply_revalidation, revalidate,
  after_lost, after_put, try_commit, at_number, commit_loop,
}
use cairndb.Committer.Futures.{
  awaited, set, set-append, set-fail_all, set-succeed_from, awaited-sort_out,
}

-- Set once more for each time that it was awaited; after an exception, at most so often.
abbrev pub Once : List Pending → Committer → Result (Option (Step (Unit {0}))) → Type 0
Once ps cm (raised e) = Unit {0}
Once ps cm (ok none) = Unit {0}
Once ps cm (ok (some (ok x, cm'))) = (f : ℕ) → set f cm'.resolved ≡ awaited f ps + set f cm.resolved
Once ps cm (ok (some (raised e, cm'))) =
    (f : ℕ)
    → (set f cm.resolved ≤ set f cm'.resolved)
      × (set f cm'.resolved ≤ awaited f ps + set f cm.resolved)

Once-rest :
    (ps qs : List Pending) (cm cm' : Committer) (x : Result (Option (Step (Unit {0}))))
    → ((f : ℕ) → awaited f qs + set f cm'.resolved ≡ awaited f ps + set f cm.resolved)
    → ((f : ℕ) → set f cm.resolved ≤ set f cm'.resolved)
    → Once qs cm' x
    → Once ps cm x
Once-rest ps qs cm cm' (raised e) same more h = tt
Once-rest ps qs cm cm' (ok none) same more h = tt
Once-rest ps qs cm cm' (ok (some (ok x, cm''))) same more h = λ f. h f ∙ same f
Once-rest ps qs cm cm' (ok (some (raised e, cm''))) same more h =
    λ f. (omega (arith, (h f).0, more f), omega (arith, (h f).1, same f))

-- What a revalidation leaves to do, and to set.
abbrev Shared : List Pending → Committer → Step (List Pending) → Type 0
Shared ps cm (raised e, cm') = cm'.resolved ≡ cm.resolved
Shared ps cm (ok qs, cm') =
    (f : ℕ)
    → (awaited f qs + set f cm'.resolved ≡ awaited f ps + set f cm.resolved)
      × (set f cm.resolved ≤ set f cm'.resolved)

apply_revalidation-Shared :
    (h : Hook) (cm : Committer) (ps : List Pending) (cs : List Commit)
    → Shared ps cm (apply_revalidation h cm ps cs)
unfolding apply_revalidation
apply_revalidation-Shared h cm ps cs =
    elim (h (events_of ps) cs)
      as (λ x. Shared ps cm (elim x [
        | raised e ↦ (raised e, cm)
        | ok decisions ↦
            if length decisions == length ps
            then (let (kept, failed) = sort_out ps decisions in (ok kept, resolve cm failed))
            else (raised commit_error, cm)
      ])) [
        | raised e ↦ refl
        | ok ds ↦ elim (Bool-cases (length ds == length ps)) [
          | inl same ↦ rw same (λ f. (
            omega (
              arith,
              set-append f (sort_out ps ds).1 cm.resolved,
              awaited-sort_out f ps ds (ground (arith, same)),
            ),
            omega (arith, set-append f (sort_out ps ds).1 cm.resolved),
          ))
          | inr other ↦ rw other refl
        ]
      ]

module _ (b : LogStorage) (c : Codec) (p : MsgPack) (config : CommitterConfig) (hook : Option Hook)
    (fuel : ℕ) where
  open b use {Store}

  abbrev pub Loop : Type 0
  Loop = Attempts b c p config hook fuel

  abbrev pub AllOnce : Loop → Type 0
  AllOnce again =
      (cm : Committer) (ps : List Pending) (w : World Store) → Once ps cm (again cm ps w).0

  go_on-Once :
      (again : Loop) (ps : List Pending) (cm : Committer) (x : Step (List Pending))
      (w : World Store)
      → AllOnce again
      → Shared ps cm x
      → Once ps cm (go_on b c p config hook fuel again x w).0
  unfolding go_on pure
  go_on-Once again ps cm (raised e, cm') w h s =
      λ f. (omega (arith, ap (set f) s), omega (arith, ap (set f) s))
  go_on-Once again ps cm (ok [], cm') w h s = λ f. omega (arith, (s f).0)
  go_on-Once again ps cm (ok (q ∷ qs), cm') w h s =
      Once-rest ps (q ∷ qs) cm cm' _ (λ f. (s f).0) (λ f. (s f).1) (h cm' (q ∷ qs) w)

  revalidate-Once :
      (o : Option Hook) (again : Loop) (cm cm' : Committer) (ps : List Pending) (cs : List Commit)
      (w : World Store)
      → AllOnce again
      → cm'.resolved ≡ cm.resolved
      → Once ps cm (revalidate b c p config hook fuel o again cm' ps cs w).0
  unfolding revalidate
  revalidate-Once none again cm cm' ps cs w h e =
      Once-rest ps ps cm cm' _ (λ f. ap (λ rs. awaited f ps + set f rs) e)
        (λ f. omega (arith, ap (set f) e)) (h cm' ps w)
  revalidate-Once (some g) again cm cm' ps cs w h e =
      Once-rest ps ps cm cm' _ (λ f. ap (λ rs. awaited f ps + set f rs) e)
        (λ f. omega (arith, ap (set f) e))
        (go_on-Once again ps cm' (apply_revalidation g cm' ps cs) w h
          (apply_revalidation-Shared g cm' ps cs))

  after_lost-Once :
      (again : Loop) (cm : Committer) (ps : List Pending) (k : ℕ)
      (x : Result (Option (List Commit))) (w : World Store)
      → AllOnce again
      → Once ps cm (after_lost b c p config hook fuel again cm ps k x w).0
  unfolding after_lost pure
  after_lost-Once again cm ps k (raised e) w h = λ f. (omega arith, omega arith)
  after_lost-Once again cm ps k (ok none) w h = tt
  after_lost-Once again cm ps k (ok (some [])) w h = h cm ps w
  after_lost-Once again cm ps k (ok (some (y ∷ ys))) w h =
      revalidate-Once hook again cm (record cm { tail = some (k + length (y ∷ ys)) }) ps (y ∷ ys) w
        h refl

  after_put-Once :
      (again : Loop) (cm : Committer) (ps : List Pending) (k : ℕ) (x : Result Bool)
      (w : World Store)
      → AllOnce again
      → Once ps cm (after_put b c p config hook fuel again cm ps k x w).0
  unfolding after_put pure ◌>>=◌ attempt
  after_put-Once again cm ps k (raised e) w h = λ f.
      set-append f (fail_all e ps) cm.resolved
      ∙ ap (λ n. n + set f cm.resolved) (set-fail_all f e ps)
  after_put-Once again cm ps k (ok true) w h = λ f.
      set-append f (succeed_from (suc k) 0 ps) cm.resolved
      ∙ ap (λ n. n + set f cm.resolved) (set-succeed_from f (suc k) 0 ps)
  after_put-Once again cm ps k (ok false) w h =
      let (x, w') = fetch b c p config fuel (suc k) w in after_lost-Once again cm ps k x w' h

  try_commit-Once :
      (again : Loop) (cm : Committer) (ps : List Pending) (k : ℕ) (r : Result Commit)
      (w : World Store)
      → AllOnce again
      → Once ps cm (try_commit b c p config hook fuel again cm ps k r w).0
  unfolding try_commit pure ◌>>=◌ attempt
  try_commit-Once again cm ps k (raised e) w h = λ f. (omega arith, omega arith)
  try_commit-Once again cm ps k (ok commit) w h =
      let (x, w') = call (b.put_commit (suc k) (to_msgpack c p commit)) w in
      after_put-Once again cm ps k x w' h

  -- Asking for the tail sets no future.
  abbrev Unset : Committer → Result (Step ℕ) → Type 0
  Unset cm (raised e) = Unit {0}
  Unset cm (ok (r, cm')) = cm'.resolved ≡ cm.resolved

  known_tail-Unset : (cm : Committer) (w : World Store) → Unset cm (known_tail b c p config cm w).0
  unfolding known_tail discover pure ◌>>=◌ attempt
  known_tail-Unset cm w = by_tail cm.tail
    where
      found : (r : Result (List ℕ)) (w' : World Store) → Unset cm (discover b c p config cm r w').0
      found (raised e) w' = refl
      found (ok ns) w' = refl

      by_tail :
          (o : Option ℕ)
          → Unset cm
              (elim o as (λ o'. Io Store (Step ℕ)) [
                | some tail ↦ pure (ok tail, cm)
                | none ↦ do
                  commits ← attempt (call (λ s. (b.list_commits config.tail_hint s, s)))
                  discover b c p config cm commits
              ]
                w).0
      by_tail (some k) = refl
      by_tail none =
          let (r, w') = call (λ s. (b.list_commits config.tail_hint s, s)) w in found r w'

  at_number-Once :
      (again : Loop) (cm cm' : Committer) (ps : List Pending) (r : Result ℕ) (w : World Store)
      → AllOnce again
      → cm'.resolved ≡ cm.resolved
      → Once ps cm (at_number b c p config hook fuel again ps (r, cm') w).0
  unfolding at_number pure ◌>>=◌ now
  at_number-Once again cm cm' ps (raised e) w h s =
      λ f. (omega (arith, ap (set f) s), omega (arith, ap (set f) s))
  at_number-Once again cm cm' ps (ok k) w h s =
      Once-rest ps ps cm cm' _ (λ f. ap (λ rs. awaited f ps + set f rs) s)
        (λ f. omega (arith, ap (set f) s))
        (try_commit-Once again cm' ps k (make_commit (suc k) w.clock (events_of ps)) w h)

  pub commit_loop-Once : (n : ℕ) → AllOnce (commit_loop b c p config hook fuel n)
  unfolding commit_loop pure ◌>>=◌
  commit_loop-Once zero cm ps w = λ f.
      set-append f (fail_all commit_error ps) cm.resolved
      ∙ ap (λ n. n + set f cm.resolved) (set-fail_all f commit_error ps)
  commit_loop-Once (suc n) cm ps w =
      go (known_tail b c p config cm w).0 (known_tail b c p config cm w).1 (known_tail-Unset cm w)
        (commit_loop-Once n)
    where
      go :
          (x : Result (Step ℕ)) (w' : World Store)
          → Unset cm x
          → AllOnce (commit_loop b c p config hook fuel n)
          → Once ps cm
              (continue
                (at_number b c p config hook fuel (commit_loop b c p config hook fuel n) ps)
                x
                w').0
      go (raised e) w' s h = tt
      go (ok (r, cm')) w' s h = at_number-Once _ cm cm' ps r w' h s
