-- ===== src/Committer/Fetch.antt =====
-- What a committer knows of a growing log, and the reads that follow a lost race.
use cairndb.Prelude.{
  get_elem?, ℕ, zero, suc, ◌+◌, Bytes, ◌≡◌, refl, sym, ap, subst, ◌∙◌, ◌≢◌, inl, inr, Option,
  Bool-cases, ltb, none, some, List, [], ◌∷◌, ◌++◌, All, length, arith,
}
use cairndb.Core.Value.{Codec}
use cairndb.Core.Log.{Event, Commit, SequenceNumber, MsgPack, to_msgpack, from_msgpack, make_commit}
use cairndb.Storage.LogInterface.{LogStorage}
use cairndb.Storage.Effects.{Result, ok, Error, Io}
use cairndb.Storage.Rely.{
  Rely, IsStable, Ensures, Ensures-pure, Ensures-ask, Ensures-lift-bind, Ensures-bind,
}
use cairndb.Committer.{
  CommitterConfig, Pending, Resolution, Committer, fail_all, succeed_from, events_of, max_of,
  keep_commit, on_found, fetch,
}
use cairndb.Committer.Log.{
  IsDense, IsTail, IsTail-stable, grows, IsStored, AllDurable, AllDurable-stable,
}

pub make_commit-eq :
    (k t : ℕ) (es : List Event) (commit : Commit)
    → make_commit (suc k) t es ≡ ok commit
    → (commit.number ≡ suc k) × (commit.events ≡ es) × (es ≢ [])
unfolding make_commit
make_commit-eq k t [] commit h = absurd (ground arith)
make_commit-eq k t (e ∷ es) commit h = ground arith

-- What holds of the default and of the numbers holds of their greatest.
pub All-max_of : (P : ℕ → Type 0) (d : ℕ) (ns : List ℕ) → P d → All P ns → P (max_of d ns)
unfolding max_of
All-max_of P d [] h hs = h
All-max_of P d (n ∷ []) h hs = hs.0
All-max_of P d (n ∷ m ∷ ns) h hs = elim (Bool-cases (ltb (max_of d (m ∷ ns)) n)) [
  | inl less ↦ rw less hs.0
  | inr more ↦ rw more (All-max_of P d (m ∷ ns) h hs.1)
]

sequence-injective : {x y : SequenceNumber} → ◌≡◌ {A = Result SequenceNumber} (ok x) (ok y) → x ≡ y
sequence-injective e = cc

add_zero : (i : ℕ) → i + 0 ≡ i
add_zero i = omega arith

add_suc : (i j : ℕ) → suc i + j ≡ i + suc j
add_suc i j = omega arith

module _ (b : LogStorage) (c : Codec) (p : MsgPack) (config : CommitterConfig)
    (Fits : ℕ → Event → Type 0) where
  open b use {Store}

  abbrev pub R : Rely Store
  R = grows b

  abbrev pub Durable : List Resolution → Store → Type 0
  Durable = AllDurable b c p Fits

  abbrev pub AllFit : List Pending → Type 0
  AllFit = All (λ q. Fits q.future q.event)

  -- The tail that a committer knows is one.
  abbrev pub Knows : Option ℕ → Store → Type 0
  Knows none s = Unit {0}
  Knows (some k) s = IsTail b k s

  -- The tail hint and the known tail are right, what has been acknowledged is durable, and the log
  -- has no gap.
  abbrev pub IsGood : Committer → Store → Type 0
  IsGood cm s =
      Durable cm.resolved s × Knows cm.tail s × (IsTail b config.tail_hint s × IsDense b s)

  Knows-stable : (o : Option ℕ) → IsStable R (Knows o)
  Knows-stable none s t g h = tt
  Knows-stable (some k) s t g h = IsTail-stable b k s t g h

  pub IsGood-stable : (cm : Committer) → IsStable R (IsGood cm)
  IsGood-stable cm s t g h = (
    AllDurable-stable b c p Fits cm.resolved s t g h.0,
    Knows-stable cm.tail s t g h.1,
    (IsTail-stable b config.tail_hint s t g h.2.0, g.1 h.2.1),
  )

  pub Durable-append :
      (xs ys : List Resolution) (s : Store) → Durable xs s → Durable ys s → Durable (xs ++ ys) s
  Durable-append [] ys s hx hy = hy
  Durable-append (x ∷ xs) ys s hx hy = (hx.0, Durable-append xs ys s hx.1 hy)

  pub Durable-fail_all : (e : Error) (ps : List Pending) (s : Store) → Durable (fail_all e ps) s
  unfolding fail_all
  Durable-fail_all e [] s = tt
  Durable-fail_all e (q ∷ ps) s = ((λ x h. absurd (ground arith)), Durable-fail_all e ps s)

  -- The won put: each pending's event stands at its index of the commit.
  pub Durable-succeed_from :
      (k i : ℕ) (ps : List Pending) (commit : Commit) (s : Store)
      → b.get_commit (suc k) s ≡ some (to_msgpack c p commit)
      → from_msgpack c p (to_msgpack c p commit) ≡ ok commit
      → AllFit ps
      → ((j : ℕ) → get_elem? commit.events (i + j) ≡ get_elem? (events_of ps) j)
      → Durable (succeed_from (suc k) i ps) s
  unfolding succeed_from
  Durable-succeed_from k i [] commit s there reads fit same = tt
  Durable-succeed_from k i (q ∷ ps) commit s there reads fit same = (
    (λ x h.
        subst (λ y. IsStored b c p Fits q.future y s) (sequence-injective h)
          (record {
            bytes = to_msgpack c p commit;
            commit = commit;
            event = q.event;
            there = there;
            reads = reads;
            at = ap (get_elem? commit.events) (sym (add_zero i)) ∙ same 0;
            fits = fit.0;
          })),
    Durable-succeed_from k (suc i) ps commit s there reads fit.1
        (λ j. ap (get_elem? commit.events) (add_suc i j) ∙ same (suc j)),
  )

  abbrev pub Found : ℕ → Result (Option (List Commit)) → Store → Type 0
  Found k (ok (some commits)) s = IsTail b (k + length commits) s
  Found k _ s = Unit {0}

  abbrev Read : ℕ → Option Bytes → Store → Type 0
  Read k none s = IsTail b k s
  Read k (some x) s = IsTail b (suc k) s

  Read-get_commit : (k : ℕ) (s : Store) → IsTail b k s → Read k (b.get_commit (suc k) s) s
  Read-get_commit k s h = go (b.get_commit (suc k) s) refl
    where
      go : (x : Option Bytes) → b.get_commit (suc k) s ≡ x → Read k x s
      go none e = h
      go (some x) e = inr (x, e)

  keep_commit-Found :
      (k : ℕ) (commit : Commit) (x : Option (List Commit)) (s : Store)
      → Found (suc k) (ok x) s
      → Found k (ok (keep_commit b c p config commit x)) s
  unfolding keep_commit
  keep_commit-Found k commit none s h = tt
  keep_commit-Found k commit (some cs) s h = subst (λ m. IsTail b m s) (add_suc k (length cs)) h

  on_found-Found :
      (k : ℕ) (again : Io Store (Option (List Commit))) (x : Option Bytes)
      → Ensures R (IsTail b (suc k)) again (Found (suc k))
      → Ensures R (Read k x) (on_found b c p config again x) (Found k)
  unfolding on_found
  on_found-Found k again none h =
      Ensures-pure R _ (λ s t. subst (λ m. IsTail b m s) (sym (add_zero k)) t)
  on_found-Found k again (some bytes) h =
      Ensures-lift-bind R (from_msgpack c p bytes) _
        (λ commit e.
          Ensures-bind R again _ h (λ x. Ensures-pure R _ (λ s t. keep_commit-Found k commit x s t))
            (λ e' s t. tt))
        (λ e s f t. tt)

  pub fetch-Found : (f k : ℕ) → Ensures R (IsTail b k) (fetch b c p config f (suc k)) (Found k)
  unfolding fetch
  fetch-Found zero k = Ensures-pure R _ (λ s h. tt)
  fetch-Found (suc f) k =
      Ensures-ask R (Read k) _ (on_found b c p config (fetch b c p config f (suc (suc k))))
        (λ s t g h. IsTail-stable b k s t g h) (λ s h. R.here s) (λ s h. Read-get_commit k s h)
        (λ s. tt)
        (λ x. on_found-Found k (fetch b c p config f (suc (suc k))) x (fetch-Found f (suc k)))
