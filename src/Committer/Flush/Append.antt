-- ===== src/Committer/Flush/Append.antt =====
-- Appending to the queue of the flusher.
use cairndb.Prelude.{
  ℕ, suc, ◌+◌, ◌≤◌, ◌<◌, ◌≡◌, refl, ap, inl, inr, true, false, List, [], ◌∷◌, ◌++◌, arith, length,
  ltb, ◌==◌, Bool-cases,
}
use cairndb.Core.Log.{Event}
use cairndb.Storage.Effects.{Result, ok, raised, commit_error}
use cairndb.Committer.{Pending}
use cairndb.Committer.Futures.{awaited, set, one_if}
use cairndb.Committer.Flush.{Flusher, pend, count, append_many}
use cairndb.Committer.Flush.Sets.{IsOnce}

awaited-append : (f : ℕ) (ps qs : List Pending) → awaited f (ps ++ qs) ≡ awaited f ps + awaited f qs
awaited-append f [] qs = omega arith
awaited-append f (p ∷ ps) qs = omega (arith, awaited-append f ps qs)

awaited-pend_below : (f n : ℕ) (es : List Event) → f < n → awaited f (pend n es) ≡ 0
unfolding pend
awaited-pend_below f n [] h = refl
awaited-pend_below f n (e ∷ es) h = ground (arith, awaited-pend_below f (suc n) es)

awaited-pend_above : (f n : ℕ) (es : List Event) → n + count es ≤ f → awaited f (pend n es) ≡ 0
unfolding pend count
awaited-pend_above f n [] h = refl
awaited-pend_above f n (e ∷ es) h = ground (arith, awaited-pend_above f (suc n) es)

awaited-pend : (f n : ℕ) (es : List Event) → awaited f (pend n es) ≤ 1
unfolding pend
awaited-pend f n [] = omega arith
awaited-pend f n (e ∷ es) = elim (Bool-cases (n == f)) [
  | inl same ↦ omega (arith, ap one_if same, awaited-pend_below f (suc n) es (ground (arith, same)))
  | inr other ↦ omega (arith, ap one_if other, awaited-pend f (suc n) es)
]

-- No future beyond those created waits or has been set, and nothing waits twice.
abbrev pub IsFlusher : Flusher → Type 0
IsFlusher fl =
    IsOnce fl × ((f : ℕ) → fl.created ≤ f → awaited f fl.pending + set f fl.committer.resolved ≡ 0)

-- The pendings are the events in their order, each with the future after the one before it.
abbrev pub AreQueued : ℕ → List Event → List Pending → Type 0
AreQueued n [] [] = Unit {0}
AreQueued n (e ∷ es) (p ∷ ps) = (p.event ≡ e) × (p.future ≡ n) × AreQueued (suc n) es ps
AreQueued n _ _ = ⊥

pend-AreQueued : (n : ℕ) (es : List Event) → AreQueued n es (pend n es)
unfolding pend
pend-AreQueued n [] = tt
pend-AreQueued n (e ∷ es) = (refl, refl, pend-AreQueued (suc n) es)

count-length : (es : List Event) → count es ≡ length es
unfolding count
count-length [] = refl
count-length (e ∷ es) = ap suc (count-length es)

-- What an append leaves: a future of its own for each event, in the order of the events, at the end
-- of the queue; or a closed flusher as it was.
abbrev pub Appended : List Event → Flusher → Result (List Pending) × Flusher → Type 0
Appended es fl (raised e, fl') = (e ≡ commit_error) × (fl.closed ≡ true) × (fl' ≡ fl)
Appended es fl (ok ps, fl') =
    (fl.closed ≡ false)
    × AreQueued fl.created es ps
    × (fl'.pending ≡ fl.pending ++ ps)
    × (fl'.created ≡ fl.created + length es)
    × (fl'.committer ≡ fl.committer)
    × IsFlusher fl'

-- An append to a flusher of which no future waits twice, or waits when it has been set, or is beyond
-- those created, leaves such a flusher, with the events at the end of its queue in their order, each
-- with a future that was not there; on a closed flusher it raises and changes nothing.
pub append_many-Appended :
    (es : List Event) (fl : Flusher) → IsFlusher fl → Appended es fl (append_many es fl)
unfolding append_many
append_many-Appended es fl (once, fresh) = elim (Bool-cases fl.closed) [
  | inl closed ↦ rw closed (refl, refl, refl)
  | inr open_ ↦ rw open_ (
    refl,
    pend-AreQueued fl.created es,
    refl,
    ap (λ n. fl.created + n) (count-length es),
    refl,
    (single, beyond),
  )
]
  where
    single :
        (f : ℕ) → awaited f (fl.pending ++ pend fl.created es) + set f fl.committer.resolved ≤ 1
    single f = elim (Bool-cases (ltb f fl.created)) [
      | inl old ↦ omega (
        arith,
        awaited-append f fl.pending (pend fl.created es),
        awaited-pend_below f fl.created es (ground (arith, old)),
        once f,
      )
      | inr later ↦ omega (
        arith,
        awaited-append f fl.pending (pend fl.created es),
        awaited-pend f fl.created es,
        fresh f (ground (arith, later)),
      )
    ]

    beyond :
        (f : ℕ)
        → fl.created + count es ≤ f
        → awaited f (fl.pending ++ pend fl.created es) + set f fl.committer.resolved ≡ 0
    beyond f h = omega (
      arith,
      awaited-append f fl.pending (pend fl.created es),
      awaited-pend_above f fl.created es h,
      fresh f (omega (arith, h)),
    )
