-- ===== src/Tests/Log.antt =====
-- A commit log that meets the contract, and runs of the commit protocol on it.
use cairndb.Prelude.{
  ℕ, ◌<◌, Bytes, ◌≡◌, refl, ◌∙◌, ◌≢◌, inl, inr, Bool, true, false, Option, none, some, List, [],
  ◌∷◌, All, arith, codes, ite, ltb, if◌then◌else◌, Bool-cases,
}
use native.Mathlib.Decide.{ℕ_discrete}
use cairndb.Core.Log.{Event, Commit, from_msgpack, to_msgpack}
use cairndb.Core.Log.RoundTrip.{from_msgpack-to_msgpack}
use cairndb.Core.Value.{end}
use cairndb.Storage.LogInterface.{LogStorage}
use cairndb.Storage.Effects.{ok, World, Turn, answered}
use cairndb.Committer.{CommitterConfig, Committer, Pending, commit_batch}
use cairndb.Committer.Log.{IsDense, grows, put-grows}
use cairndb.Committer.Durable.{Settled, commit_batch-Settled}
use cairndb.Committer.Ends.{IsBelow}
use cairndb.Committer.Flush.{Flusher, flush, append_many}
use cairndb.Committer.Flush.Sets.{IsOnce, Flushed, flush-Flushed}
use cairndb.Committer.Flush.Append.{IsFlusher, Appended, append_many-Appended}
use cairndb.Tests.Codec.Instances.{codec, msgpack}

abbrev pub Slots : Type 0
Slots = List (ℕ × Bytes)

unfoldable pub slot : ℕ → Slots → Option Bytes
slot n [] = none
slot n ((m, x) ∷ s) = ite (ℕ_discrete m n) (some x) (slot n s)

pub fill : ℕ → Bytes → Slots → Bool × Slots
fill n bytes s = elim (slot n s) [ some x ↦ (false, s) | none ↦ (true, (n, bytes) ∷ s) ]

pub above : ℕ → Slots → List ℕ
above after [] = []
above after ((m, x) ∷ s) = let rest = above after s in if ltb after m then m ∷ rest else rest

pub fill_new :
    (n : ℕ) (bytes : Bytes) (s : Slots)
    → slot n s ≡ none
    → ((fill n bytes s).0 ≡ true) × (slot n (fill n bytes s).1 ≡ some bytes)
unfolding fill slot
fill_new n bytes s h = ground arith

pub fill_taken :
    (n : ℕ) (bytes x : Bytes) (s : Slots) → slot n s ≡ some x → fill n bytes s ≡ (false, s)
unfolding fill
fill_taken n bytes x s h = ground (arith, h)

pub fill_other :
    (n m : ℕ) (bytes : Bytes) (s : Slots) → n ≢ m → slot m (fill n bytes s).1 ≡ slot m s
unfolding fill slot
fill_other n m bytes s h = ground arith

abbrev IsListed : ℕ → Slots → ℕ → Type 0
IsListed after s n = (after < n) × ((x : Bytes) × (slot n s ≡ some x))

found_later :
    (n m : ℕ) (x : Bytes) (s : Slots)
    → ((y : Bytes) × (slot n s ≡ some y))
    → ((y : Bytes) × (slot n ((m, x) ∷ s) ≡ some y))
unfolding slot
found_later n m x s (y, h) = elim (ℕ_discrete m n) [
  | yes p ↦ (x, ground (arith, p))
  | no p ↦ (y, ground (arith, p, h))
]

IsListed-later :
    (after m : ℕ) (x : Bytes) (s : Slots) (ns : List ℕ)
    → All (IsListed after s) ns
    → All (IsListed after ((m, x) ∷ s)) ns
IsListed-later after m x s [] h = tt
IsListed-later after m x s (n ∷ ns) h =
    ((h.0.0, found_later n m x s h.0.1), IsListed-later after m x s ns h.1)

here : (m : ℕ) (x : Bytes) (s : Slots) → slot m ((m, x) ∷ s) ≡ some x
unfolding slot
here m x s = ground arith

pub above-IsListed : (after : ℕ) (s : Slots) → All (IsListed after s) (above after s)
unfolding above
above-IsListed after [] = tt
above-IsListed after ((m, x) ∷ s) =
    let rest = IsListed-later after m x s (above after s) (above-IsListed after s) in
    elim (Bool-cases (ltb after m)) [
      | inl less ↦ rw less ((ground (arith, less), (x, here m x s)), rest)
      | inr more ↦ rw more rest
    ]

abbrev pub log : LogStorage
log = record {
  Store = Slots;
  get_commit = slot;
  put_commit = fill;
  list_commits = above;
  put_new = fill_new;
  put_taken = fill_taken;
  put_other = fill_other;
  listed = λ after s d. above-IsListed after s;
}

abbrev pub sent : Event
sent = record {
  event_type = codes "order_placed";
  timestamp = 5;
  payload = end;
  schema_version = codes "1";
  metadata = end;
}

abbrev pub winner : Commit
winner = record { number = 1; created_at = 4; events = sent ∷ [] }

abbrev pub winner_bytes : Bytes
winner_bytes = to_msgpack codec msgpack winner

-- Another writer takes commit 1 while the committer is about to put it.
abbrev pub race : Turn Slots
race = record { others = λ s. (fill 1 winner_bytes s).1; clock = 6; fate = answered }

abbrev pub start : World Slots
start = record { store = []; clock = 5; turns = race ∷ [] }

abbrev pub config : CommitterConfig
config = record { max_events_per_commit = 1000; max_commit_attempts = 3; tail_hint = 0 }

abbrev pub fresh : Committer
fresh = record { tail = none; resolved = [] }

abbrev pub waiting : Pending
waiting = record { event = sent; future = 8 }

abbrev pub Asked : ℕ → Event → Type 0
Asked future e = (future ≡ 8) × (e.event_type ≡ codes "order_placed")

pub empty-IsDense : IsDense log []
unfolding slot
empty-IsDense n (x, e) = absurd (ground (arith, e))

pub empty-IsBelow : IsBelow log 1 []
unfolding slot
empty-IsBelow n h = refl

pub race-IsBelow : (s : Slots) → IsBelow log 1 s → IsBelow log 1 (fill 1 winner_bytes s).1
race-IsBelow s h n l = fill_other 1 n winner_bytes s (λ e. ground (arith, e)) ∙ h n l

commit_batch-Settled_example :
    let x = commit_batch log codec msgpack config none 3 fresh (waiting ∷ []) start in
    (grows log).rel [] x.1.store
    × IsDense log x.1.store
    × Settled log codec msgpack config Asked x.0 x.1.store
commit_batch-Settled_example =
    commit_batch-Settled log codec msgpack config Asked none 1 2 fresh (waiting ∷ []) start
      (omega arith) tt ((refl, refl), tt) ((λ s. put-grows log 0 winner_bytes s (inl refl)), tt)
      (race-IsBelow, tt) empty-IsBelow (tt, tt, (inl refl, empty-IsDense))

from_msgpack-to_msgpack_example : from_msgpack codec msgpack winner_bytes ≡ ok winner
from_msgpack-to_msgpack_example =
    from_msgpack-to_msgpack codec msgpack winner (omega arith) (λ e. ground (arith, e))

-- Two events wait, and one of them is all that a batch takes.
abbrev flusher : Flusher
flusher = record {
  committer = fresh;
  pending = record { event = sent; future = 8 } ∷ record { event = sent; future = 9 } ∷ [];
  closed = false;
  created = 10;
}

abbrev one_each : CommitterConfig
one_each = record { max_events_per_commit = 1; max_commit_attempts = 3; tail_hint = 0 }

abbrev Ordered : ℕ → Event → Type 0
Ordered future e = e.event_type ≡ codes "order_placed"

flusher-IsOnce : IsOnce flusher
flusher-IsOnce f = elim (ℕ_discrete 8 f) [ yes p ↦ ground (arith, p) | no p ↦ ground (arith, p) ]

flusher-IsFlusher : IsFlusher flusher
flusher-IsFlusher = (flusher-IsOnce, λ f h. ground (arith, h))

flush-Flushed_example :
    let x = flush log codec msgpack one_each none 3 flusher start in
    (grows log).rel [] x.1.store
    × IsDense log x.1.store
    × Flushed log codec msgpack one_each Ordered flusher x.0 x.1.store
flush-Flushed_example =
    flush-Flushed log codec msgpack one_each Ordered none 2 flusher 1 start (omega arith) tt
      (refl, (refl, tt)) flusher-IsOnce ((λ s. put-grows log 0 winner_bytes s (inl refl)), tt)
      (race-IsBelow, tt) empty-IsBelow (tt, tt, (inl refl, empty-IsDense))

append_many-Appended_example : Appended (sent ∷ []) flusher (append_many (sent ∷ []) flusher)
append_many-Appended_example = append_many-Appended (sent ∷ []) flusher flusher-IsFlusher
