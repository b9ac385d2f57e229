-- ===== src/Client/Replay/Folds.antt =====
-- What a log makes of a database, said without the code: each event of each commit in its order, by the
-- handler of its type if there is one.
use cairndb.Prelude.{
  ℕ, suc, ◌-◌, Text, text_discrete, ite, ◌≡◌, refl, sym, ap, ◌∙◌, Option, none, some, List, [], ◌∷◌,
  length, arith,
}
use cairndb.Core.Results
use cairndb.Core.Log.{
  Event, SequencedEvent, SequenceNumber, Commit, sequence_from, sequenced_events, last_sequence,
}
use cairndb.Storage.Effects.{Result, ok, raised}
use cairndb.Client.Registry.{look_up, has_handler, get_handler}
use cairndb.Client.Replay.{
  Database, EventHandler, Registry, handled, apply_event, apply_events, apply_commit,
}
use cairndb.Client.Replay.Reaches.{apply_rest, apply_all, last_from}

-- The last event of the last commit, or `o` if there is no commit.
abbrev pub last_read : Option SequenceNumber → List Commit → Option SequenceNumber
last_read o [] = o
last_read o (x ∷ xs) =
    last_read (some (record { commit = x.number; index = length x.events - 1 })) xs

pub last_from-last_read :
    (Tables : Type 0) (o : Option SequenceNumber) (xs : List Commit)
    → last_from Tables o xs ≡ last_read o xs
unfolding last_sequence
last_from-last_read Tables o [] = refl
last_from-last_read Tables o (x ∷ xs) =
    last_from-last_read Tables (some (record { commit = x.number; index = length x.events - 1 })) xs

module _ (Tables : Type 0) where
  -- The first handler that is registered for the type.
  abbrev pub handler_of : Text → Registry Tables → Option (EventHandler Tables)
  handler_of t [] = none
  handler_of t ((u, h) ∷ hs) = ite (text_discrete u t) (some h) (handler_of t hs)

  handler_of-look_up : (t : Text) (hs : Registry Tables) → look_up t hs ≡ handler_of t hs
  unfolding look_up
  handler_of-look_up t [] = refl
  handler_of-look_up t ((u, h) ∷ hs) =
      ap (λ o. ite (text_discrete u t) (some h) o) (handler_of-look_up t hs)

  -- An event without a handler changes nothing; a handler's exception ends it all.
  abbrev pub event_effect : Option (EventHandler Tables) → SequencedEvent → Tables → Option Tables
  event_effect none e t = some t
  event_effect (some h) e t = elim (h t e) [ ok t' ↦ some t' | raised x ↦ none ]

  abbrev pub and_then : {A B : Type 0} → (A → Option B) → Option A → Option B
  and_then f none = none
  and_then f (some a) = f a

  -- The events of a commit of that number, from index `i` on.
  abbrev pub fold_events : Registry Tables → ℕ → ℕ → List Event → Tables → Option Tables
  fold_events registry n i [] t = some t
  fold_events registry n i (e ∷ es) t = and_then (fold_events registry n (suc i) es) (
      event_effect (handler_of e.event_type registry)
        (record { sequence = record { commit = n; index = i }; event = e }) t)

  -- The database remembers the last event of each commit.
  abbrev pub noted : Commit → Tables → Database Tables
  noted x t = record {
    tables = t;
    last_applied = some (record { commit = x.number; index = length x.events - 1 });
  }

  abbrev pub fold_commits :
      Registry Tables → List Commit → Database Tables → Option (Database Tables)
  fold_commits registry [] d = some d
  fold_commits registry (x ∷ xs) d =
      and_then (λ t. fold_commits registry xs (noted x t))
        (fold_events registry x.number 0 x.events d.tables)

  abbrev answer : {A : Type 0} → Result A → Option A
  answer (ok a) = some a
  answer (raised e) = none

  apply_event-effect :
      (registry : Registry Tables) (e : SequencedEvent) (t : Tables)
      → answer (apply_event Tables registry e t)
        ≡ event_effect (handler_of e.event.event_type registry) e t
  unfolding apply_event has_handler get_handler handled
  apply_event-effect registry e t =
      go (look_up e.event.event_type registry) refl
      ∙ ap (λ o. event_effect o e t) (handler_of-look_up e.event.event_type registry)
    where
      go :
          (o : Option (EventHandler Tables))
          → look_up e.event.event_type registry ≡ o
          → answer (apply_event Tables registry e t)
            ≡ event_effect (look_up e.event.event_type registry) e t
      go none h = rw (apply_event, has_handler, h) refl
      go (some f) h = rw (apply_event, has_handler, h) (rw (get_handler, h) (caught (f t e)))
        where
          caught :
              (r : Result Tables)
              → answer (handled Tables r) ≡ (elim r [ ok t' ↦ some t' | raised x ↦ none ])
          caught (ok t') = refl
          caught (raised x) = refl

  apply_events-fold :
      (registry : Registry Tables) (n i : ℕ) (es : List Event) (t : Tables)
      → answer (apply_events Tables registry (sequence_from n i es) t)
        ≡ fold_events registry n i es t
  unfolding apply_events sequence_from
  apply_events-fold registry n i [] t = refl
  apply_events-fold registry n i (e ∷ es) t =
      chained (apply_event Tables registry at t) (λ t'. apply_events-fold registry n (suc i) es t')
      ∙ ap (and_then (fold_events registry n (suc i) es)) (apply_event-effect registry at t)
    where
      at : SequencedEvent
      at = record { sequence = record { commit = n; index = i }; event = e }

      chained :
          (r : Result Tables)
          → ((t' : Tables)
              → answer (apply_events Tables registry (sequence_from n (suc i) es) t')
                ≡ fold_events registry n (suc i) es t')
          → answer (Results.◌>>=◌ r (apply_events Tables registry (sequence_from n (suc i) es)))
            ≡ and_then (fold_events registry n (suc i) es) (answer r)
      chained (ok t') h = h t'
      chained (raised x) h = refl

  -- The commits that the code has applied are those that are folded.
  pub apply_all-fold :
      (registry : Registry Tables) (xs : List Commit) (d d' : Database Tables)
      → apply_all Tables registry xs d ≡ ok d'
      → fold_commits registry xs d ≡ some d'
  unfolding apply_commit last_sequence sequenced_events
  apply_all-fold registry [] d d' h = ground (arith, h)
  apply_all-fold registry (x ∷ xs) d d' h =
      ap (and_then (λ t. fold_commits registry xs (noted x t)))
        (sym (apply_events-fold registry x.number 0 x.events d.tables))
      ∙ chosen (apply_events Tables registry (sequence_from x.number 0 x.events) d.tables) h
          (λ t. apply_all-fold registry xs (noted x t) d')
    where
      chosen :
          (r : Result Tables)
          → apply_rest Tables
              (apply_all Tables registry xs)
              (elim r [ raised e ↦ (raised e, d) | ok tables ↦ (ok tt, noted x tables) ])
            ≡ ok d'
          → ((t : Tables)
              → apply_all Tables registry xs (noted x t) ≡ ok d'
              → fold_commits registry xs (noted x t) ≡ some d')
          → and_then (λ t. fold_commits registry xs (noted x t)) (answer r) ≡ some d'
      chosen (ok t) e k = k t e
      chosen (raised y) e k = absurd (ground arith)
