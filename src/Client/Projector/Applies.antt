-- ===== src/Client/Projector/Applies.antt =====
-- What an update that is told has applied: the commits of the log that follow its base.
use cairndb.Prelude.{
  ℕ, Text, Bytes, ◌≡◌, ◌≢◌, refl, ap, ◌∙◌, ◌⊎◌, inl, inr, Bool, true, false, Option, none, some,
  List, [], ◌∷◌, arith,
}
use cairndb.Core.Value.{Codec}
use cairndb.Core.Results.{ok-injective}
use cairndb.Core.Log.{SequenceNumber, Commit, MsgPack}
use cairndb.Jobs.Gc.{RetainedStorage}
use cairndb.Storage.Effects.{Result, ok, raised}
use cairndb.Storage.Rely.{
  Ensures, Ensures-pure, Ensures-bind, Ensures-call, Ensures-try, Ensures-attempt, Ensures-weaken,
}
use cairndb.Committer.Log.{grows}
use cairndb.Client.Discovery.{find_latest_snapshot, has_new_commits}
use cairndb.Client.Replay.{Database, Registry, Outcome}
use cairndb.Client.Replay.Reaches.{Holds, Complete, Reached, last_from, replay-Reached}
use cairndb.Client.Replay.Folds.{fold_commits, apply_all-fold}
use cairndb.Client.Projector.{
  Projection, new_database, get_current_sequence, commit_of, Update, Prepared, failed, on_last,
  atomic_swap, on_replayed, on_replay, prepare_local, on_snapshot, prepare_new_db, opened,
  on_prepared, update, on_poll, on_found, find_snapshot, apply_updates,
}
use cairndb.Client.Projector.Bases.{IsNew, new_database-IsNew}

abbrev pub applied_number : Option SequenceNumber → ℕ
applied_number none = 0
applied_number (some q) = q.commit

module _ (Tables : Type 0) (empty : Tables) (init_schema : Option (Tables → Result Tables))
    (b : RetainedStorage) (c : Codec) (p : MsgPack) (registry : Registry Tables) (schema : Text)
    (get_snapshot : Text → ℕ → b.log.Store → Option Bytes) (load : Bytes → Result (Database Tables))
    (pr : Projection Tables) (s0 : b.log.Store) where
  open b.log use {Store}

  abbrev Since : Store → Type 0
  Since s = (grows b.log).rel s0 s

  -- The update starts from the projection, after its last applied commit, or from a new database.
  abbrev pub FromLocal : ℕ → Database Tables → Type 0
  FromLocal after d =
      ((pr.db ≡ some d) × (after ≡ applied_number d.last_applied))
      ⊎ ((pr.db ≡ none) × IsNew Tables empty init_schema d × (after ≡ 0))

  -- It starts from the content of a snapshot, after the snapshot's number; nothing had been applied.
  abbrev pub FromSnapshot : ℕ → Database Tables → Type 0
  FromSnapshot after d =
      (get_current_sequence Tables pr ≡ none)
      × ((s : Store) × (bytes : Bytes) × Since s
          × (get_snapshot schema after s ≡ some bytes)
          × (load bytes ≡ ok d))

  -- The new projection is a base into which the commits after it have been folded, all that there were
  -- when the update began; it is a snapshot, or there is at least one commit.
  abbrev pub Applied : Projection Tables → Store → Type 0
  Applied pr' s =
      (after : ℕ) × (d0 d : Database Tables) × (xs : List Commit) × (FromSnapshot after d0
        ⊎ (FromLocal after d0 × (xs ≢ [])))
      × Holds Tables b.log c p after xs s
      × Complete Tables b.log c p registry s0 none after xs
      × (fold_commits Tables registry xs d0 ≡ some d)
      × (pr'.db ≡ some d)

  abbrev pub Applies : Result (Option (Update Tables)) → Store → Type 0
  Applies (ok (some (ok (true, q), pr'))) s = Applied pr' s
  Applies _ s = Unit {0}

  abbrev Start : Bool → ℕ → Database Tables → Type 0
  Start true after d = FromSnapshot after d
  Start false after d = FromLocal after d

  abbrev Prep : Prepared Tables → Type 0
  Prep (raised e, pr') = Unit {0}
  Prep (ok (after, bootstrapped), pr') =
      Start bootstrapped after
        (opened Tables empty init_schema b c p registry schema get_snapshot load pr')

  prepare_local-Prep : Prep (prepare_local Tables empty init_schema pr)
  unfolding prepare_local opened get_current_sequence commit_of
  prepare_local-Prep = go pr.db refl
    where
      number : (q : Option SequenceNumber) → commit_of Tables q ≡ applied_number q
      number none = refl
      number (some q) = refl

      made :
          (r : Result (Database Tables))
          → new_database Tables empty init_schema ≡ r
          → pr.db ≡ none
          → Prep (elim r [
            | raised e ↦ (
              raised e,
              record pr { new_db = some (record { tables = empty; last_applied = none }) },
            )
            | ok d ↦ (
              ok (commit_of Tables (get_current_sequence Tables pr), false),
              record pr { new_db = some d },
            )
          ])
      made (raised e) h free = tt
      made (ok d) h free = inr (free, new_database-IsNew Tables empty init_schema d h, rw free refl)

      go :
          (o : Option (Database Tables))
          → pr.db ≡ o
          → Prep (elim o [
            | some d ↦ (
              ok (commit_of Tables (get_current_sequence Tables pr), false),
              record pr { new_db = some d },
            )
            | none ↦ elim (new_database Tables empty init_schema) [
              | raised e ↦ (
                raised e,
                record pr { new_db = some (record { tables = empty; last_applied = none }) },
              )
              | ok d ↦ (
                ok (commit_of Tables (get_current_sequence Tables pr), false),
                record pr { new_db = some d },
              )
            ]
          ])
      go (some d) e = inl (
        e,
        ap (commit_of Tables) (ap (λ o. elim o [ none ↦ none | some x ↦ x.last_applied ]) e)
            ∙ number d.last_applied,
      )
      go none e = made (new_database Tables empty init_schema) refl e

  on_snapshot-Prep :
      (number : ℕ) (r : Result (Option Bytes)) (s : Store)
      → get_current_sequence Tables pr ≡ none
      → Since s
      → ((bytes : Bytes) → r ≡ ok (some bytes) → get_snapshot schema number s ≡ some bytes)
      → Prep
          (on_snapshot Tables empty init_schema b c p registry schema get_snapshot load number pr r)
  unfolding on_snapshot opened
  on_snapshot-Prep number (raised e) s bare g h = tt
  on_snapshot-Prep number (ok none) s bare g h = tt
  on_snapshot-Prep number (ok (some bytes)) s bare g h = loaded (load bytes) refl
    where
      loaded :
          (x : Result (Database Tables))
          → load bytes ≡ x
          → Prep (elim x [
            | raised e ↦ (raised e, pr)
            | ok d ↦ (ok (number, true), record pr { new_db = some d })
          ])
      loaded (raised e) l = tt
      loaded (ok d) l = (bare, (s, bytes, g, h bytes refl, l))

  on_replayed-Applies :
      (bootstrapped : Bool) (after : ℕ) (pr' : Projection Tables) (d0 : Database Tables)
      (o : Outcome Tables) (s : Store)
      → Start bootstrapped after d0
      → Reached Tables b.log c p registry s0 none after
          (record { db = d0; last = none })
          (ok (some o))
          s
      → Applies (ok (some (on_replayed Tables bootstrapped pr' o))) s
  unfolding on_replayed on_last atomic_swap failed
  on_replayed-Applies bootstrapped after pr' d0 (raised e, d) s start h = tt
  on_replayed-Applies true after pr' d0 (ok (some q), d) s start
        (xs, held, folded, within, (last, complete)) =
      (
        after,
        d0,
        d,
        xs,
        inl start,
        held,
        complete,
        apply_all-fold Tables registry xs d0 d folded,
        refl,
      )
  on_replayed-Applies false after pr' d0 (ok (some q), d) s start
        (xs, held, folded, within, (last, complete)) =
      (
        after,
        d0,
        d,
        xs,
        inr (start, some_applied xs last),
        held,
        complete,
        apply_all-fold Tables registry xs d0 d folded,
        refl,
      )
    where
      some_applied : (ys : List Commit) → some q ≡ last_from Tables none ys → ys ≢ []
      some_applied [] e = absurd (ground (arith, e))
      some_applied (y ∷ ys) e = λ x. cc
  on_replayed-Applies false after pr' d0 (ok none, d) s start h = tt
  on_replayed-Applies true after pr' d0 (ok none, d) s start
        (xs, held, folded, within, (last, complete)) =
      told d.last_applied
    where
      told :
          (q : Option SequenceNumber)
          → Applies (ok (some (on_last Tables (record pr' { new_db = some d }) q))) s
      told none = tt
      told (some q) = (
        after,
        d0,
        d,
        xs,
        inl start,
        held,
        complete,
        apply_all-fold Tables registry xs d0 d folded,
        refl,
      )

  abbrev Any : {A : Type 0} → Result A → Store → Type 0
  Any r s = Since s

  module _ (fuel : ℕ) where
    on_prepared-Applies :
        (x : Prepared Tables)
        → Prep x
        → Ensures
            (grows b.log)
            Since
            (on_prepared Tables empty init_schema b c p registry schema get_snapshot load fuel x)
            Applies
    unfolding on_prepared on_replay failed
    on_prepared-Applies (raised e, pr') h = Ensures-pure (grows b.log) _ (λ s g. tt)
    on_prepared-Applies (ok (after, bootstrapped), pr') h =
        Ensures-bind (grows b.log) _ _
          (replay-Reached Tables b.log c p registry s0 none fuel after
            (opened Tables empty init_schema b c p registry schema get_snapshot load pr'))
          (λ o. Ensures-pure (grows b.log) _ (λ s q. replayed o s q)) (λ e s q. tt)
      where
        replayed :
            (o : Option (Outcome Tables)) (s : Store)
            → Reached Tables b.log c p registry s0 none after
                (record {
                  db = opened Tables empty init_schema b c p registry schema get_snapshot load pr';
                  last = none;
                })
                (ok o)
                s
            → Applies (ok (on_replay Tables bootstrapped pr' o)) s
        replayed none s q = tt
        replayed (some o) s q = on_replayed-Applies bootstrapped after pr' _ o s h q

    abbrev Update_ : Option ℕ → Type 0
    Update_ snapshot =
        Ensures (grows b.log) Since
          (update Tables empty init_schema b c p registry schema get_snapshot load fuel pr snapshot)
          Applies

    abbrev Ready : Result (Prepared Tables) → Store → Type 0
    Ready (ok x) s = Prep x × Since s
    Ready (raised e) s = Unit {0}

    abbrev Snapshot : ℕ → Result (Option Bytes) → Store → Type 0
    Snapshot number r s =
        Since s
        × ((bytes : Bytes) → r ≡ ok (some bytes) → get_snapshot schema number s ≡ some bytes)

    prepare_new_db-Ready :
        (snapshot : Option ℕ)
        → ((number : ℕ) → snapshot ≡ some number → get_current_sequence Tables pr ≡ none)
        → Ensures
            (grows b.log)
            Since
            (prepare_new_db Tables empty init_schema b c p registry schema get_snapshot load pr
              snapshot)
            Ready
    unfolding prepare_new_db
    prepare_new_db-Ready none bare = Ensures-pure (grows b.log) _ (λ s g. (prepare_local-Prep, g))
    prepare_new_db-Ready (some number) bare =
        Ensures-try (grows b.log) (Snapshot number) _ _ (λ s t r g. (grows b.log).trans g r)
          (λ s g. (grows b.log).here s) (λ s g. (g, λ bytes e. ok-injective e))
          (λ s g. (g, λ bytes e. absurd (ground (arith, e))))
          (λ s g. (g, λ bytes e. absurd (ground (arith, e))))
          (λ r.
            Ensures-pure (grows b.log) _
              (λ s q. (on_snapshot-Prep number r s (bare number refl) q.0 q.1, q.0)))

    update-Applies :
        (snapshot : Option ℕ)
        → ((number : ℕ) → snapshot ≡ some number → get_current_sequence Tables pr ≡ none)
        → Update_ snapshot
    unfolding update
    update-Applies snapshot bare =
        Ensures-bind (grows b.log) _ _ (prepare_new_db-Ready snapshot bare)
          (λ x. record { at = λ w r h. (on_prepared-Applies x h.0).at w r h.1 }) (λ e s q. tt)

    on_poll-Applies :
        (r : Result Bool)
        → Ensures
            (grows b.log)
            Since
            (on_poll Tables empty init_schema b c p registry schema get_snapshot load fuel pr r)
            Applies
    unfolding on_poll
    on_poll-Applies (raised e) = Ensures-pure (grows b.log) _ (λ s g. tt)
    on_poll-Applies (ok false) = Ensures-pure (grows b.log) _ (λ s g. tt)
    on_poll-Applies (ok true) = update-Applies none (λ number e. absurd (ground (arith, e)))

    has_new_commits-Since :
        (current : Option SequenceNumber)
        → Ensures (grows b.log) Since (has_new_commits b.log current) Any
    unfolding has_new_commits
    has_new_commits-Since current =
        Ensures-bind (grows b.log) {Q = Any} _ _
          (Ensures-call (grows b.log) _ (λ s t r g. (grows b.log).trans g r)
            (λ s g. (grows b.log).here s) (λ s g. g) (λ s g. g) (λ s g. g))
          (λ x. Ensures-pure (grows b.log) _ (λ s g. g)) (λ e s g. g)

    -- A snapshot is found only if nothing has been applied.
    abbrev Found : Result (Option ℕ) → Store → Type 0
    Found r s =
        Since s × ((number : ℕ) → r ≡ ok (some number) → get_current_sequence Tables pr ≡ none)

    find_snapshot-Found :
        (current : Option SequenceNumber)
        → get_current_sequence Tables pr ≡ current
        → Ensures
            (grows b.log)
            Since
            (find_snapshot Tables empty init_schema b c p registry schema get_snapshot load current)
            Found
    unfolding find_snapshot find_latest_snapshot
    find_snapshot-Found (some q) e =
        Ensures-pure (grows b.log) _ (λ s g. (g, λ number e'. absurd (ground (arith, e'))))
    find_snapshot-Found none e =
        Ensures-bind (grows b.log) {Q = Any} _ _
          (Ensures-call (grows b.log) _ (λ s t r g. (grows b.log).trans g r)
            (λ s g. (grows b.log).here s) (λ s g. g) (λ s g. g) (λ s g. g))
          (λ x. Ensures-pure (grows b.log) _ (λ s g. (g, λ number e'. e)))
          (λ x s g. (g, λ number e'. e))

    on_found-Applies :
        (r : Result (Option ℕ))
        → Ensures
            (grows b.log)
            (Found r)
            (on_found Tables empty init_schema b c p registry schema get_snapshot load fuel pr r)
            Applies
    unfolding on_found
    on_found-Applies (raised e) = Ensures-pure (grows b.log) _ (λ s g. tt)
    on_found-Applies (ok (some number)) = record {
      at = λ w r g. (update-Applies (some number) (λ n e. g.1 number refl)).at w r g.0;
    }
    on_found-Applies (ok none) =
        Ensures-weaken (grows b.log) _
          (Ensures-attempt (grows b.log) _ _
            (has_new_commits-Since (get_current_sequence Tables pr)) on_poll-Applies)
          (λ s g. g.0) (λ x s q. q)

    pub apply_updates-Applies :
        Ensures
          (grows b.log)
          Since
          (apply_updates Tables empty init_schema b c p registry schema get_snapshot load fuel pr)
          Applies
    unfolding apply_updates
    apply_updates-Applies =
        Ensures-attempt (grows b.log) _ _
          (find_snapshot-Found (get_current_sequence Tables pr) refl) on_found-Applies
