-- ===== src/Tests/Lease.antt =====
-- Claims, leases and cooperative writes on a filesystem store.
use cairndb.Prelude.{
  ℕ, ◌+◌, Text, Bytes, codes, text_discrete, ◌≡◌, ◌≢◌, refl, ap, inl, inr, arith, Bool, true, false,
  Option, none, some, [], ◌∷◌,
}
use cairndb.Core.Value.{Value, null, boolean, num}
use cairndb.Storage.Interface.{BlobStorage}
use cairndb.Storage.Files.{Files, read_file}
use cairndb.Storage.Filesystem.{stored}
use cairndb.Storage.Filesystem.Contract.{files_storage, get_at}
use cairndb.Storage.Effects.{ok, World, cut_off}
use cairndb.Storage.Recorded.{History, each_write, recorded}
use cairndb.Storage.Rely.{Rely, Respects, Ensures}
use cairndb.Storage.Alone.{alone}
use cairndb.Storage.Writes.{written}
use cairndb.Engine.Keys.{check_key}
use cairndb.Engine.Claim.{claim_sync}
use cairndb.Engine.Claim.Settles.{immutable, Settled, claim_sync-Settled}
use cairndb.Engine.LeaseDoc.{LeaseDoc, doc_bytes, parse, parse-doc_bytes, is_expired, state_get}
use cairndb.Engine.Lease.{
  Lease, renew_sync, write_sync, update_state_sync, release_sync, guarded_put_sync,
}
use cairndb.Engine.Lease.Handle.{IsHandle}
use cairndb.Engine.Lease.Protocol.{protocol}
use cairndb.Engine.Lease.Absorbs.{stored_lease, guarded_put_sync-absorbs}
use cairndb.Engine.Lease.Owned.{Reports, guarded_put_sync-Reports}
use cairndb.Engine.Lease.Fenced.{IsFenced}
use cairndb.Engine.Lease.Methods.{
  Releases, Fails, renew_sync-Renews, release_sync-Releases, methods-Fails,
}
use cairndb.Engine.Acquire.{Request, new_lease, acquire_sync, apply_fn, check_ttl, is_held}
use cairndb.Engine.Acquire.Fences.{Reached, FencedBy, acquire_sync-fences, IsFenced-stable}
use cairndb.Engine.Acquire.Alone.{acquire_sync-creates, acquire_sync-refuses, acquire_sync-takes}
use cairndb.Engine.Acquire.Holderless.{rival, acquire_sync-holderless}
use cairndb.Tests.Codec.Instances.{codec}

abbrev pub files : BlobStorage
files = files_storage (λ x. x) (λ a b e. e)

abbrev pub anything : Rely (Option Value)
anything = record { rel = λ x y. Unit {0}; here = λ x. tt; trans = λ f g. tt }

abbrev key : Text
key = codes "state/run-1"

abbrev worker : Text
worker = codes "worker"

claim_sync-Settled_example :
    Ensures
      (immutable files key)
      (λ s. Unit {0})
      (claim_sync files codec key (num 7))
      (Settled files key codec)
unfolding check_key
claim_sync-Settled_example = claim_sync-Settled files key codec (num 7) refl

-- The lease of `worker` in its first epoch, until time 60.
abbrev content : Bytes
content = doc_bytes codec 1 (some worker) 60 null

abbrev lease : Lease
lease = record {
  key = key;
  ttl = 60;
  epoch = 1;
  holder = some worker;
  deadline_at = 60;
  state = null;
  etag = content;
  released = false;
}

lease-IsHandle : IsHandle files codec lease
lease-IsHandle = record {
  content = content;
  doc = record { epoch = 1; holder = some worker; deadline_at = 60; state = some null };
  same_etag = refl;
  parsed = parse-doc_bytes codec 1 (some worker) 60 null;
  same_epoch = refl;
  same_holder = refl;
  same_state = refl;
}

-- The same handle, on the files that are recorded.
recorded-IsHandle : IsHandle (recorded files) codec lease
recorded-IsHandle = record {
  content = content;
  doc = record { epoch = 1; holder = some worker; deadline_at = 60; state = some null };
  same_etag = refl;
  parsed = parse-doc_bytes codec 1 (some worker) 60 null;
  same_epoch = refl;
  same_holder = refl;
  same_state = refl;
}

-- The worker's lease document at time 5, with no write recorded, and another process that does nothing
-- before a call that fails.
abbrev held_world : World (Files × History Files)
held_world = record {
  store = ((key, content) ∷ [], []);
  clock = 5;
  turns = record { others = λ v. v; clock = 6; fate = cut_off } ∷ [];
}

renew_sync-Renews_example :
    let (x, w') = renew_sync (recorded files) codec lease held_world in
    (each_write files (protocol anything files codec key)).rel held_world.store w'.store
    × Respects (each_write files (protocol anything files codec key)) w'.turns
    × Reports (recorded files) codec anything lease (some worker) 65 (λ v. ok v) x w'.store
renew_sync-Renews_example =
    renew_sync-Renews files codec anything lease held_world recorded-IsHandle
      (λ v. (each_write files (protocol anything files codec key)).here v, tt)

guarded_put_sync-Reports_example :
    Ensures
      (each_write files (protocol anything files codec key))
      (λ s. Unit {0})
      (guarded_put_sync (recorded files) codec none 70 (λ v. ok (boolean true)) lease)
      (Reports (recorded files) codec anything lease none 70 (λ v. ok (boolean true)))
guarded_put_sync-Reports_example =
    guarded_put_sync-Reports files codec anything lease none 70 (λ v. ok (boolean true))
      (λ x v e. (inr refl, tt)) recorded-IsHandle

release_sync-Releases_example :
    Ensures
      (protocol anything files codec key)
      (λ s. Unit {0})
      (release_sync files codec (num 1) lease)
      (Releases files codec lease lease-IsHandle anything)
release_sync-Releases_example =
    release_sync-Releases files codec lease lease-IsHandle anything (num 1) (λ x v e. tt)

abbrev request : Request
request = record {
  key = key;
  ttl = 60;
  holder = some worker;
  steal_if_expired = true;
  state_fn = none;
}

methods-Fails_example :
    Ensures
      (protocol anything files codec key)
      (IsFenced files codec lease)
      (renew_sync files codec lease)
      (Fails files codec lease lease-IsHandle)
    × Ensures
        (protocol anything files codec key)
        (IsFenced files codec lease)
        (write_sync files codec (num 1) lease)
        (Fails files codec lease lease-IsHandle)
    × Ensures
        (protocol anything files codec key)
        (IsFenced files codec lease)
        (update_state_sync files codec (λ v. ok v) lease)
        (Fails files codec lease lease-IsHandle)
    × Ensures
        (protocol anything files codec key)
        (IsFenced files codec lease)
        (release_sync files codec (num 1) lease)
        (Fails files codec lease lease-IsHandle)
methods-Fails_example =
    methods-Fails files codec lease lease-IsHandle (protocol anything files codec key)
      (IsFenced-stable files codec anything request lease) (num 1) (λ v. ok v)

acquire_sync-fences_example :
    Ensures
      (each_write files (protocol anything files codec key))
      (Reached (recorded files) codec anything request 1)
      (acquire_sync (recorded files) codec request)
      (FencedBy (recorded files) codec anything request lease)
acquire_sync-fences_example = acquire_sync-fences files codec anything request lease refl

acquire_sync-creates_example :
    (etag : Text) × (s' : Files) × (acquire_sync files codec request (alone [] 5)
      ≡ (ok (some (new_lease request 1 65 null etag)), alone s' 5))
    × (get_at (λ x. x) key s' ≡ some (written files key (doc_bytes codec 1 (some worker) 65 null)))
unfolding check_key check_ttl apply_fn get_at read_file
acquire_sync-creates_example =
    acquire_sync-creates files codec request [] 5 refl refl null refl refl

-- The store that holds the worker's lease document.
abbrev held : Files
held = (key, content) ∷ []

abbrev lease_doc : LeaseDoc
lease_doc = record { epoch = 1; holder = some worker; deadline_at = 60; state = some null }

-- At time 59 the lease is the worker's, so it is refused.
acquire_sync-refuses_example :
    acquire_sync files codec request (alone held 59) ≡ (ok none, alone held 59)
unfolding check_key check_ttl get_at read_file stored text_discrete is_expired is_held
acquire_sync-refuses_example =
    acquire_sync-refuses files codec request held 59 refl refl
      (record { bytes = content; etag = content }) lease_doc refl
      (parse-doc_bytes codec 1 (some worker) 60 null) (worker, refl, inl (omega arith))

-- At time 60 it has expired, and is taken in epoch 2.
acquire_sync-takes_example :
    (etag : Text) × (s' : Files) × (acquire_sync files codec request (alone held 60)
      ≡ (ok (some (new_lease request 2 120 null etag)), alone s' 60))
    × (get_at (λ x. x) key s' ≡ some (written files key (doc_bytes codec 2 (some worker) 120 null)))
unfolding check_key check_ttl get_at read_file stored text_discrete is_expired is_held apply_fn
    state_get
acquire_sync-takes_example =
    acquire_sync-takes files codec request held 60 refl refl
      (record { bytes = content; etag = content }) lease_doc refl
      (parse-doc_bytes codec 1 (some worker) 60 null) null (inr (worker, refl, omega arith, refl))
      refl

-- The worker's document after a cooperative write of `true`.
abbrev written_content : Bytes
written_content = doc_bytes codec 1 (some worker) 60 (boolean true)

written_content-content : written_content ≢ content
written_content-content e = absurd (
    ground (
      arith,
      ap (parse codec) e,
      parse-doc_bytes codec 1 (some worker) 60 null,
      parse-doc_bytes codec 1 (some worker) 60 (boolean true),
    ))

guarded_put_sync-absorbs_example :
    (s' : Files) × (guarded_put_sync files codec none 70
        (λ v. ok v)
        lease
        (alone ((key, written_content) ∷ []) 9)
      ≡ (
        ok (ok tt, stored_lease files codec lease none 70 9 (λ v. ok v) (boolean true)),
        alone s' 9,
      ))
    × (get_at (λ x. x) key s' ≡ some (written files key (doc_bytes codec 1 none 70 (boolean true))))
unfolding get_at read_file stored text_discrete
guarded_put_sync-absorbs_example =
    guarded_put_sync-absorbs files codec lease none 70 9 (λ v. ok v) ((key, written_content) ∷ [])
      (record { bytes = written_content; etag = written_content })
      (record { epoch = 1; holder = some worker; deadline_at = 60; state = some (boolean true) })
      (boolean true) (boolean true) null refl refl written_content-content
      (parse-doc_bytes codec 1 (some worker) 60 (boolean true)) refl refl refl refl refl

abbrev nobody : Request
nobody = record request { holder = none }

acquire_sync-holderless_example :
    (l : Lease) × (s' : Files) × (acquire_sync files codec nobody (alone [] 5)
      ≡ (ok (some l), alone s' 5))
    × (l.deadline_at ≡ 65)
    × ((ttl t' : ℕ) (holder : Option Text) (steal : Bool)
        → check_ttl ttl ≡ ok tt
        → (l' : Lease) × (s'' : Files) × (acquire_sync files codec
              (rival nobody ttl holder steal)
              (alone s' t')
            ≡ (ok (some l'), alone s'' t'))
          × (l'.epoch ≡ l.epoch + 1))
unfolding check_key check_ttl get_at read_file
acquire_sync-holderless_example =
    acquire_sync-holderless files codec nobody [] 5 refl refl refl refl refl
