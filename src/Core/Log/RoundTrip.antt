-- ===== src/Core/Log/RoundTrip.antt =====
-- A commit is read back from its bytes as it was written.
use cairndb.Prelude.{ℕ, ◌<◌, text_discrete, ◌≡◌, refl, ◌≢◌, List, [], ◌∷◌, arith}
use cairndb.Core.Value.{Packed, find, get_item, Codec}
use cairndb.Storage.Effects.{ok}
use cairndb.Core.Log.{
  Event, Commit, MsgPack, make_commit, to_dict, from_dict, to_dicts, from_dicts, to_msgpack,
  from_msgpack, unpack, from_unpacked, from_iso, as_text, as_number, as_items, dict_or_empty,
}

module _ (c : Codec) where
  from_iso-to_iso : (t : ℕ) → from_iso c (c.to_iso t) ≡ ok t
  unfolding from_iso
  from_iso-to_iso t = rw (c.from_iso-to_iso t, from_iso)

  -- An event is read back from its dict.
  pub from_dict-to_dict : (e : Event) → from_dict c (to_dict c e) ≡ ok e
  unfolding from_dict to_dict get_item find text_discrete dict_or_empty
  from_dict-to_dict e = rw (from_iso-to_iso e.timestamp)

  from_dicts-to_dicts : (es : List Event) → from_dicts c (to_dicts c es) ≡ ok es
  unfolding from_dicts to_dicts
  from_dicts-to_dicts [] = refl
  from_dicts-to_dicts (e ∷ es) = rw (from_dict-to_dict e, from_dicts-to_dicts es)

  make_commit_self :
      (commit : Commit)
      → 0 < commit.number
      → commit.events ≢ []
      → make_commit commit.number commit.created_at commit.events ≡ ok commit
  unfolding make_commit
  make_commit_self commit h ne = ground arith

  unpack-packb : (p : MsgPack) (v : Packed) → unpack c p (p.packb v) ≡ ok v
  unfolding unpack
  unpack-packb p v = rw (p.unpackb-packb v, unpack)

  -- A commit with a positive number and at least one event is read back from its bytes.
  pub from_msgpack-to_msgpack :
      (p : MsgPack) (commit : Commit)
      → 0 < commit.number
      → commit.events ≢ []
      → from_msgpack c p (to_msgpack c p commit) ≡ ok commit
  unfolding from_msgpack to_msgpack from_unpacked get_item find text_discrete as_number as_text
      as_items
  from_msgpack-to_msgpack p commit h ne =
      rw (unpack-packb p _, from_iso-to_iso commit.created_at, from_dicts-to_dicts commit.events)
        (make_commit_self commit h ne)
