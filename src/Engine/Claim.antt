-- ===== src/Engine/Claim.antt =====
-- src/cairndb/engine/coordination.py: `claim_sync`, the unique constraint.
pub mod Settles
use cairndb.Prelude.{ℕ, zero, suc, Text, Bool, true, false, Option, none, some}
use cairndb.Core.Value.{Value, Codec, decode}
use cairndb.Storage.Interface.{BlobStorage, StoredObject}
use cairndb.Storage.Effects.{
  Io, cairndb_error, pure, raise, lift, get_object, put_object, ◌>>=◌, ◌>>◌,
}
use cairndb.Engine.Keys.{check_key}

pub record ClaimResult : Type 0 where
  pub won : Bool
  pub key : Text
  pub value : Value
  pub etag : Text

abbrev pub acquire_attempts : ℕ
acquire_attempts = 8

module _ (b : BlobStorage) (c : Codec) where
  open b use {Store}

  -- The end of an attempt whose put was refused: `again` is the next attempt.
  unfoldable pub read_winner :
      Text → Io Store ClaimResult → Option StoredObject → Io Store ClaimResult
  read_winner key again (some o) = do
    value ← lift (decode c o.bytes)
    pure (record { won = false; key = key; value = value; etag = o.etag })
  read_winner key again none = again

  unfoldable pub after_put :
      Text → Value → Io Store ClaimResult → Option Text → Io Store ClaimResult
  after_put key value again (some etag) =
      pure (record { won = true; key = key; value = value; etag = etag })
  after_put key value again none = do existing ← get_object b key; read_winner key again existing

  -- `for _ in range(_ACQUIRE_ATTEMPTS)`, by the attempts left
  unfoldable pub claim_loop : ℕ → Text → Value → Io Store ClaimResult
  claim_loop zero key value = raise cairndb_error
  claim_loop (suc n) key value = do
    etag ← put_object b key (c.dumps value) none true
    after_put key value (claim_loop n key value) etag

  unfoldable pub claim_sync : Text → Value → Io Store ClaimResult
  claim_sync key value = do lift (check_key key); claim_loop acquire_attempts key value
