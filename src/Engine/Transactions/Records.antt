-- ===== src/Engine/Transactions/Records.antt =====
-- What the record of a transaction tells of it.
use cairndb.Prelude.{ℕ, ◌≡◌, refl, [], ◌∷◌, List, text_discrete}
use cairndb.Core.Value.{find, get_item}
use cairndb.Core.Log.{as_text, as_items}
use cairndb.Storage.Effects.{ok}
use cairndb.Engine.Transactions.{
  Op, put, delete, Transaction, to_event, ops_value, op_value, op_keys, op_key, item_keys, ops_of,
  write_set,
}

item_keys-ops_value : (ops : List Op) → item_keys (ops_value ops) ≡ ok (op_keys ops)
unfolding item_keys ops_value op_value op_keys op_key get_item find text_discrete as_text
item_keys-ops_value [] = refl
item_keys-ops_value (put key bytes ∷ ops) = rw (item_keys-ops_value ops) refl
item_keys-ops_value (delete key ∷ ops) = rw (item_keys-ops_value ops) refl

-- The write set of a transaction's record is what the transaction writes.
pub write_set-to_event :
    (t : ℕ) (tx : Transaction) → write_set (to_event t tx) ≡ ok (op_keys tx.ops)
unfolding write_set to_event ops_of find text_discrete as_items
write_set-to_event t tx = item_keys-ops_value tx.ops
