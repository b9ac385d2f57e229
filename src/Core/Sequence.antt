-- ===== src/Core/Sequence.antt =====
-- src/cairndb/core/types.py: the string form of a sequence number, and the order of sequence numbers.
pub mod Strings
use cairndb.Prelude.{
  ℕ, Text, codes, ◌≡◌, refl, Bool, true, false, Option, none, some, [], ◌∷◌, ◌++◌, ltb, ◌==◌,
  if◌then◌else◌,
}
use cairndb.Core.Decimal.{zero_padded, take_digits}
use cairndb.Core.Log.{SequenceNumber, make_sequence}
use cairndb.Storage.Effects.{Result, ok, raised, value_error}

-- str(sequence)
unfoldable pub to_string : SequenceNumber → Text
to_string q = zero_padded 12 q.commit ++ (b':' ∷ zero_padded 6 q.index)

-- `$` of a pattern: the end of the text, or the line feed that ends it.
unfoldable pub at_end : Text → Bool
at_end [] = true
at_end (c ∷ []) = c == 10
at_end (c ∷ d ∷ t) = false

unfoldable pub end_sequence : ℕ → Option (ℕ × Text) → Result SequenceNumber
end_sequence commit none = raised value_error
end_sequence commit (some (index, t)) =
    if at_end t then make_sequence commit index else raised value_error

unfoldable pub read_index : Option (ℕ × Text) → Result SequenceNumber
read_index none = raised value_error
read_index (some (commit, [])) = raised value_error
read_index (some (commit, c ∷ t)) =
    if c == b':' then end_sequence commit (take_digits 6 0 t) else raised value_error

-- SequenceNumber.from_string
unfoldable pub from_string : Text → Result SequenceNumber
from_string t = read_index (take_digits 12 0 t)

-- self < other, as the dataclass compares: by the fields, in their order.
unfoldable pub is_before : SequenceNumber → SequenceNumber → Bool
is_before q r = if q.commit == r.commit then ltb q.index r.index else ltb q.commit r.commit
