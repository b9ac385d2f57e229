-- ===== src/Core/Sequence/Strings.antt =====
-- The string form is read back, and sorts as the sequence numbers do.
use cairndb.Prelude.{
  ℕ, zero, suc, ◌^◌, ◌<◌, Text, ◌≡◌, refl, sym, ap, ◌∙◌, some, [], ◌∷◌, ◌++◌, ltb, ◌==◌,
  if◌then◌else◌, arith,
}
use mathlib.Core.List.{append-nil}
use cairndb.Core.Decimal.{zero_padded, take_digits}
use cairndb.Core.Decimal.Digits.{take_digits-zero_padded}
use cairndb.Core.Decimal.Order.{text_ltb, text_ltb-zero_padded}
use cairndb.Core.Log.{SequenceNumber, make_sequence}
use cairndb.Core.Sequence.{to_string, at_end, end_sequence, read_index, from_string, is_before}
use cairndb.Storage.Effects.{ok}

take_all : (n : ℕ) → n < 10 ^ 6 → take_digits 6 0 (zero_padded 6 n) ≡ some (n, [])
take_all n h =
    ap (take_digits 6 0) (sym (append-nil (zero_padded 6 n))) ∙ take_digits-zero_padded 6 n [] h

make_sequence_self :
    (commit index : ℕ)
    → 0 < commit
    → make_sequence commit index ≡ ok (record { commit = commit; index = index })
unfolding make_sequence
make_sequence_self zero index h = absurd (omega arith)
make_sequence_self (suc n) index h = refl

after_colon : (s t : Text) → text_ltb (b':' ∷ s) (b':' ∷ t) ≡ text_ltb s t
unfolding text_ltb
after_colon s t = refl

index_ltb :
    (n m : ℕ) → n < 10 ^ 6 → m < 10 ^ 6 → text_ltb (zero_padded 6 n) (zero_padded 6 m) ≡ ltb n m
unfolding text_ltb
index_ltb n m hn hm =
    ap (λ s. text_ltb s (zero_padded 6 m)) (sym (append-nil (zero_padded 6 n)))
    ∙ ap (text_ltb (zero_padded 6 n ++ [])) (sym (append-nil (zero_padded 6 m)))
    ∙ text_ltb-zero_padded 6 n m [] [] hn hm
    ∙ same_when_equal n m
  where
    same_when_equal : (a b : ℕ) → (if a == b then text_ltb [] [] else ltb a b) ≡ ltb a b
    same_when_equal a b = ground arith

-- A sequence number of at most twelve and six digits is read back from its string.
pub from_string-to_string :
    (q : SequenceNumber)
    → 0 < q.commit
    → q.commit < 10 ^ 12
    → q.index < 10 ^ 6
    → from_string (to_string q) ≡ ok q
unfolding from_string to_string read_index end_sequence at_end
from_string-to_string q h hc hi =
    ap read_index (take_digits-zero_padded 12 q.commit (b':' ∷ zero_padded 6 q.index) hc)
    ∙ ap (end_sequence q.commit) (take_all q.index hi)
    ∙ make_sequence_self q.commit q.index h

-- Of two such sequence numbers the strings sort as the numbers do.
pub text_ltb-to_string :
    (q r : SequenceNumber)
    → q.commit < 10 ^ 12
    → q.index < 10 ^ 6
    → r.commit < 10 ^ 12
    → r.index < 10 ^ 6
    → text_ltb (to_string q) (to_string r) ≡ is_before q r
unfolding to_string is_before
text_ltb-to_string q r hc hi kc ki =
    text_ltb-zero_padded 12 q.commit r.commit (b':' ∷ zero_padded 6 q.index)
      (b':' ∷ zero_padded 6 r.index) hc kc
    ∙ ap (λ x. if q.commit == r.commit then x else ltb q.commit r.commit)
        (after_colon (zero_padded 6 q.index) (zero_padded 6 r.index)
          ∙ index_ltb q.index r.index hi ki)
