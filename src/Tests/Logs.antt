-- ===== src/Tests/Logs.antt =====
-- Keys, sequence numbers and named logs at inputs.
use cairndb.Prelude.{
  ◌≡◌, refl, Text, codes, true, false, none, some, [], ◌∷◌, arith, if◌then◌else◌, ◌==◌,
}
use mathlib.Core.Option
use cairndb.Core.Log.{SequenceNumber}
use cairndb.Core.Sequence.{to_string, from_string, is_before}
use cairndb.Core.Sequence.Strings.{from_string-to_string, text_ltb-to_string}
use cairndb.Core.Decimal.Order.{text_ltb}
use cairndb.Storage.Effects.{ok}
use cairndb.Storage.Files.{Files, read_file}
use cairndb.Storage.Filesystem.Contract.{get_at}
use cairndb.Storage.Keys.{commit_key, parse_commit_key, snapshot_key, parse_snapshot_key}
use cairndb.Storage.Keys.Parse.{parse-key}
use cairndb.Engine.Keys.{check_key, check_prefixes, starts_with}
use cairndb.Engine.Logs.{
  check_log_name, is_log_name, is_name_rest, is_name_char, log_namespace, put_commit, get_commit,
}
use cairndb.Engine.Logs.Contract.{OnlyCommits}
use cairndb.Engine.Logs.Contract.Isolation.{put_commit_isolated, put_commit-Refines}
use cairndb.Tests.Files.{listed, digest}

abbrev q : SequenceNumber
q = record { commit = 41; index = 7 }

abbrev later : SequenceNumber
later = record { commit = 41; index = 11 }

from_string-to_string_example : from_string (to_string q) ≡ ok q
from_string-to_string_example = from_string-to_string q (omega arith) (omega arith) (omega arith)

text_ltb-to_string_example : text_ltb (to_string q) (to_string later) ≡ is_before q later
text_ltb-to_string_example =
    text_ltb-to_string q later (omega arith) (omega arith) (omega arith) (omega arith)

parse-key_example :
    (parse_commit_key (commit_key 41) ≡ some 41)
    × (parse_snapshot_key (snapshot_key (codes "2") 41) ≡ some 41)
parse-key_example = parse-key (codes "2") 41 (omega arith)

abbrev stored_key : Text
stored_key = codes "state/run"

abbrev files : Files
files = (stored_key, codes "{}") ∷ []

orders-valid : check_log_name (codes "orders") ≡ ok tt
unfolding check_log_name is_log_name is_name_rest is_name_char
orders-valid = refl

audit-valid : check_log_name (codes "audit") ≡ ok tt
unfolding check_log_name is_log_name is_name_rest is_name_char
audit-valid = refl

stored_key-valid : check_key stored_key ≡ ok tt
unfolding check_key check_prefixes starts_with
stored_key-valid = refl

abbrev after : Files
after = (put_commit listed (log_namespace (codes "orders")) 1 (codes "x") files).1

put_commit_isolated_example :
    (get_commit listed (log_namespace (codes "audit")) 1 after
      ≡ get_commit listed (log_namespace (codes "audit")) 1 files)
    × (get_at digest stored_key after ≡ get_at digest stored_key files)
put_commit_isolated_example =
    put_commit_isolated listed (codes "orders") (codes "audit") 1 1 stored_key (codes "x") files
      orders-valid audit-valid (λ e. ground (arith, e)) stored_key-valid

empty-OnlyCommits : OnlyCommits listed (log_namespace (codes "orders")) []
unfolding get_at read_file
empty-OnlyCommits k o h starts = absurd (ground (arith, h))

put_commit-Refines_example :
    let r = put_commit listed (log_namespace (codes "orders")) 1 (codes "x") [] in
    (r.0 ≡ (elim (get_commit listed (log_namespace (codes "orders")) 1 []) [
      | none ↦ true
      | some x ↦ false
    ]))
    × (get_commit listed (log_namespace (codes "orders")) 1 r.1 ≡ (
        if 1 == 1
        then some
            (Option.get_or (get_commit listed (log_namespace (codes "orders")) 1 []) (codes "x"))
        else get_commit listed (log_namespace (codes "orders")) 1 []))
    × OnlyCommits listed (log_namespace (codes "orders")) r.1
put_commit-Refines_example =
    put_commit-Refines listed (log_namespace (codes "orders")) 1 1 (codes "x") [] empty-OnlyCommits
