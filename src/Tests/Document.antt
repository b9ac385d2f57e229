-- ===== src/Tests/Document.antt =====
-- A document that counts.
use cairndb.Prelude.{ℕ, suc, ◌≤◌, Bytes, codes, refl, some, [], ◌∷◌, arith}
use cairndb.Storage.Effects.{Result, ok, raised, value_error}
use cairndb.Storage.Recorded.{each_write, recorded}
use cairndb.Storage.Rely.{Ensures}
use cairndb.Engine.Document.{Model, update_document}
use cairndb.Engine.Document.Advances.{Order, advances, Updated, update_document-Updated}
use cairndb.Tests.Files.{listed}

abbrev read_count : Bytes → Result ℕ
read_count (n ∷ []) = ok n
read_count _ = raised value_error

abbrev counter : Model ℕ
counter = record { to_bytes = λ n. n ∷ []; from_bytes = read_count }

abbrev increment : ℕ → Result ℕ
increment n = ok (suc n)

counting : Order counter increment
counting = record {
  Le = λ n m. n ≤ m;
  le_refl = λ n. omega arith;
  le_trans = λ u v w h h'. omega (arith, h, h');
  fn-Le = λ v v' e. ground (arith, e);
  from_bytes-to_bytes = λ v. refl;
}

update_document-Updated_example :
    Ensures
      (each_write listed.blob
        (advances listed.blob counter (codes "n") increment (some 0) counting))
      (λ s. Unit {0})
      (update_document (recorded listed.blob) counter (codes "n") increment (some 0) 3)
      (Updated (recorded listed.blob) counter (codes "n") increment (some 0) counting)
update_document-Updated_example =
    update_document-Updated listed.blob counter (codes "n") increment (some 0) counting 3
