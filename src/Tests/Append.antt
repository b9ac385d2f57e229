-- ===== src/Tests/Append.antt =====
-- An append to an object of the filesystem backend.
use cairndb.Prelude.{codes}
use cairndb.Storage.Interface.{BlobStorage}
use cairndb.Storage.Filesystem.Contract.{files_storage}
use cairndb.Storage.Recorded.{each_write, recorded}
use cairndb.Storage.Rely.{Ensures}
use cairndb.Storage.Append.{append_object}
use cairndb.Storage.Append.Landed.{extends, Landed, append_object-Landed}

abbrev store : BlobStorage
store = files_storage (λ x. x) (λ a b e. e)

append_object-Landed_example :
    Ensures
      (each_write store (extends store (codes "runs/log.jsonl")))
      (λ s. Unit {0})
      (append_object (recorded store) (codes "runs/log.jsonl") (codes "{}"))
      (Landed (recorded store) (codes "runs/log.jsonl") (codes "{}"))
append_object-Landed_example = append_object-Landed store (codes "runs/log.jsonl") (codes "{}")
