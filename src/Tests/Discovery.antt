-- ===== src/Tests/Discovery.antt =====
-- A poll of an empty log.
use cairndb.Prelude.{none, []}
use cairndb.Storage.Alone.{alone}
use cairndb.Client.Discovery.{has_new_commits}
use cairndb.Client.Discovery.Dense.{Tells, has_new_commits-Tells}
use cairndb.Tests.Log.{log, empty-IsDense}

has_new_commits-Tells_example : Tells log none (has_new_commits log none (alone [] 0)).0 []
has_new_commits-Tells_example = has_new_commits-Tells log none [] 0 empty-IsDense
