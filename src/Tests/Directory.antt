-- ===== src/Tests/Directory.antt =====
-- A deletion of commits from a directory of two.
use cairndb.Prelude.{◌≡◌, codes, none, [], ◌∷◌, ltb, if◌then◌else◌, arith}
use cairndb.Storage.Files.{Files}
use cairndb.Storage.Keys.{commit_key}
use cairndb.Storage.Filesystem.Commits.{get_commit, delete_commits_before}
use cairndb.Storage.Filesystem.Commits.Pruned.{delete_commits_before-Prunes}

abbrev two_commits : Files
two_commits = (commit_key 1, codes "x") ∷ (commit_key 2, codes "y") ∷ []

delete_commits_before-Prunes_example :
    get_commit 1 (delete_commits_before 2 two_commits).1
    ≡ (if ltb 1 2 then none else get_commit 1 two_commits)
delete_commits_before-Prunes_example = delete_commits_before-Prunes 2 1 two_commits (omega arith)
