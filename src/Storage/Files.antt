-- ===== src/Storage/Files.antt =====
-- A tree of files by their paths, as far as the filesystem backend uses it: each operation is one that
-- the operating system performs atomically (rename over a path, link, unlink, read of a whole file).
use cairndb.Prelude.{Text, Bytes, text_discrete, ite, ◌≡◌, Option, none, some, List, [], ◌∷◌, arith}

abbrev pub Files : Type 0
Files = List (Text × Bytes)

unfoldable pub read_file : Text → Files → Option Bytes
read_file path [] = none
read_file path ((p, d) ∷ fs) = ite (text_discrete p path) (some d) (read_file path fs)

unfoldable pub unlink : Text → Files → Files
unlink path [] = []
unlink path ((p, d) ∷ fs) =
    let rest = unlink path fs in ite (text_discrete p path) rest ((p, d) ∷ rest)

-- os.replace of a temporary file that holds `bytes`
unfoldable pub replace : Text → Bytes → Files → Files
replace path bytes fs = (path, bytes) ∷ unlink path fs

pub read_file-unlink :
    (path j : Text) (fs : Files)
    → read_file j (unlink path fs) ≡ ite (text_discrete path j) none (read_file j fs)
unfolding read_file unlink
read_file-unlink path j [] = ground arith
read_file-unlink path j ((p, d) ∷ fs) = ground (arith, read_file-unlink path j fs)

pub read_file-replace :
    (path j : Text) (bytes : Bytes) (fs : Files)
    → read_file j (replace path bytes fs) ≡ ite (text_discrete path j) (some bytes) (read_file j fs)
unfolding read_file replace
read_file-replace path j bytes fs = ground (arith, read_file-unlink path j fs)
