-- ===== src/Disk.antt =====
-- The file system as the calls of `pathlib`, `shutil` and `os` see it. A path is the list of its
-- parts, from the root on, and a disk says what stands at each path. Links, permissions and the part
-- `..` are not modelled.
pub mod Paths
pub mod Elsewhere
use desmata.Prelude.{
  ℕ, Bool, true, false, ◌&&◌, Option, none, some, List, [], ◌∷◌, ◌++◌, if◌then◌else◌,
}
use desmata.Prelude.Results.{Result, ok, err, os_error, ◌>>=◌}
use desmata.Prelude.Texts.{Text, eq_text}

abbrev pub FilePath : Type 0
FilePath = List Text

pub data Entry : Type 0 where
  folder : Entry
  file : List ℕ → Entry

abbrev pub Disk : Type 0
Disk = FilePath → Option Entry

-- A path without its root, or one that starts at it.
pub data Joinable : Type 0 where
  relative : FilePath → Joinable
  rooted : FilePath → Joinable

-- base / path: a path that starts at the root replaces what stands left of it.
unfoldable pub join_path : FilePath → Joinable → FilePath
join_path base (relative path) = base ++ path
join_path base (rooted path) = path

-- path.parent
unfoldable pub parent : FilePath → FilePath
parent [] = []
parent (x ∷ []) = []
parent (x ∷ y ∷ rest) = x ∷ parent (y ∷ rest)

-- path.name
unfoldable pub name_of : FilePath → Text
name_of [] = []
name_of (x ∷ []) = x
name_of (x ∷ y ∷ rest) = name_of (y ∷ rest)

unfoldable pub eq_path : FilePath → FilePath → Bool
unfolding eq_text
eq_path [] [] = true
eq_path [] (y ∷ q) = false
eq_path (x ∷ p) [] = false
eq_path (x ∷ p) (y ∷ q) = eq_text x y && eq_path p q

-- A path stands at or below another one.
unfoldable pub below : FilePath → FilePath → Bool
unfolding eq_text
below [] q = true
below (x ∷ p) [] = false
below (x ∷ p) (y ∷ q) = eq_text x y && below p q

-- path.exists()
abbrev pub there : Option Entry → Bool
there none = false
there (some entry) = true

unfoldable pub put : FilePath → Entry → Disk → Disk
unfolding eq_path
put path entry d q = if eq_path path q then some entry else d q

abbrev pub ensure_at : Option Entry → FilePath → Disk → Result Disk
ensure_at none path d = ok (put path folder d)
ensure_at (some folder) path d = ok d
ensure_at (some (file content)) path d = err os_error

-- The folders on the way from a folder to a path beneath it.
unfoldable pub make_below : FilePath → FilePath → Disk → Result Disk
unfolding put
make_below base [] d = ok d
make_below base (x ∷ rest) d =
    ensure_at (d (base ++ x ∷ [])) (base ++ x ∷ []) d >>= make_below (base ++ x ∷ []) rest

-- path.mkdir(parents=True, exist_ok=True)
unfoldable pub mkdir : FilePath → Disk → Result Disk
unfolding make_below
mkdir path d = make_below [] path d

abbrev pub target_at : Option Entry → FilePath → FilePath → FilePath
target_at (some folder) source path = path ++ name_of source ∷ []
target_at (some (file content)) source path = path
target_at none source path = path

abbrev pub write_at : Option Entry → FilePath → List ℕ → Disk → Result Disk
write_at (some folder) path content d = err os_error
write_at (some (file old)) path content d = ok (put path (file content) d)
write_at none path content d = ok (put path (file content) d)

abbrev pub copy_from : Option Entry → FilePath → FilePath → Disk → Result Disk
copy_from none source path d = err os_error
copy_from (some folder) source path d = err os_error
copy_from (some (file content)) source path d =
    if eq_path source path then err os_error else write_at (d path) path content d

-- shutil.copy2(source, path), where the folder of `path` is there: a folder at `path` takes the copy
-- under the source's name.
unfoldable pub copy2 : FilePath → FilePath → Disk → Result Disk
unfolding put name_of eq_path
copy2 source path d = copy_from (d source) source (target_at (d path) source path) d

-- What stands at a path beneath a folder, seen from the folder.
unfoldable pub rest_below : FilePath → FilePath → FilePath
rest_below [] q = q
rest_below (x ∷ p) [] = []
rest_below (x ∷ p) (y ∷ q) = rest_below p q

abbrev pub copied_over : Option Entry → Option Entry → Option Entry
copied_over none old = old
copied_over (some entry) old = some entry

-- shutil.copytree(source, path, dirs_exist_ok=True), where `path` is an empty folder
unfoldable pub copytree : FilePath → FilePath → Disk → Disk
unfolding below rest_below
copytree source path d q =
    if below path q then copied_over (d (source ++ rest_below path q)) (d q) else d q

-- shutil.rmtree(path, ignore_errors=True), of entries that may all be removed
unfoldable pub rmtree : FilePath → Disk → Disk
unfolding below
rmtree path d q = if below path q then none else d q
