-- ===== src/Archive/Cell.antt =====
-- A cell's directory, and how src/desmata/cell_archive.py splits its files into nucleus and membrane.
use desmata.Prelude.{
  ℕ, Bool, true, false, ◌&&◌, ◌||◌, List, [], ◌∷◌, ◌++◌, ◌==◌, ltb, if◌then◌else◌,
}
use desmata.Prelude.Results.{Result}
use desmata.Prelude.Texts.{Text, codes, eq_text, starts_with}
use desmata.Archive.Lines.{splitlines, strip}
use desmata.Wit.{among}

-- What `os.walk` finds in a directory. A link is not followed.
mutual
  pub data Node : Type 0 where
    file : Node
    link : Node
    directory : Entries → Node

  pub data Entries : Type 0 where
    end : Entries
    entry : Text → Node → Entries → Entries

-- A directory as the program sees it: whether a path below it exists, what the file there holds, as
-- bytes, where it can be read (a directory cannot), and as text, the path of `f.relative_to(cell_dir).as_posix()` for a name's `f`, which fails
-- on a name that leaves the directory, and its tree. The operating system and `pathlib` resolve the
-- paths.
pub record CellDir : Type 0 where
  pub exists : Text → Bool
  pub read : Text → Result (List ℕ)
  pub read_text : Text → Text
  pub relative : Text → Result Text
  pub tree : Entries

-- desmata.interface.NUCLEUS
abbrev pub core : List Text
core = codes "flake.nix" ∷ codes "flake.lock" ∷ codes "cell.py" ∷ []

-- desmata.interface.NUCLEUS_DECLARATION
abbrev pub declaration : Text
declaration = codes "nucleus"

abbrev pub is_empty : Text → Bool
is_empty [] = true
is_empty (c ∷ s) = false

-- `line.strip()` is blank or a comment.
abbrev pub skipped : Text → Bool
skipped name = is_empty name || starts_with name (codes "#")

-- The names that the lines of a declaration add.
unfoldable pub declared : List Text → List Text
unfolding strip starts_with
declared [] = []
declared (line ∷ ls) =
    let rest = declared ls in if skipped (strip line) then rest else strip line ∷ rest

-- tuple(dict.fromkeys(names)), behind the names that were seen already.
unfoldable pub distinct : List Text → List Text → List Text
unfolding among
distinct seen [] = []
distinct seen (n ∷ ns) =
    let old = distinct seen ns in
    let new = n ∷ distinct (n ∷ seen) ns in if among n seen then old else new

-- The names before the duplicates collapse.
unfoldable pub listed_names : CellDir → List Text
unfolding splitlines declared
listed_names d =
    if d.exists declaration
    then core ++ (declaration ∷ declared (splitlines (d.read_text declaration)))
    else core

unfoldable pub nucleus_names : CellDir → List Text
unfolding listed_names distinct
nucleus_names d = distinct [] (listed_names d)

unfoldable pub existing : CellDir → List Text → List Text
existing d [] = []
existing d (n ∷ ns) = let rest = existing d ns in if d.exists n then n ∷ rest else rest

-- nucleus_files
unfoldable pub nucleus_files : CellDir → List Text
unfolding nucleus_names existing
nucleus_files d = existing d (nucleus_names d)

-- The names that `require_nucleus` reports.
unfoldable pub missing : CellDir → List Text → List Text
missing d [] = []
missing d (n ∷ ns) = let rest = missing d ns in if d.exists n then rest else n ∷ rest

-- s.endswith(t)
unfoldable pub ends_with : Text → Text → Bool
unfolding eq_text
ends_with [] t = eq_text [] t
ends_with (c ∷ s) t = eq_text (c ∷ s) t || ends_with s t

-- The tests on a file's own name.
unfoldable pub ignored_file : Text → Bool
unfolding starts_with eq_text ends_with
ignored_file name =
    starts_with name (codes ".")
    || (eq_text name (codes "__init__.py") || ends_with name (codes ".pyc"))

-- The directories that the walk does not enter.
unfoldable pub ignored_dir : Text → Bool
unfolding starts_with eq_text
ignored_dir name =
    starts_with name (codes ".")
    || (eq_text name (codes "__pycache__") || eq_text name (codes "target"))

-- The files that the walk keeps, by their paths below the cell's directory, in the order of the tree.
unfoldable mutual
  unfolding ignored_file ignored_dir

  pub walk : Text → Entries → List Text
  walk prefix end = []
  walk prefix (entry name node es) = walk_node prefix name node ++ walk prefix es

  pub walk_node : Text → Text → Node → List Text
  walk_node prefix name link = []
  walk_node prefix name file = if ignored_file name then [] else (prefix ++ name) ∷ []
  walk_node prefix name (directory es) =
      let inside = walk (prefix ++ (name ++ codes "/")) es in
      if ignored_dir name then [] else inside

unfoldable pub outside : List Text → List Text → List Text
unfolding among
outside nucleus [] = []
outside nucleus (n ∷ ns) =
    let rest = outside nucleus ns in if among n nucleus then rest else n ∷ rest

-- The order of texts by code points.
unfoldable pub le_text : Text → Text → Bool
le_text [] t = true
le_text (c ∷ s) [] = false
le_text (c ∷ s) (d ∷ t) = ltb c d || ((c == d) && le_text s t)

unfoldable pub insert : Text → List Text → List Text
unfolding le_text
insert n [] = n ∷ []
insert n (m ∷ ms) = if le_text n m then n ∷ m ∷ ms else m ∷ insert n ms

-- sorted(names)
unfoldable pub sorted : List Text → List Text
unfolding insert
sorted [] = []
sorted (n ∷ ns) = insert n (sorted ns)

-- membrane_files
unfoldable pub membrane_files : CellDir → List Text
unfolding nucleus_names walk outside sorted
membrane_files d = sorted (outside (nucleus_names d) (walk [] d.tree))
