-- ===== src/Internal.antt =====
-- BasicContext.internalize_ids_hashes of src/desmata/cell_factory.py and create_hard_links of
-- src/desmata/fs.py: dependencies that are brought into the store, on the file system of Disk, where
-- a link is a copy. The hash of a path is a parameter, and so is where a walk over a tree fails
-- half-way, and what it leaves then.
mod Examples
pub mod Folders
pub mod Kept
pub mod Stored
use desmata.Prelude.{Bool, true, false, Option, none, some, List, [], ◌∷◌, ◌++◌, if◌then◌else◌}
use desmata.Prelude.Results.{Error, Result, ok, err, os_error, ill_typed, ◌>>=◌}
use desmata.Prelude.Texts.{Text}
use desmata.Content.{Hash, dirname}
use desmata.Disk.{
  FilePath, Entry, folder, file, Disk, there, put, below, name_of, rest_below, mkdir, copy2,
  copytree,
}
use desmata.Session.{Scope, changed, run_next}

-- The exception that stops the walk from a source to a path, if one does, with the disk that is left.
abbrev pub Stops : Type 0
Stops = FilePath → FilePath → Disk → Option (Error × Disk)

-- A walk: what stops it, and what it does where nothing does.
abbrev pub walked : Option (Error × Disk) → Result Disk → Disk → Result (Unit {0}) × Disk
walked (some (x, e)) whole d = (err x, e)
walked none whole d = changed whole (λ e. (ok tt, e)) d

abbrev pub linked_over : Option Entry → Option Entry → Option Entry
linked_over (some old) entry = some old
linked_over none entry = entry

-- The loop over os.walk(src_dir): what is there already stays.
unfoldable pub link_tree : FilePath → FilePath → Disk → Disk
unfolding below rest_below
link_tree source path d q =
    if below path q then linked_over (d q) (d (source ++ rest_below path q)) else d q

unfoldable pub link_entry : Option Entry → FilePath → FilePath → Disk → Result Disk
unfolding link_tree put name_of below
link_entry none source path d = err os_error
link_entry (some folder) source path d =
    if below source path then err ill_typed else ok (link_tree source path d)
link_entry (some (file content)) source path d =
    if there (d (path ++ name_of source ∷ []))
    then ok d
    else ok (put (path ++ name_of source ∷ []) (file content) d)

-- create_hard_links
unfoldable pub create_hard_links : Stops → FilePath → FilePath → Scope (Unit {0})
unfolding mkdir link_entry
create_hard_links stops source path d =
    changed (mkdir path d)
      (λ e. walked (stops source path e) (link_entry (e source) source path e) e) d

-- shutil.copytree or copy2, into the folder of a dependency
unfoldable pub copy_entry : Option Entry → FilePath → FilePath → Disk → Result Disk
unfolding copytree copy2 name_of below
copy_entry none source path d = err os_error
copy_entry (some folder) source path d =
    if below source path then err ill_typed else ok (copytree source path d)
copy_entry (some (file content)) source path d = copy2 source (path ++ name_of source ∷ []) d

-- What is put into a dependency's folder. `safe` tells whether the target is read-only and on the
-- same device.
unfoldable pub fill : Stops → Bool → FilePath → FilePath → Scope (Unit {0})
unfolding create_hard_links copy_entry
fill stops safe target path d =
    let links = create_hard_links stops target path d in
    let copies = walked (stops target path d) (copy_entry (d target) target path d) d in
    if there (d target) then (if safe then links else copies) else (err os_error, d)

-- deps_by_id / dep_id, and deps_by_hash / hash_val.dirname
unfoldable pub id_dir : FilePath → Text → FilePath
id_dir deps_by_id dep_id = deps_by_id ++ dep_id ∷ []

unfoldable pub hash_dir : FilePath → Hash → FilePath
hash_dir deps_by_hash h = deps_by_hash ++ dirname h ∷ []

module _ (stops : Stops) (hash_path : FilePath → Disk → Result Hash)
    (deps_by_id deps_by_hash : FilePath) where
  -- if not hash_path.exists(): create_hard_links
  unfoldable pub link_hash : Hash → FilePath → Scope (Unit {0})
  unfolding hash_dir create_hard_links
  link_hash h source d =
      let linked = create_hard_links stops source (hash_dir deps_by_hash h) d in
      if there (d (hash_dir deps_by_hash h)) then (ok tt, d) else linked

  abbrev pub hashed : Result Hash → FilePath → Scope Hash
  hashed (err e) path d = (err e, d)
  hashed (ok h) path d = run_next (λ linked e. (ok h, e)) (link_hash h path d)

  -- The hash of a dependency that is in place, and its folder under the hash.
  unfoldable pub address : FilePath → Scope Hash
  unfolding link_hash
  address path d = hashed (hash_path path d) path d

  -- internalize_ids_hashes
  unfoldable pub internalize : Bool → Text → FilePath → Scope Hash
  unfolding id_dir mkdir fill address
  internalize safe dep_id target d =
      if there (d (id_dir deps_by_id dep_id))
      then address (id_dir deps_by_id dep_id) d
      else changed (mkdir (id_dir deps_by_id dep_id) d)
          (λ e.
            run_next (λ filled. address (id_dir deps_by_id dep_id))
              (fill stops safe target (id_dir deps_by_id dep_id) e))
          d
