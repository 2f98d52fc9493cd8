-- ===== src/Session.antt =====
-- session.py, BasicContext.home_for of cell_factory.py and Cell.session of interface.py: the home of
-- a session, and the scope that sets it up and takes it down. The name that `mkdtemp` picks, a
-- cell's `setup` and `teardown`, and the block of the `with` statement are parameters; each of them
-- may change the disk and raise.
pub mod Examples
pub mod Traces
pub mod Repeatable
pub mod Determined
pub mod Refusals
pub mod Seeded
pub mod Missing
pub mod Hermetic
pub mod Leaves
pub mod Scopes
use desmata.Prelude.{ℕ, Bool, true, false, Option, none, some, List, [], ◌∷◌, ◌++◌, if◌then◌else◌}
use desmata.Prelude.Results.{Result, ok, err, Error, cell_unavailable, os_error, ill_typed}
use desmata.Prelude.Texts.{Text, codes}
use desmata.Disk.{
  FilePath, Entry, folder, file, Disk, Joinable, relative, join_path, parent, there, put, below,
  mkdir, copy2, copytree, rmtree,
}

-- The declared inputs: where in the home, and from which file.
abbrev pub Overlay : Type 0
Overlay = List (Joinable × FilePath)

pub data HomePolicy : Type 0 where
  inherit_home : Overlay → HomePolicy
  ephemeral : Overlay → HomePolicy
  persistent : Joinable → Overlay → HomePolicy
  from_snapshot : FilePath → Overlay → HomePolicy

-- policy.overlay
abbrev pub overlay_of : HomePolicy → Overlay
overlay_of (inherit_home overlay) = overlay
overlay_of (ephemeral overlay) = overlay
overlay_of (persistent name overlay) = overlay
overlay_of (from_snapshot source overlay) = overlay

-- Whether the home is removed at the end.
unfoldable pub cleanup : HomePolicy → Bool
cleanup (inherit_home overlay) = false
cleanup (ephemeral overlay) = true
cleanup (persistent name overlay) = false
cleanup (from_snapshot source overlay) = true

-- The part of a context that a home is made from: `home`, the folder of the cell in the userspace's
-- data, and the name that `mkdtemp` picks on a disk.
pub record Context : Type 0 where
  pub home : FilePath
  pub cell_folder : FilePath
  pub fresh_name : Disk → Text

-- A call that changes the disk. What was changed stays so after an exception.
abbrev pub Scope : Type 0 → Type 0
Scope A = Disk → Result A × Disk

-- The disk that a call on it leaves: where it raises, as it was.
abbrev pub changed : {A : Type 0} → Result Disk → (Disk → Result A × Disk) → Disk → Result A × Disk
changed (ok after) next d = next after
changed (err e) next d = (err e, d)

abbrev pub run_next : {A B : Type 0} → (A → Scope B) → Result A × Disk → Result B × Disk
run_next next (ok a, d) = next a d
run_next next (err e, d) = (err e, d)

-- copytree(source, home): of a folder that does not hold the new home
unfoldable pub seed : FilePath → FilePath → Option Entry → Scope FilePath
unfolding copytree below
seed source home none d = (err os_error, d)
seed source home (some (file content)) d = (err os_error, d)
seed source home (some folder) d =
    if below source home then (err ill_typed, d) else (ok home, copytree source home d)

-- home_subdirs
abbrev pub home_subdirs : List FilePath
home_subdirs =
    (codes ".cache" ∷ [])
    ∷ (codes ".config" ∷ [])
    ∷ (codes ".local" ∷ codes "share" ∷ [])
    ∷ (codes ".local" ∷ codes "state" ∷ [])
    ∷ (codes ".tmp" ∷ [])
    ∷ []

-- for subdir in home_subdirs
unfoldable pub make_subdirs : FilePath → List FilePath → Scope (Unit {0})
unfolding mkdir
make_subdirs home [] d = (ok tt, d)
make_subdirs home (subdir ∷ rest) d = changed (mkdir (home ++ subdir) d) (make_subdirs home rest) d

-- for relpath, src in policy.overlay.items()
unfoldable pub lay_over : FilePath → Overlay → Scope (Unit {0})
unfolding join_path mkdir parent copy2
lay_over home [] d = (ok tt, d)
lay_over home ((relpath, source) ∷ rest) d =
    if there (d source)
    then changed (mkdir (parent (join_path home relpath)) d)
        (λ e. changed (copy2 source (join_path home relpath) e) (lay_over home rest) e) d
    else (err cell_unavailable, d)

-- What is placed into a home.
unfoldable pub furnish : Overlay → FilePath → Scope FilePath
unfolding make_subdirs lay_over
furnish overlay home d =
    run_next (λ made e. run_next (λ laid f. (ok home, f)) (lay_over home overlay e))
      (make_subdirs home home_subdirs d)

-- if cleanup
unfoldable pub clean : HomePolicy → FilePath → Disk → Disk
unfolding cleanup rmtree
clean policy home d = if cleanup policy then rmtree home d else d

-- try: yield home; finally
unfoldable pub finish : {A : Type 0} → HomePolicy → FilePath → Result A × Disk → Result A × Disk
unfolding clean
finish policy home (r, d) = (r, clean policy home d)

module _ (C : Context) where
  unfoldable pub sessions : FilePath
  sessions = C.cell_folder ++ codes "sessions" ∷ []

  unfoldable pub homes : FilePath
  homes = C.cell_folder ++ codes "homes" ∷ []

  -- Path(tempfile.mkdtemp(dir=sessions))
  unfoldable pub new_home : Disk → FilePath
  unfolding sessions
  new_home d = sessions ++ C.fresh_name d ∷ []

  -- sessions.mkdir, and then mkdtemp
  unfoldable pub temporary : Scope FilePath
  unfolding new_home sessions mkdir put
  temporary d = changed (mkdir sessions d) (λ e. (ok (new_home e), put (new_home e) folder e)) d

  -- match policy: the home, before anything is placed into it
  unfoldable pub choose : HomePolicy → Scope FilePath
  unfolding temporary seed homes mkdir join_path
  choose (inherit_home overlay) d = (ok C.home, d)
  choose (ephemeral overlay) d = temporary d
  choose (persistent name overlay) d =
      changed (mkdir (join_path homes name) d) (λ e. (ok (join_path homes name), e)) d
  choose (from_snapshot source overlay) d =
      if there (d source)
      then run_next (λ home e. seed source home (e source) e) (temporary d)
      else (err cell_unavailable, d)

  -- home_for, up to its yield
  unfoldable pub prepare : HomePolicy → Scope FilePath
  unfolding choose furnish
  prepare policy d = run_next (furnish (overlay_of policy)) (choose policy d)

  -- with context.home_for(policy) as home: block
  unfoldable pub home_for : {A : Type 0} → HomePolicy → (FilePath → Scope A) → Scope A
  unfolding prepare finish
  home_for policy block d =
      run_next (λ home e. finish policy home (block home e)) (prepare policy d)

-- What a call leaves, and what it returns.
abbrev pub left : {A : Type 0} → Result A × Disk → Disk
left (r, d) = d

abbrev pub outcome : {A : Type 0} → Result A × Disk → Result A
outcome (r, d) = r

-- A live session, without the cell.
pub record Session (Handle : Type 0) : Type 0 where
  pub home : FilePath
  pub handle : Handle
  pub declared_inputs : Overlay

-- Cell.setup and Cell.teardown, where a cell does not replace them
unfoldable pub default_setup : FilePath → Scope (Unit {0})
default_setup home d = (ok tt, d)

unfoldable pub default_teardown : Unit {0} → Scope (Unit {0})
default_teardown handle d = (ok tt, d)

-- home if home is not None else Ephemeral()
unfoldable pub policy_of : Option HomePolicy → HomePolicy
policy_of none = ephemeral []
policy_of (some policy) = policy

-- What a `finally` makes of what went before.
abbrev pub then_finally : {A : Type 0} → Result A → Result (Unit {0}) × Disk → Result A × Disk
then_finally r (ok done, d) = (r, d)
then_finally r (err e, d) = (err e, d)

module _ {Handle A : Type 0} (setup : FilePath → Scope Handle)
    (teardown : Handle → Scope (Unit {0})) where
  unfoldable pub tear_down : Handle → Result A × Disk → Result A × Disk
  tear_down handle (r, d) = then_finally r (teardown handle d)

  -- The body of Cell.session's `with`.
  unfoldable pub serve : HomePolicy → (Session Handle → Scope A) → FilePath → Scope A
  unfolding tear_down
  serve policy block home d =
      run_next
        (λ handle e.
          tear_down handle (
            block (record { home = home; handle = handle; declared_inputs = overlay_of policy }) e))
        (setup home d)

  -- with cell.session(home=policy) as live: block
  unfoldable pub session : Context → Option HomePolicy → (Session Handle → Scope A) → Scope A
  unfolding home_for serve policy_of
  session C policy block d = home_for C (policy_of policy) (serve (policy_of policy) block) d
