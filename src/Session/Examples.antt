-- ===== src/Session/Examples.antt =====
-- Tests and instances for sessions.
use desmata.Prelude.{true, none, some, [], ◌∷◌, ◌++◌, ◌≡◌, refl, sym, subst}
use desmata.Prelude.Results.{ok, err, Error, value_error}
use desmata.Prelude.Texts.{codes, eq_text}
use desmata.Disk.{
  FilePath, folder, file, Disk, relative, join_path, parent, name_of, put, below, eq_path,
  make_below, mkdir, copy2, rmtree,
}
use desmata.Disk.Paths.{below→append, put_apart}
use desmata.Session.{
  Overlay, ephemeral, persistent, cleanup, Context, Scope, left, outcome, sessions, homes, new_home,
  temporary, choose, make_subdirs, lay_over, furnish, prepare, clean, finish, home_for, Session,
  tear_down, serve, session, policy_of, default_setup, default_teardown,
}
use desmata.Session.Traces.{all_inside}
use desmata.Session.Hermetic.{leaves_no_trace}
use desmata.Session.Refusals.{declares, IsRefusal}
use desmata.Session.Missing.{missing_input}
use desmata.Session.Repeatable.{Together, home_determined}

abbrev cell_folder : FilePath
cell_folder = codes "data" ∷ codes "greeter" ∷ []

-- The cell's home, and a `mkdtemp` that picks one name.
abbrev greeter : Context
greeter = record {
  home = codes "data" ∷ codes "greeter" ∷ codes "home" ∷ [];
  cell_folder = cell_folder;
  fresh_name = λ d. codes "a1";
}

abbrev baker : Context
baker = record {
  home = codes "other" ∷ codes "home" ∷ [];
  cell_folder = codes "other" ∷ [];
  fresh_name = λ d. codes "b2";
}

abbrev input : FilePath
input = codes "conf" ∷ []

-- A disk with a file, and one with another file beside it.
abbrev disk : Disk
disk = put input (file (1 ∷ 2 ∷ [])) (λ q. none)

abbrev other_disk : Disk
other_disk = put (codes "junk" ∷ []) (file []) disk

abbrev overlay : Overlay
overlay = (relative (codes ".config" ∷ codes "tool.toml" ∷ []), input) ∷ []

abbrev with_sessions : Disk
with_sessions =
    put (cell_folder ++ codes "sessions" ∷ []) folder
      (put cell_folder folder (put (codes "data" ∷ []) folder disk))

abbrev other_sessions : Disk
other_sessions =
    put (codes "other" ∷ codes "sessions" ∷ []) folder (put (codes "other" ∷ []) folder other_disk)

-- A block that writes a file into the home, and then raises.
abbrev failing : Session (Unit {0}) → Scope (Unit {0})
failing live d = (err value_error, put (live.home ++ codes "out" ∷ []) (file (7 ∷ [])) d)

abbrev made_home : FilePath
made_home = cell_folder ++ (codes "sessions" ∷ codes "a1" ∷ [])

abbrev other_home : FilePath
other_home = codes "other" ∷ codes "sessions" ∷ codes "b2" ∷ []

abbrev ready_disk : Disk
ready_disk = left (prepare greeter (ephemeral overlay) disk)

-- The block finds the input, its file is gone afterwards.
input_there :
    left
      (prepare greeter (ephemeral overlay) disk)
      (made_home ++ (codes ".config" ∷ codes "tool.toml" ∷ []))
    ≡ some (file (1 ∷ 2 ∷ []))
unfolding prepare choose temporary furnish make_subdirs lay_over mkdir make_below put sessions
    new_home join_path parent copy2 name_of eq_path eq_text
input_there = refl

out_gone :
    left
      (session default_setup default_teardown greeter (some (ephemeral overlay)) failing disk)
      (made_home ++ codes "out" ∷ [])
    ≡ none
unfolding session home_for serve tear_down finish clean cleanup rmtree below policy_of prepare
    choose temporary furnish make_subdirs lay_over mkdir make_below put sessions new_home join_path
    parent copy2 name_of eq_path eq_text default_setup default_teardown
out_gone = refl

-- A persistent home keeps what a block wrote.
kept_home :
    left
      (session default_setup default_teardown greeter
        (some (persistent (relative (codes "mine" ∷ [])) overlay))
        failing
        disk)
      (cell_folder ++ (codes "homes" ∷ codes "mine" ∷ codes "out" ∷ []))
    ≡ some (file (7 ∷ []))
unfolding session home_for serve tear_down finish clean cleanup rmtree below policy_of prepare
    choose temporary furnish make_subdirs lay_over mkdir make_below put homes new_home join_path
    parent copy2 name_of eq_path eq_text default_setup default_teardown
kept_home = refl

made_sessions : mkdir (sessions greeter) disk ≡ ok with_sessions
unfolding mkdir make_below put sessions eq_path eq_text
made_sessions = refl

made_others : mkdir (sessions baker) other_disk ≡ ok other_sessions
unfolding mkdir make_below put sessions eq_path eq_text
made_others = refl

fresh_here :
    (q : FilePath) → below (new_home greeter with_sessions) q ≡ true → with_sessions q ≡ none
unfolding new_home sessions put eq_path eq_text
fresh_here q b = subst (λ p. with_sessions p ≡ none) (sym (below→append made_home q b)) refl

fresh_there :
    (q : FilePath) → below (new_home baker other_sessions) q ≡ true → other_sessions q ≡ none
unfolding new_home sessions put eq_path eq_text
fresh_there q b = subst (λ p. other_sessions p ≡ none) (sym (below→append other_home q b)) refl

home_ready : prepare greeter (ephemeral overlay) disk ≡ (ok made_home, ready_disk)
unfolding prepare choose temporary furnish make_subdirs lay_over mkdir make_below put sessions
    new_home join_path parent copy2 name_of eq_path eq_text
home_ready = refl

leaves_no_trace_example :
    (outcome
        (session default_setup default_teardown greeter (some (ephemeral overlay)) failing disk)
      ≡ outcome
          (serve default_setup default_teardown (ephemeral overlay) failing made_home ready_disk))
    × ((q : FilePath)
        → left
            (session default_setup default_teardown greeter (some (ephemeral overlay)) failing disk)
            q
          ≡ with_sessions q)
leaves_no_trace_example =
    leaves_no_trace default_setup default_teardown failing greeter (ephemeral overlay) disk
      with_sessions ready_disk made_home made_sessions fresh_here (unfold cleanup in refl)
      (unfold all_inside in refl) home_ready (λ d q b. unfold default_setup in refl)
      (λ handle d q b. unfold default_teardown in refl)
      (λ live same d q b. rw same (put_apart made_home (codes "out" ∷ []) q (file (7 ∷ [])) d b))

abbrev missing_file : FilePath
missing_file = codes "gone" ∷ []

abbrev two_inputs : Overlay
two_inputs = (relative (codes "a" ∷ []), input) ∷ (relative (codes "b" ∷ []), missing_file) ∷ []

missing_input_example :
    (x : Error) × (s : Disk) × ((setup : FilePath → Scope (Unit {0}))
        (teardown : Unit {0} → Scope (Unit {0})) (block : Session (Unit {0}) → Scope (Unit {0}))
      → session setup teardown greeter (some (ephemeral two_inputs)) block disk ≡ (err x, s))
    × IsRefusal x
    × (s (new_home greeter with_sessions) ≡ some folder)
missing_input_example =
    missing_input greeter missing_file two_inputs disk with_sessions made_sessions
      (unfold put eq_path eq_text in refl) (unfold below new_home sessions eq_text in refl)
      (unfold all_inside in refl) (unfold declares eq_path eq_text in refl)

home_determined_example :
    Together
      (new_home greeter with_sessions)
      (new_home baker other_sessions)
      (prepare greeter (ephemeral overlay) disk)
      (prepare baker (ephemeral overlay) other_disk)
home_determined_example =
    home_determined greeter baker disk other_disk with_sessions other_sessions overlay made_sessions
      made_others fresh_here fresh_there (unfold all_inside in refl)
      (
        unfold put eq_path eq_text in refl,
        unfold below new_home sessions eq_text in refl,
        unfold below new_home sessions eq_text in refl,
        tt,
      )
