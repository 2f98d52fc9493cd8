-- ===== src/Transport.antt =====
-- src/desmata/transport.py: the order in which a closure's store paths travel.
mod Examples
pub mod Order
pub mod Leaves
pub mod Members
pub mod Behind
pub mod Carriage
pub mod Arrival
use desmata.Prelude.{
  ℕ, zero, suc, Bool, true, false, ◌&&◌, not, Option, none, some, List, [], ◌∷◌, ◌++◌, map, ltb,
  if◌then◌else◌, ◌≡◌, refl,
}
use desmata.Prelude.Results.{Result, ok, err, out_of_fuel}
use desmata.Prelude.Texts.{Text, codes, eq_text, length}
use desmata.Wit.{among}
use desmata.Archive.Cell.{distinct, outside, sorted}

-- What `nix.closure_info` reports of a store path.
pub record Info : Type 0 where
  pub path : Text
  pub references : List Text

-- The elements that pass a test.
unfoldable pub keep_if : (Text → Bool) → List Text → List Text
keep_if test [] = []
keep_if test (p ∷ ps) = let rest = keep_if test ps in if test p then p ∷ rest else rest

-- xs <= ys, for sets
unfoldable pub subset : List Text → List Text → Bool
unfolding among
subset [] ys = true
subset (x ∷ xs) ys = among x ys && subset xs ys

abbrev or_else : Option (List Text) → Option (List Text) → Option (List Text)
or_else none o = o
or_else (some rs) o = some rs

-- The entry that a path has in a dict built from the infos: the last one counts.
unfoldable pub references_of : List Info → Text → Option (List Text)
unfolding eq_text
references_of [] p = none
references_of (i ∷ infos) p =
    or_else (references_of infos p) (if eq_text i.path p then some i.references else none)

-- `members`, a set
unfoldable pub members : List Info → List Text
unfolding distinct
members infos = distinct [] (map (λ i. i.path) infos)

-- What counts of a path's references: members, and not the path itself.
unfoldable pub deps_of : List Info → Text → Option (List Text) → List Text
unfolding members keep_if
deps_of infos p none = []
deps_of infos p (some rs) = keep_if (λ r. not (eq_text r p) && among r (members infos)) rs

-- deps[p], for a member
unfoldable pub deps : List Info → Text → List Text
unfolding references_of deps_of
deps infos p = deps_of infos p (references_of infos p)

-- sorted(ready), or sorted(waiting) where nothing is ready
abbrev pub batch_of : List Text → List Text → List Text
batch_of [] waiting = sorted waiting
batch_of (p ∷ ps) waiting = sorted (p ∷ ps)

-- p for p in members if p not in done
unfoldable pub waiting : List Info → List Text → List Text
unfolding outside members
waiting infos done = outside done (members infos)

-- p for p in members if p not in done and deps[p] <= done
unfoldable pub ready : List Info → List Text → List Text
unfolding waiting subset deps keep_if
ready infos done = keep_if (λ p. subset (deps infos p) done) (waiting infos done)

-- One round of the loop.
unfoldable pub batch : List Info → List Text → List Text
unfolding waiting ready
batch infos done = batch_of (ready infos done) (waiting infos done)

-- The loop. `done` is the set of what is ordered. Each round costs a unit of fuel.
unfoldable pub order : ℕ → List Info → List Text → Result (List Text)
unfolding members batch
order zero infos ordered = err out_of_fuel
order (suc f) infos ordered =
    let more = order f infos (ordered ++ batch infos ordered) in
    if ltb (length ordered) (length (members infos)) then more else ok ordered

-- _topo_order, on what `closure_info` returned
unfoldable pub topo_order : List Info → Result (List Text)
unfolding members order
topo_order infos = order (suc (length (members infos))) infos []
