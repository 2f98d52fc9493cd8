-- ===== src/Nix.antt =====
-- src/desmata/nix.py: the order in which dep_dags yields the trees of a closure. The order in which
-- Python goes through a set is a parameter.
pub mod Queue
pub mod Rounds
mod Examples
pub mod Complete
pub mod Yields
pub mod Whole
pub mod Loop
use desmata.Prelude.{
  ℕ, zero, suc, ◌+◌, Bool, true, false, ◌&&◌, not, Option, none, some, List, [], ◌∷◌, ◌++◌,
  if◌then◌else◌,
}
use desmata.Prelude.Results.{Result, ok, err, out_of_fuel, ◌>>=◌}
use desmata.Prelude.Texts.{Text, eq_text, length}
use desmata.Wit.{among}
use desmata.Transport.{Info, members, references_of, keep_if, subset}

-- NixDependencyTree, and a list of them
mutual
  pub data Tree : Type 0 where
    tree : ℕ → Info → Trees → Tree

  pub data Trees : Type 0 where
    no_trees : Trees
    a_tree : Tree → Trees → Trees

abbrev pub path_of : Tree → Text
path_of (tree size info dependencies) = info.path

abbrev pub size_of : Tree → ℕ
size_of (tree size info dependencies) = size

-- sum(dep.size for dep in deps)
unfoldable pub sizes : Trees → ℕ
sizes no_trees = 0
sizes (a_tree t ts) = size_of t + sizes ts

-- built_trees, a dict of the trees that were yielded, by their paths
unfoldable pub built : List Tree → Text → Option Tree
unfolding eq_text
built [] path = none
built (t ∷ ts) path = let rest = built ts path in if eq_text (path_of t) path then some t else rest

abbrev pub with_built : Option Tree → Trees → Trees
with_built none ts = ts
with_built (some t) ts = a_tree t ts

unfoldable pub is_empty : List Text → Bool
is_empty [] = true
is_empty (x ∷ xs) = false

module _ (infos : List Info) where
  -- edges[path], for a path in path_infos
  unfoldable pub needed_of : Option (List Text) → List Text
  unfolding keep_if members
  needed_of none = []
  needed_of (some references) = keep_if (λ r. among r (members infos)) references

  unfoldable pub needed : Text → List Text
  unfolding needed_of references_of
  needed path = needed_of (references_of infos path)

  -- reverse_edges[path]
  unfoldable pub parents : Text → List Text
  unfolding needed keep_if members among
  parents path = keep_if (λ p. among path (needed p)) (members infos)

  -- The dependencies of a tree, from those that are built.
  unfoldable pub gather : List Tree → List Text → Trees
  unfolding built members among
  gather done [] = no_trees
  gather done (r ∷ references) =
      let rest = gather done references in
      if among r (members infos) then with_built (built done r) rest else rest

  unfoldable pub build_tree : List Tree → Text → List Text → Tree
  unfolding gather sizes
  build_tree done path references =
      tree (suc (sizes (gather done references))) (record { path = path; references = references })
        (gather done references)

  -- The tree of a path, where it has an info.
  unfoldable pub yields : List Tree → Text → Option (List Text) → List Tree
  unfolding build_tree
  yields done path none = []
  yields done path (some references) = build_tree done path references ∷ []

  -- The path's dependencies have not all been processed.
  unfoldable pub blocked : List Text → Text → Bool
  unfolding members subset needed among
  blocked processed path = among path (members infos) && not (subset (needed path) processed)

  -- A bound on the rounds: each path that is processed adds its parents to the queue.
  unfoldable pub rounds : List Text → List Text → ℕ
  unfolding members
  rounds queue [] = length queue
  rounds queue (p ∷ waiting) = length (members infos) + rounds queue waiting

  -- The root, where the loop has not processed it.
  unfoldable pub with_root : Text → List Text → List Tree → List Tree
  unfolding among yields references_of
  with_root root processed yielded =
      if among root processed
      then yielded
      else yielded ++ yields yielded root (references_of infos root)

  module _ (listed : List Text → List Text) where
    -- leaf_nodes
    unfoldable pub leaf_nodes : List Text
    unfolding keep_if is_empty needed members
    leaf_nodes = keep_if (λ p. is_empty (needed p)) (listed (members infos))

    -- The parents of a path whose dependencies are all processed.
    unfoldable pub freed : List Text → Text → List Text
    unfolding parents keep_if subset needed
    freed processed path = keep_if (λ p. subset (needed p) processed) (listed (parents path))

    -- What a path that is processed adds to the queue, and what it yields.
    unfoldable pub adds : List Text → Text → Option (List Text) → List Text
    unfolding freed
    adds processed path none = []
    adds processed path (some references) = freed processed path

    -- The loop, with what is processed and what was yielded. Each round costs a unit of fuel.
    unfoldable pub process : ℕ → List Text → List Text → List Tree → Result (List Text × List Tree)
    unfolding among blocked adds yields references_of
    process zero queue processed yielded = err out_of_fuel
    process (suc f) [] processed yielded = ok (processed, yielded)
    process (suc f) (path ∷ queue) processed yielded =
        let skipped = process f queue processed yielded in
        let put_back = process f (queue ++ path ∷ []) processed yielded in
        let visited =
          process f (queue ++ adds (processed ++ path ∷ []) path (references_of infos path))
            (processed ++ path ∷ []) (yielded ++ yields yielded path (references_of infos path)) in
        if among path processed
        then skipped
        else (if blocked processed path then put_back else visited)

    -- dep_dags
    unfoldable pub dep_dags : Text → Result (List Tree)
    unfolding process leaf_nodes with_root rounds members
    dep_dags root =
        process (suc (rounds leaf_nodes (members infos))) leaf_nodes [] []
        >>= λ (processed, yielded). ok (with_root root processed yielded)
