-- ===== src/Nix/Examples.antt =====
-- Tests and instances for the trees of a closure.
use desmata.Prelude.{
  ℕ, ◌≤◌, ◌<◌, true, false, List, [], ◌∷◌, ◌≡◌, refl, sym, ap, ◌∙◌, arith, if◌then◌else◌,
  Bool-cases, inl, inr,
}
use desmata.Prelude.Results.{ok}
use desmata.Prelude.Texts.{Text, codes, eq_text, eq_text→eq}
use desmata.Wit.{among}
use desmata.Archive.Cell.{distinct}
use desmata.Archive.Files.{times}
use desmata.Transport.{Info, members, references_of, keep_if, subset}
use desmata.Nix.{
  Tree, tree, no_trees, a_tree, sizes, built, needed, needed_of, parents, gather, build_tree,
  yields, blocked, is_empty, leaf_nodes, freed, adds, process, with_root, rounds, dep_dags,
}
use desmata.Nix.Whole.{paths, AllWhole}
use desmata.Nix.Loop.{behind}
use desmata.Nix.Complete.{dep_dags_complete, dep_dags_ends}

-- A program, a library that it refers to, and a font that both refer to.
abbrev closure : List Info
closure =
    (record { path = codes "program"; references = codes "library" ∷ codes "font" ∷ [] })
    ∷ (record { path = codes "library"; references = codes "font" ∷ [] })
    ∷ (record { path = codes "font"; references = [] })
    ∷ []

-- A library that refers to itself, and a program on it.
abbrev selfish : List Info
selfish =
    (record { path = codes "program"; references = codes "library" ∷ [] })
    ∷ (record { path = codes "library"; references = codes "library" ∷ [] })
    ∷ []

abbrev in_order : List Text → List Text
in_order xs = xs

abbrev font : Tree
font = tree 1 (record { path = codes "font"; references = [] }) no_trees

abbrev library : Tree
library =
    tree 2 (record { path = codes "library"; references = codes "font" ∷ [] })
      (a_tree font no_trees)

closure_trees :
    dep_dags closure in_order (codes "program")
    ≡ ok (
        font
        ∷ library
        ∷ tree 4
            (record { path = codes "program"; references = codes "library" ∷ codes "font" ∷ [] })
            (a_tree library (a_tree font no_trees))
        ∷ [])
unfolding dep_dags process rounds with_root leaf_nodes adds freed blocked is_empty yields build_tree
    gather parents needed needed_of built sizes members references_of keep_if subset among distinct
    eq_text
closure_trees = refl

-- The library is left out, and stands in no tree.
selfish_trees :
    dep_dags selfish in_order (codes "program")
    ≡ ok (
        tree 1 (record { path = codes "program"; references = codes "library" ∷ [] }) no_trees ∷ [])
unfolding dep_dags process rounds with_root leaf_nodes adds freed blocked is_empty yields build_tree
    gather parents needed needed_of built sizes members references_of keep_if subset among distinct
    eq_text
selfish_trees = refl

-- A program, and a library that it refers to.
abbrev pair : List Info
pair =
    (record { path = codes "a"; references = codes "b" ∷ [] })
    ∷ (record { path = codes "b"; references = [] })
    ∷ []

abbrev rank : Text → ℕ
rank p = if eq_text (codes "a") p then 1 else 0

a_needs : needed pair (codes "a") ≡ codes "b" ∷ []
unfolding needed needed_of references_of keep_if members distinct among eq_text
a_needs = refl

nothing_in : (r : Text) (xs : List Text) → xs ≡ [] → among r xs ≡ true → ⊥
unfolding among
nothing_in r [] e h = cc
nothing_in r (x ∷ xs) e h = cc

others_need : (p : Text) → eq_text (codes "a") p ≡ false → needed pair p ≡ []
unfolding needed needed_of references_of keep_if
others_need p e = elim (Bool-cases (eq_text (codes "b") p)) [
  | inl b ↦ rw b refl
  | inr b ↦ rw (b, e) refl
]

only_b : (r : Text) → among r (codes "b" ∷ []) ≡ true → rank r < 1
unfolding among eq_text
only_b r h = rw (← eq_text→eq (codes "b") r (ground arith)) (omega arith)

falls : (p r : Text) → among r (needed pair p) ≡ true → rank r < rank p
falls p r h = elim (Bool-cases (eq_text (codes "a") p)) [
  | inl a ↦
      rw a
        (only_b r (ap (among r) (sym a_needs ∙ ap (needed pair) (eq_text→eq (codes "a") p a)) ∙ h))
  | inr a ↦ absurd (nothing_in r (needed pair p) (others_need p a) h)
]

dep_dags_complete_example :
    (ts : List Tree) × (dep_dags pair in_order (codes "a") ≡ ok ts)
    × ((p : Text) → times p (paths ts) ≡ times p (members pair))
    × (behind pair [] (paths ts) ≡ true)
    × AllWhole pair ts
dep_dags_complete_example = dep_dags_complete pair in_order (λ xs n. refl) rank falls (codes "a")

dep_dags_ends_example :
    (ts : List Tree) × (dep_dags selfish in_order (codes "program") ≡ ok ts)
    × ((p : Text) → times p (paths ts) ≤ times p (members selfish))
    × ((p : Text)
        → among p (needed selfish p) ≡ true
        → eq_text (codes "program") p ≡ false
        → among p (paths ts) ≡ false)
dep_dags_ends_example = dep_dags_ends selfish in_order (λ xs n. refl) (codes "program")
