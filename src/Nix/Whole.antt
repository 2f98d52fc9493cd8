-- ===== src/Nix/Whole.antt =====
-- Trees that hold all the dependencies of their path.
use desmata.Prelude.{
  suc, true, some, List, [], ◌∷◌, ◌++◌, ◌≡◌, refl, ap, &&_both, Bool-cases, inl, inr,
}
use desmata.Prelude.Texts.{Text, eq_text, eq_text→eq}
use desmata.Wit.{among}
use desmata.Transport.{Info, members, references_of, keep_if, subset}
use desmata.Nix.{
  Tree, tree, Trees, no_trees, a_tree, path_of, sizes, built, needed, needed_of, gather, build_tree,
}

abbrev pub paths : List Tree → List Text
paths [] = []
paths (t ∷ ts) = path_of t ∷ paths ts

pub paths-append : (ts : List Tree) (t : Tree) → paths (ts ++ t ∷ []) ≡ paths ts ++ path_of t ∷ []
paths-append [] t = refl
paths-append (u ∷ ts) t = ap (λ l. path_of u ∷ l) (paths-append ts t)

module _ (infos : List Info) where
  -- A tree holds the info of its path and, in the order of the references, a whole tree for each of
  -- them that has an info, and its size counts the trees.
  abbrev mutual
    pub IsWhole : Tree → Type 0
    IsWhole (tree size info dependencies) =
        (references_of infos info.path ≡ some info.references)
        × (size ≡ suc (sizes dependencies))
        × AreWhole (needed infos info.path) dependencies

    pub AreWhole : List Text → Trees → Type 0
    AreWhole [] no_trees = Unit
    AreWhole [] (a_tree t ts) = ⊥
    AreWhole (r ∷ rs) no_trees = ⊥
    AreWhole (r ∷ rs) (a_tree t ts) = (path_of t ≡ r) × IsWhole t × AreWhole rs ts

  abbrev pub AllWhole : List Tree → Type 0
  AllWhole [] = Unit
  AllWhole (t ∷ ts) = IsWhole t × AllWhole ts

  pub AllWhole-append :
      (ts : List Tree) (t : Tree) → AllWhole ts → IsWhole t → AllWhole (ts ++ t ∷ [])
  AllWhole-append [] t h k = (k, tt)
  AllWhole-append (u ∷ ts) t (v, h) k = (v, AllWhole-append ts t h k)

  built-IsWhole :
      (ts : List Tree) (r : Text)
      → AllWhole ts
      → among r (paths ts) ≡ true
      → (t : Tree) × (built ts r ≡ some t) × (path_of t ≡ r) × IsWhole t
  unfolding among built
  built-IsWhole [] r h a = cc
  built-IsWhole (t ∷ ts) r (v, h) a = elim (Bool-cases (eq_text (path_of t) r)) [
    | inl e ↦ (t, rw e refl, eq_text→eq (path_of t) r e, v)
    | inr e ↦ let (u, b, p, w) = built-IsWhole ts r h (rw e at a) in (u, rw e b, p, w)
  ]

  gather-AreWhole :
      (ts : List Tree) (references : List Text)
      → AllWhole ts
      → subset (keep_if (λ r. among r (members infos)) references) (paths ts) ≡ true
      → AreWhole (keep_if (λ r. among r (members infos)) references) (gather infos ts references)
  unfolding gather keep_if subset
  gather-AreWhole ts [] h s = tt
  gather-AreWhole ts (r ∷ references) h s = elim (Bool-cases (among r (members infos))) [
    | inl m ↦
        let both = &&_both _ _ (rw m at s) in
        let (t, b, p, w) = built-IsWhole ts r h both.0 in
        rw (m, b) (p, w, gather-AreWhole ts references h both.1)
    | inr m ↦ rw m (gather-AreWhole ts references h (rw m at s))
  ]

  -- The tree that is built for a path whose dependencies are processed.
  pub build_tree-IsWhole :
      (ts : List Tree) (c : Text) (references : List Text)
      → references_of infos c ≡ some references
      → AllWhole ts
      → subset (needed infos c) (paths ts) ≡ true
      → IsWhole (build_tree infos ts c references)
  unfolding build_tree needed needed_of
  build_tree-IsWhole ts c references e h s =
      (e, refl, rw e (gather-AreWhole ts references h (rw e at s)))
