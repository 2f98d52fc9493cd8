-- ===== src/Nix/Queue.antt =====
-- What the queue of dep_dags holds.
use desmata.Prelude.{
  ◌≤◌, Bool, true, ◌&&◌, ◌||◌, Option, none, some, List, [], ◌∷◌, ◌++◌, ◌≡◌, refl, sym, ap, ◌∙◌,
  map, arith, ltb, Bool-cases, inl, inr,
}
use desmata.Prelude.Texts.{Text, eq_text, length}
use desmata.Wit.{among}
use desmata.Archive.Files.{times, among_same}
use desmata.Transport.{Info, members, references_of, keep_if, subset}
use desmata.Transport.Order.{same_length, among-times, among-append}
use desmata.Transport.Members.{among-members}
use desmata.Transport.Leaves.{among-keep_if}
use desmata.Nix.{needed, parents, freed, adds, leaf_nodes, is_empty}

-- Going through a set meets each of its elements once.
abbrev pub IsListing : (List Text → List Text) → Type 0
IsListing listed = (xs : List Text) (n : Text) → times n (listed xs) ≡ times n xs

pub subset-among :
    (xs ys : List Text) (r : Text) → subset xs ys ≡ true → among r xs ≡ true → among r ys ≡ true
unfolding subset among
subset-among [] ys r h k = cc
subset-among (x ∷ xs) ys r h k = ground (arith, subset-among xs ys r, among_same r x ys)

pub last_among : (D : List Text) (c r : Text) → among r (D ++ c ∷ []) ≡ (among r D || eq_text c r)
unfolding among
last_among D c r = ground (arith, among-append r D (c ∷ []))

pub length-keep_if : (test : Text → Bool) (xs : List Text) → length (keep_if test xs) ≤ length xs
unfolding keep_if
length-keep_if test [] = omega arith
length-keep_if test (x ∷ xs) = ground (arith, length-keep_if test xs)

among-paths :
    (infos : List Info) (c : Text)
    → among c (map (λ i. i.path) infos) ≡ true
    → (references : List Text) × (references_of infos c ≡ some references)
unfolding among references_of
among-paths [] c h = cc
among-paths (i ∷ infos) c h = elim (Bool-cases (among c (map (λ i. i.path) infos))) [
  | inl later ↦ let (references, e) = among-paths infos c later in (references, rw e refl)
  | inr absent ↦ found (references_of infos c) refl (ground (arith))
]
  where
    found :
        (o : Option (List Text))
        → references_of infos c ≡ o
        → eq_text i.path c ≡ true
        → (references : List Text) × (references_of (i ∷ infos) c ≡ some references)
    found (some references) e same = (references, rw e refl)
    found none e same = (i.references, rw (e, same) refl)

module _ (infos : List Info) where
  pub member-references :
      (c : Text)
      → among c (members infos) ≡ true
      → (references : List Text) × (references_of infos c ≡ some references)
  member-references c h = among-paths infos c (sym (among-members infos c) ∙ h)

  module _ (listed : List Text → List Text) (listing : IsListing listed) where
    pub among-listed : (xs : List Text) (n : Text) → among n (listed xs) ≡ among n xs
    among-listed xs n =
        among-times n (listed xs) ∙ (ap (λ t. ltb 0 t) (listing xs n) ∙ sym (among-times n xs))

    pub length-listed : (xs : List Text) → length (listed xs) ≡ length xs
    length-listed xs = same_length (listed xs) xs (listing xs)

    among-parents :
        (c p : Text)
        → among p (parents infos c) ≡ (among c (needed infos p) && among p (members infos))
    unfolding parents
    among-parents c p = among-keep_if (λ p. among c (needed infos p)) p (members infos)

    pub among-freed :
        (D : List Text) (c p : Text)
        → among p (freed infos listed D c)
          ≡ (subset (needed infos p) D && (among c (needed infos p) && among p (members infos)))
    unfolding freed
    among-freed D c p =
        among-keep_if (λ p. subset (needed infos p) D) p (listed (parents infos c))
        ∙ ap (λ b. subset (needed infos p) D && b)
            (among-listed (parents infos c) p ∙ among-parents c p)

    pub length-adds :
        (D : List Text) (c : Text) (o : Option (List Text))
        → length (adds infos listed D c o) ≤ length (members infos)
    unfolding adds freed parents
    length-adds D c none = omega arith
    length-adds D c (some references) = omega (
      arith,
      length-keep_if (λ p. subset (needed infos p) D) (listed (parents infos c)),
      length-listed (parents infos c),
      length-keep_if (λ p. among c (needed infos p)) (members infos),
    )

    -- The queue holds members whose dependencies are processed, and each of those that is not
    -- processed itself.
    pub record IsQueue (Q D : List Text) : Type 0 where
      pub queued :
          (p : Text)
          → among p Q ≡ true
          → (among p (members infos) ≡ true) × (subset (needed infos p) D ≡ true)
      pub pending :
          (p : Text)
          → among p (members infos) ≡ true
          → subset (needed infos p) D ≡ true
          → (among p D || among p Q) ≡ true

    pub among-leaf_nodes :
        (p : Text)
        → among p (leaf_nodes infos listed) ≡ (is_empty (needed infos p) && among p (members infos))
    unfolding leaf_nodes
    among-leaf_nodes p =
        among-keep_if (λ p. is_empty (needed infos p)) p (listed (members infos))
        ∙ ap (λ b. is_empty (needed infos p) && b) (among-listed (members infos) p)
