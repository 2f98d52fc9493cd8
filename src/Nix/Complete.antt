-- ===== src/Nix/Complete.antt =====
-- What dep_dags yields of a closure, with cycles and without.
use desmata.Prelude.{
  ℕ, zero, suc, ◌≤◌, ◌<◌, Bool, true, false, Option, none, some, List, [], ◌∷◌, ◌++◌, ◌≡◌, refl,
  sym, ap, ◌∙◌, subst, map, append-nil, arith, Bool-cases, inl, inr, ◌⊎◌,
}
use desmata.Prelude.Results.{ok}
use desmata.Prelude.Texts.{Text, eq_text, eq_text→eq}
use desmata.Wit.{among}
use desmata.Archive.Cell.{outside}
use desmata.Archive.Files.{times}
use desmata.Transport.{Info, members, references_of, subset}
use desmata.Transport.Order.{among-times}
use desmata.Transport.Members.{among-members, times-members}
use desmata.Transport.Leaves.{outside_of, among-keep_if}
use desmata.Nix.{
  Tree, needed, needed_of, yields, build_tree, leaf_nodes, rounds, process, with_root, dep_dags,
}
use desmata.Nix.Queue.{IsListing, member-references, IsQueue, last_among}
use desmata.Nix.Rounds.{leaf_nodes-IsQueue}
use desmata.Nix.Whole.{paths, paths-append, AllWhole}
use desmata.Nix.Loop.{IsRun, behind, once_more}
use desmata.Nix.Yields.{process_ends, behind_self}

outside_none : (W : List Text) → outside [] W ≡ W
unfolding outside among
outside_none [] = refl
outside_none (w ∷ W) = ap (λ l. w ∷ l) (outside_none W)

absent-references :
    (infos : List Info) (c : Text)
    → among c (map (λ i. i.path) infos) ≡ false
    → references_of infos c ≡ none
unfolding among references_of
absent-references [] c h = refl
absent-references (i ∷ infos) c h = elim (Bool-cases (eq_text i.path c)) [
  | inl e ↦ cc (h, e)
  | inr e ↦ rw (absent-references infos c (rw e at h), e) refl
]

needed_of-members :
    (infos : List Info) (o : Option (List Text)) (r : Text)
    → among r (needed_of infos o) ≡ true
    → among r (members infos) ≡ true
unfolding needed_of among
needed_of-members infos none r h = cc
needed_of-members infos (some references) r h =
    ground (arith, among-keep_if (λ r. among r (members infos)) r references)

module _ (infos : List Info) (listed : List Text → List Text) (listing : IsListing listed) where
  process-IsRun :
      (E : List Text) × (zl : List Tree) × (process infos listed
          (suc (rounds infos (leaf_nodes infos listed) (members infos)))
          (leaf_nodes infos listed)
          []
          []
        ≡ ok (E, zl))
      × IsQueue infos listed listing [] E
      × IsRun infos E zl
  process-IsRun =
      process_ends infos listed listing
        (suc (rounds infos (leaf_nodes infos listed) (members infos))) (leaf_nodes infos listed) []
        [] (rw (outside_none (members infos)) (omega arith))
        (leaf_nodes-IsQueue infos listed listing)
        (record {
          known = λ p a. unfold among in cc a;
          once = λ p. unfold times in omega arith;
          ordered = unfold behind in refl;
          same_paths = refl;
          whole = tt;
        })

  absent : (c : Text) → among c (members infos) ≡ false → references_of infos c ≡ none
  absent c h = absent-references infos c (sym (among-members infos c) ∙ h)

  needed-members : (p r : Text) → among r (needed infos p) ≡ true → among r (members infos) ≡ true
  unfolding needed
  needed-members p r h = needed_of-members infos (references_of infos p) r h

  with_root_done :
      (root : Text) (E : List Text) (zl : List Tree)
      → (among root (members infos) ≡ true → among root E ≡ true)
      → with_root infos root E zl ≡ zl
  unfolding with_root yields
  with_root_done root E zl h = elim (Bool-cases (among root E)) [
    | inl x ↦ rw x refl
    | inr x ↦ elim (Bool-cases (among root (members infos))) [
      | inl m ↦ cc (h m, x)
      | inr m ↦ rw (x, absent root m) (append-nil zl)
    ]
  ]

  same_member :
      (root p : Text)
      → among root (members infos) ≡ true
      → eq_text root p ≡ true
      → among p (members infos) ≡ true
  same_member root p m e = subst (λ q. among q (members infos) ≡ true) (eq_text→eq root p e) m

  false_or_true : {b : Bool} → b ≡ false → b ≡ true → ⊥
  false_or_true h k = cc

  added :
      (root : Text) (E : List Text) (zl : List Tree)
      → among root (members infos) ≡ true
      → among root E ≡ false
      → paths zl ≡ E
      → paths (with_root infos root E zl) ≡ E ++ root ∷ []
  unfolding with_root yields build_tree
  added root E zl m x same =
      let (references, e) = member-references infos root m in
      rw (x, e) (paths-append zl _ ∙ ap (λ l. l ++ root ∷ []) same)

  -- The root comes last, or is not added.
  abbrev WithRoot : Text → List Text → List Text → Type 0
  WithRoot root E ps =
      (ps ≡ E)
      ⊎ ((among root E ≡ false) × (among root (members infos) ≡ true) × (ps ≡ E ++ root ∷ []))

  with_root-paths :
      (root : Text) (E : List Text) (zl : List Tree)
      → paths zl ≡ E
      → WithRoot root E (paths (with_root infos root E zl))
  with_root-paths root E zl same = elim (Bool-cases (among root (members infos))) [
    | inr m ↦ inl (ap paths (with_root_done root E zl (λ x. absurd (false_or_true m x))) ∙ same)
    | inl m ↦ elim (Bool-cases (among root E)) [
      | inl x ↦ inl (ap paths (with_root_done root E zl (λ y. x)) ∙ same)
      | inr x ↦ inr (x, m, added root E zl m x same)
    ]
  ]

  at_most_once :
      (root : Text) (E : List Text) (p : Text) (ps : List Text)
      → WithRoot root E ps
      → {zl : List Tree} → IsRun infos E zl
      → times p ps ≤ times p (members infos)
  at_most_once root E p ps (inl e) r =
      rw e (ground (arith, times-members infos p, r.once p, among-times p E, r.known p))
  at_most_once root E p ps (inr (x, m, e)) r = rw e (
      ground (
        arith,
        times-members infos p,
        once_more root E p x (r.once p),
        among-times p (E ++ root ∷ []),
        last_among E root p,
        r.known p,
        same_member root p m,
      ))

  not_yielded :
      (root : Text) (E : List Text) (p : Text) (ps : List Text)
      → WithRoot root E ps
      → eq_text root p ≡ false
      → among p E ≡ false
      → among p ps ≡ false
  not_yielded root E p ps (inl e) other n = rw e n
  not_yielded root E p ps (inr (x, m, e)) other n = rw (e, last_among E root p, n, other) refl

  module _ (rank : Text → ℕ)
      (falls : (p r : Text) → among r (needed infos p) ≡ true → rank r < rank p) where
    all_processed :
        (k : ℕ) (E : List Text) (p : Text)
        → IsQueue infos listed listing [] E
        → rank p < k
        → among p (members infos) ≡ true
        → among p E ≡ true
    all_processed zero E p q l m = absurd (omega arith)
    all_processed (suc k) E p q l m = elim (Bool-cases (subset (needed infos p) E)) [
      | inl r ↦ unfold among in ground (arith, q.pending p m r)
      | inr b ↦
          let (r, a, n) = outside_of (needed infos p) E b in
          cc (n, all_processed k E r q (omega (arith, falls p r a)) (needed-members p r a))
    ]

    -- Where the references to paths of the closure have no cycle, and no path refers to itself (they
    -- fall along some rank), and in whatever order Python goes through its sets: dep_dags yields one
    -- tree for each path of the closure and no other, each path behind everything that it refers to,
    -- whatever root is given. Each tree holds, in the order of the path's references, the whole trees
    -- of those that are in the closure, and its size counts them.
    pub dep_dags_complete :
        (root : Text)
        → (ts : List Tree) × (dep_dags infos listed root ≡ ok ts)
          × ((p : Text) → times p (paths ts) ≡ times p (members infos))
          × (behind infos [] (paths ts) ≡ true)
          × AllWhole infos ts
    unfolding dep_dags
    dep_dags_complete root =
        let (E, zl, e, q, r) = process-IsRun in
        let every : (p : Text) → among p (members infos) ≡ true → among p E ≡ true =
          λ p. all_processed (suc (rank p)) E p q (omega arith) in
        rw (e, with_root_done root E zl (every root))
          (
            zl,
            refl,
            λ p. rw r.same_paths (
                ground
                  (arith, times-members infos p, r.once p, among-times p E, r.known p, every p)),
            rw r.same_paths r.ordered,
            r.whole,
          )

  -- On every closure, whatever its references and the order in which Python goes through its sets,
  -- the loop ends. It yields paths of the closure only, each once at most, and a path that refers to
  -- itself not at all, unless it is the root.
  pub dep_dags_ends :
      (root : Text)
      → (ts : List Tree) × (dep_dags infos listed root ≡ ok ts)
        × ((p : Text) → times p (paths ts) ≤ times p (members infos))
        × ((p : Text)
            → among p (needed infos p) ≡ true
            → eq_text root p ≡ false
            → among p (paths ts) ≡ false)
  unfolding dep_dags
  dep_dags_ends root =
      let (E, zl, e, q, r) = process-IsRun in
      let both = with_root-paths root E zl r.same_paths in
      rw e (
        with_root infos root E zl,
        refl,
        λ p. at_most_once root E p (paths (with_root infos root E zl)) both r,
        λ p a other.
            not_yielded root E p (paths (with_root infos root E zl)) both other
              (behind_self infos [] E p r.ordered a (unfold among in refl)),
      )
