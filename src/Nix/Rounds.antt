-- ===== src/Nix/Rounds.antt =====
-- The loop of dep_dags: what it keeps, and when it ends.
use desmata.Prelude.{
  suc, ◌+◌, ◌≤◌, true, false, ◌||◌, Option, none, some, List, [], ◌∷◌, ◌++◌, ◌≡◌, refl, sym, ◌∙◌,
  subst, &&_both, arith, Bool-cases, inl, inr,
}
use desmata.Prelude.Texts.{
  Text, eq_text, eq_text→eq, eq_text_refl, eq_text_right, length, length-append,
}
use desmata.Wit.{among}
use desmata.Archive.Cell.{outside}
use desmata.Archive.Files.{among_same}
use desmata.Transport.{Info, members, subset}
use desmata.Transport.Order.{among-append}
use desmata.Transport.Leaves.{subset-more, outside_of}
use desmata.Nix.{needed, freed, adds, leaf_nodes, is_empty, rounds}
use desmata.Nix.Queue.{IsListing, subset-among, last_among, among-freed, among-leaf_nodes, IsQueue}

module _ (infos : List Info) where
  pub rounds-append : (Q X W : List Text) → rounds infos (Q ++ X) W ≡ rounds infos Q W + length X
  unfolding rounds
  rounds-append Q X [] = length-append Q X
  rounds-append Q X (w ∷ W) = omega (arith, rounds-append Q X W)

  pub rounds_first : (c : Text) (Q W : List Text) → rounds infos (c ∷ Q) W ≡ suc (rounds infos Q W)
  unfolding rounds
  rounds_first c Q [] = refl
  rounds_first c Q (w ∷ W) = omega (arith, rounds_first c Q W)

  rounds_mono :
      (Q D : List Text) (c : Text) (W : List Text)
      → rounds infos Q (outside (D ++ c ∷ []) W) ≤ rounds infos Q (outside D W)
  unfolding rounds outside
  rounds_mono Q D c [] = omega arith
  rounds_mono Q D c (w ∷ W) = ground (arith, rounds_mono Q D c W, last_among D c w)

  pub rounds-less :
      (Q D : List Text) (c : Text) (W : List Text)
      → among c W ≡ true
      → among c D ≡ false
      → rounds infos Q (outside (D ++ c ∷ []) W) + length (members infos)
        ≤ rounds infos Q (outside D W)
  unfolding rounds outside among
  rounds-less Q D c [] h k = cc
  rounds-less Q D c (w ∷ W) h k = ground (
    arith,
    rounds-less Q D c W,
    rounds_mono Q D c W,
    last_among D c w,
    among_same c w D,
    eq_text_right c w c,
    eq_text_refl c,
  )

  module _ (listed : List Text → List Text) (listing : IsListing listed) where
    pub skipped :
        (c : Text) (Q D : List Text)
        → IsQueue infos listed listing (c ∷ Q) D
        → among c D ≡ true
        → IsQueue infos listed listing Q D
    unfolding among
    skipped c Q D h k = record {
      queued = λ p a. h.queued p (ground (arith));
      pending = λ p a b. ground (arith, h.pending p a b, among_same p c D);
    }

    visited_queued :
        (c : Text) (Q D : List Text) (o : Option (List Text))
        → IsQueue infos listed listing (c ∷ Q) D
        → (p : Text) → among p (Q ++ adds infos listed (D ++ c ∷ []) c o) ≡ true
        → (among p (members infos) ≡ true) × (subset (needed infos p) (D ++ c ∷ []) ≡ true)
    unfolding among adds
    visited_queued c Q D none h p a =
        let (m, r) = h.queued p (ground (arith, among-append p Q [])) in
        (m, subset-more (needed infos p) D (c ∷ []) r)
    visited_queued c Q D (some references) h p a = elim (Bool-cases (among p Q)) [
      | inl old ↦
          let (m, r) = h.queued p (ground (arith)) in (m, subset-more (needed infos p) D (c ∷ []) r)
      | inr new ↦
          let f : among p (freed infos listed (D ++ c ∷ []) c) ≡ true =
            ground (arith, among-append p Q (freed infos listed (D ++ c ∷ []) c)) in
          let (r, more) =
            &&_both _ _ (sym (among-freed infos listed listing (D ++ c ∷ []) c p) ∙ f) in
          ((&&_both _ _ more).1, r)
    ]

    -- A dependency that has just been processed.
    is_last :
        (D : List Text) (c r : Text)
        → among r (D ++ c ∷ []) ≡ true
        → among r D ≡ false
        → eq_text c r ≡ true
    is_last D c r h k = ground (arith, last_among D c r)

    newly_freed :
        (c : Text) (D : List Text) (p : Text)
        → among p (members infos) ≡ true
        → subset (needed infos p) D ≡ false
        → subset (needed infos p) (D ++ c ∷ []) ≡ true
        → among p (freed infos listed (D ++ c ∷ []) c) ≡ true
    newly_freed c D p m before after =
        let (r, in_needed, not_done) = outside_of (needed infos p) D before in
        let last =
          is_last D c r (subset-among (needed infos p) (D ++ c ∷ []) r after in_needed) not_done in
        let is_parent : among c (needed infos p) ≡ true =
          subst (λ x. among x (needed infos p) ≡ true) (sym (eq_text→eq c r last)) in_needed in
        rw (among-freed infos listed listing (D ++ c ∷ []) c p, after, is_parent, m) refl

    visited_pending :
        (c : Text) (Q D references : List Text)
        → IsQueue infos listed listing (c ∷ Q) D
        → (p : Text) → among p (members infos) ≡ true
        → subset (needed infos p) (D ++ c ∷ []) ≡ true
        → (among p (D ++ c ∷ []) || among p (Q ++ freed infos listed (D ++ c ∷ []) c)) ≡ true
    unfolding among
    visited_pending c Q D references h p m after = elim (Bool-cases (subset (needed infos p) D)) [
      | inl before ↦ ground (
        arith,
        h.pending p m before,
        last_among D c p,
        among-append p Q (freed infos listed (D ++ c ∷ []) c),
      )
      | inr before ↦ ground (
        arith,
        newly_freed c D p m before after,
        among-append p Q (freed infos listed (D ++ c ∷ []) c),
      )
    ]

    pub visited-IsQueue :
        (c : Text) (Q D references : List Text)
        → IsQueue infos listed listing (c ∷ Q) D
        → IsQueue infos listed listing
            (Q ++ adds infos listed (D ++ c ∷ []) c (some references))
            (D ++ c ∷ [])
    unfolding adds
    visited-IsQueue c Q D references h = record {
      queued = visited_queued c Q D (some references) h;
      pending = visited_pending c Q D references h;
    }

    empty_needs : (xs : List Text) → is_empty xs ≡ true → subset xs [] ≡ true
    unfolding is_empty subset
    empty_needs [] h = refl
    empty_needs (x ∷ xs) h = cc

    no_needs : (xs : List Text) → subset xs [] ≡ true → is_empty xs ≡ true
    unfolding is_empty subset among
    no_needs [] h = refl
    no_needs (x ∷ xs) h = cc

    pub leaf_nodes-IsQueue : IsQueue infos listed listing (leaf_nodes infos listed) []
    leaf_nodes-IsQueue = record {
      queued = λ p a.
          let (e, m) = &&_both _ _ (sym (among-leaf_nodes infos listed listing p) ∙ a) in
          (m, empty_needs (needed infos p) e);
      pending = λ p m r.
          unfold among in
          rw (among-leaf_nodes infos listed listing p, no_needs (needed infos p) r, m) refl;
    }
