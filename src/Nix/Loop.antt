-- ===== src/Nix/Loop.antt =====
-- What dep_dags yields.
use desmata.Prelude.{
  ◌≤◌, Bool, true, false, ◌&&◌, some, List, [], ◌∷◌, ◌++◌, ◌≡◌, refl, ap, ◌∙◌, subst, arith,
  append_assoc, append-nil,
}
use desmata.Prelude.Texts.{Text, eq_text, eq_text→eq}
use desmata.Wit.{among}
use desmata.Archive.Files.{times}
use desmata.Transport.{Info, members, references_of, subset}
use desmata.Transport.Order.{times-append, among-times}
use desmata.Nix.{Tree, needed, build_tree}
use desmata.Nix.Queue.{last_among}
use desmata.Nix.Whole.{paths, paths-append, AllWhole, AllWhole-append, build_tree-IsWhole}

pub once_more :
    (c : Text) (D : List Text) (p : Text)
    → among c D ≡ false
    → times p D ≤ 1
    → times p (D ++ c ∷ []) ≤ 1
unfolding times
once_more c D p new once = ground (arith, times-append p D (c ∷ []), among-times p D, still_new)
  where
    still_new : eq_text c p ≡ true → among p D ≡ false
    still_new x = subst (λ q. among q D ≡ false) (eq_text→eq c p x) new

module _ (infos : List Info) where
  -- Behind what is `done`, each path comes behind everything that it needs, itself included where it
  -- refers to itself.
  unfoldable pub behind : List Text → List Text → Bool
  behind done [] = true
  behind done (p ∷ ps) = subset (needed infos p) done && behind (done ++ p ∷ []) ps

  behind-append :
      (done ps : List Text) (c : Text)
      → behind done ps ≡ true
      → subset (needed infos c) (done ++ ps) ≡ true
      → behind done (ps ++ c ∷ []) ≡ true
  unfolding behind
  behind-append done [] c h s =
      rw (subst (λ l. subset (needed infos c) l ≡ true) (append-nil done) s) refl
  behind-append done (p ∷ ps) c h s = ground (arith, behind-append (done ++ p ∷ []) ps c, grouped)
    where
      grouped : subset (needed infos c) ((done ++ p ∷ []) ++ ps) ≡ true
      grouped = rw (append_assoc done (p ∷ []) ps) s

  -- What the loop keeps of the processed paths and the yielded trees.
  pub record IsRun (D : List Text) (yl : List Tree) : Type 0 where
    pub known : (p : Text) → among p D ≡ true → among p (members infos) ≡ true
    pub once : (p : Text) → times p D ≤ 1
    pub ordered : behind [] D ≡ true
    pub same_paths : paths yl ≡ D
    pub whole : AllWhole infos yl

  pub visited-IsRun :
      (c : Text) (D references : List Text) (yl : List Tree)
      → among c D ≡ false
      → among c (members infos) ≡ true
      → subset (needed infos c) D ≡ true
      → references_of infos c ≡ some references
      → IsRun D yl
      → IsRun (D ++ c ∷ []) (yl ++ build_tree infos yl c references ∷ [])
  visited-IsRun c D references yl new m s e h = record {
    known = λ p a. ground (arith, h.known p, last_among D c p, same_member p);
    once = λ p. once_more c D p new (h.once p);
    ordered = behind-append [] D c h.ordered s;
    same_paths =
        unfold build_tree in
        (paths-append yl (build_tree infos yl c references) ∙ ap (λ l. l ++ c ∷ []) h.same_paths);
    whole =
        AllWhole-append infos yl (build_tree infos yl c references) h.whole
          (build_tree-IsWhole infos yl c references e h.whole (rw h.same_paths s));
  }
    where
      same_member : (p : Text) → eq_text c p ≡ true → among p (members infos) ≡ true
      same_member p x = subst (λ q. among q (members infos) ≡ true) (eq_text→eq c p x) m
