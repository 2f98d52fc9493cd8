-- ===== src/Nix/Yields.antt =====
-- What dep_dags yields.
use desmata.Prelude.{
  ℕ, zero, suc, ◌<◌, true, false, Option, some, List, [], ◌∷◌, ◌++◌, ◌≡◌, refl, subst, &&_both,
  arith, Bool-cases, inl, inr,
}
use desmata.Prelude.Results.{ok}
use desmata.Prelude.Texts.{Text, eq_text, eq_text→eq, eq_text_refl}
use desmata.Wit.{among}
use desmata.Archive.Cell.{outside}
use desmata.Transport.{Info, members, subset}
use desmata.Nix.{Tree, needed, adds, yields, build_tree, blocked, rounds, process}
use desmata.Nix.Queue.{IsListing, last_among, member-references, length-adds, IsQueue, subset-among}
use desmata.Nix.Rounds.{rounds-append, rounds_first, rounds-less, skipped, visited-IsQueue}
use desmata.Nix.Loop.{IsRun, visited-IsRun, behind}

module _ (infos : List Info) where
  -- A path that refers to itself stands behind nothing.
  pub behind_self :
      (done ps : List Text) (p : Text)
      → behind infos done ps ≡ true
      → among p (needed infos p) ≡ true
      → among p done ≡ false
      → among p ps ≡ false
  unfolding behind among
  behind_self done [] p h a n = refl
  behind_self done (q ∷ ps) p h a n =
      let (first, rest) = &&_both _ _ h in
      elim (Bool-cases (eq_text q p)) [
        | inl e ↦
            let s : subset (needed infos p) done ≡ true =
              subst (λ x. subset (needed infos x) done ≡ true) (eq_text→eq q p e) first in
            cc (subset-among (needed infos p) done p s a, n)
        | inr e ↦
            rw e (behind_self (done ++ q ∷ []) ps p rest a (rw (last_among done q p, n, e) refl))
      ]

  not_blocked :
      (D : List Text) (c : Text) → subset (needed infos c) D ≡ true → blocked infos D c ≡ false
  unfolding blocked
  not_blocked D c s = ground (arith)

  module _ (listed : List Text → List Text) (listing : IsListing listed) where
    fewer :
        (f : ℕ) (c : Text) (Q D : List Text) (o : Option (List Text))
        → among c (members infos) ≡ true
        → among c D ≡ false
        → rounds infos (c ∷ Q) (outside D (members infos)) < suc f
        → rounds infos
            (Q ++ adds infos listed (D ++ c ∷ []) c o)
            (outside (D ++ c ∷ []) (members infos))
          < f
    fewer f c Q D o m n l = omega (
      arith,
      rounds-append infos Q (adds infos listed (D ++ c ∷ []) c o)
          (outside (D ++ c ∷ []) (members infos)),
      rounds_first infos c Q (outside D (members infos)),
      rounds-less infos Q D c (members infos) m n,
      length-adds infos listed listing (D ++ c ∷ []) c o,
    )

    pub process_ends :
        (f : ℕ) (Q D : List Text) (yl : List Tree)
        → rounds infos Q (outside D (members infos)) < f
        → IsQueue infos listed listing Q D
        → IsRun infos D yl
        → (E : List Text) × (zl : List Tree) × (process infos listed f Q D yl ≡ ok (E, zl))
          × IsQueue infos listed listing [] E
          × IsRun infos E zl
    unfolding process
    process_ends zero Q D yl l q r = absurd (omega arith)
    process_ends (suc f) [] D yl l q r = (D, yl, refl, q, r)
    process_ends (suc f) (c ∷ Q) D yl l q r = elim (Bool-cases (among c D)) [
      | inl old ↦ rw old (
          process_ends f Q D yl (omega (arith, rounds_first infos c Q (outside D (members infos))))
            (skipped infos listed listing c Q D q old) r)
      | inr new ↦
          let (m, s) = q.queued c (unfold among in rw (eq_text_refl c) refl) in
          let (references, e) = member-references infos c m in
          rw (new, not_blocked D c s, e)
            (unfold yields in
              process_ends f (Q ++ adds infos listed (D ++ c ∷ []) c (some references))
                (D ++ c ∷ []) (yl ++ build_tree infos yl c references ∷ [])
                (fewer f c Q D (some references) m new l)
                (visited-IsQueue infos listed listing c Q D references q)
                (visited-IsRun infos c D references yl new m s e r))
    ]
