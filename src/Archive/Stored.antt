-- ===== src/Archive/Stored.antt =====
-- What a repository resolves once a cell was stored in it.
use desmata.Prelude.{◌≡◌, refl, subst, ◌∙◌, List, ◌++◌}
use desmata.Prelude.Results.{Result, ok, ◌>>=◌, >>=-eq-ok, ok_eq}
use desmata.Prelude.Texts.{Text}
use desmata.Archive.Cell.{CellDir, nucleus_files, membrane_files}
use desmata.Archive.Manifest.{
  Entry, nucleus, cell, Ipfs, Written, require_nucleus, entries, store_nucleus, nucleus_manifest,
  store_cell, cell_manifest, nucleus_entries, all_entries, fetch,
}
use desmata.Archive.Unpack.{
  contents, contents-append, triple, Keeps, Keeps-trans, Stores, Linked, entries-Linked,
  fetch-append, with_link,
}

module _ (I : Ipfs) (laws : Stores I) where
  -- What the entries link, where they were stored.
  Linked-ok :
      (files : Result Written) (r : I.Repo) (o : Result (List Entry × I.Repo)) (es : List Entry)
      (r' : I.Repo)
      → o ≡ ok (es, r')
      → Linked I files r o
      → (ws : Written) × (files ≡ ok ws)
        × Keeps I r r'
        × ((q : I.Repo) → Keeps I r' q → fetch I q es ≡ ok ws)
  Linked-ok files r o es r' e h = subst (λ o. Linked I files r o) e h

  read_entries :
      (r : I.Repo) (c n : Text) (ns es : List Entry) (ws vs : Written)
      → I.dag_get r c ≡ ok (cell n es)
      → I.dag_get r n ≡ ok (nucleus ns)
      → fetch I r ns ≡ ok ws
      → fetch I r es ≡ ok vs
      → (I.dag_get r c >>= all_entries I r >>= fetch I r) ≡ ok (ws ++ vs)
  unfolding all_entries nucleus_entries
  read_entries r c n ns es ws vs g h f k = rw (g, h, fetch-append I r ns es, f, k) refl

  joined :
      (n' : Text) (r₁ r₂ r₃ : I.Repo) (ns es : List Entry) (ws vs : Written)
      → I.dag_put (nucleus ns) r₁ ≡ (n', r₂)
      → Keeps I r₂ r₃
      → ((q : I.Repo) → Keeps I r₁ q → fetch I q ns ≡ ok ws)
      → ((q : I.Repo) → Keeps I r₃ q → fetch I q es ≡ ok vs)
      → (c n : Text) (r' : I.Repo) → (I.dag_put (cell n' es) r₃).0 ≡ c
      → n' ≡ n
      → (I.dag_put (cell n' es) r₃).1 ≡ r'
      → (I.dag_get r' c >>= all_entries I r' >>= fetch I r') ≡ ok (ws ++ vs)
  joined n' r₁ r₂ r₃ ns es ws vs e k readn readm c n r' ec en er =
      let put : Keeps I r₁ r₂ = subst (λ x. Keeps I r₁ (x.1)) e (laws.keeps_put (nucleus ns) r₁) in
      let last = laws.keeps_put (cell n' es) r₃ in
      let there : I.dag_get r₂ n' ≡ ok (nucleus ns) =
        subst (λ x. I.dag_get (x.1) (x.0) ≡ ok (nucleus ns)) e (laws.get_put (nucleus ns) r₁) in
      let later = Keeps-trans I k last in
      rw (← ec, ← er)
        (read_entries (I.dag_put (cell n' es) r₃).1 (I.dag_put (cell n' es) r₃).0 n' ns es ws vs
          (laws.get_put (cell n' es) r₃) (later.documents n' (nucleus ns) there)
          (readn (I.dag_put (cell n' es) r₃).1 (Keeps-trans I put later))
          (readm (I.dag_put (cell n' es) r₃).1 last))

  -- The CID that a cell is stored under resolves to its files.
  pub cell_manifest-stored :
      (d : CellDir) (r r' : I.Repo) (c n : Text)
      → cell_manifest I d r ≡ ok ((c, n), r')
      → (ws : Written) × (contents d (nucleus_files d ++ membrane_files d) ≡ ok ws)
        × ((I.dag_get r' c >>= all_entries I r' >>= fetch I r') ≡ ok ws)
  unfolding cell_manifest nucleus_manifest store_nucleus store_cell
  cell_manifest-stored d r r' c n h =
      let ((n', r₂), a, p) =
        >>=-eq-ok (nucleus_manifest I d r) (λ (n, r₁). store_cell I d n r₁) h in
      let (u, _, b) = >>=-eq-ok (require_nucleus d) (λ u. store_nucleus I d r) a in
      let ((ns, r₁), en, put) =
        >>=-eq-ok (entries I d (nucleus_files d) r) (λ (es, r₁). ok (I.dag_put (nucleus es) r₁))
          b in
      let ((es, r₃), em, q) =
        >>=-eq-ok (entries I d (membrane_files d) r₂) (with_link I laws n') p in
      let (ws, fn, kn, readn) =
        Linked-ok _ r _ ns r₁ en (entries-Linked I laws d (nucleus_files d) r) in
      let (vs, fm, km, readm) =
        Linked-ok _ r₂ _ es r₃ em (entries-Linked I laws d (membrane_files d) r₂) in
      let (ec, enn, er) = triple q in
      (
        ws ++ vs,
        contents-append d (nucleus_files d) (membrane_files d) ∙ rw (fn, fm) refl,
        joined n' r₁ r₂ r₃ ns es ws vs (ok_eq put) km readn readm c n r' ec enn er,
      )
