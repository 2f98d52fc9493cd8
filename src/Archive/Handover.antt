-- ===== src/Archive/Handover.antt =====
-- That a cell arrives as it was packed, and contains the nucleus that was packed with it.
use desmata.Prelude.{
  ℕ, true, ◌≡◌, refl, ap, sym, ◌∙◌, List, [], ◌∷◌, ◌++◌, some, ◌⊎◌, inl, inr, subst, Bool-cases,
  if◌then◌else◌,
}
use desmata.Prelude.Results.{
  Result, ok, err, unknown_backend, ◌>>=◌, >>=-eq-ok, ok_eq, raised_returns,
}
use desmata.Prelude.Texts.{Text, eq_text}
use desmata.Content.{Hash}
use desmata.Archive.Cell.{CellDir, nucleus_files, membrane_files}
use desmata.Archive.Manifest.{
  Entry, Manifest, nucleus, cell, other, Ipfs, Written, cell_manifest, links_nucleus,
  nucleus_entries, all_entries, fetch,
}
use desmata.Archive.Unpack.{contents, Stores, cell_manifest-links}
use desmata.Archive.Stored.{cell_manifest-stored}
use desmata.Archive.Parcel.{
  CellHashes, Parcels, hash_of, cell_hashes, pack_cell, require_handled, unpack, verify_has_nucleus,
}

-- One of some entries links a CID.
abbrev pub IsLink : Text → List Entry → Type 0
IsLink cid [] = ⊥
IsLink cid (e ∷ es) = (e.blob ≡ cid) ⊎ IsLink cid es

abbrev pub entries_of : Manifest → List Entry
entries_of (nucleus es) = es
entries_of (cell linked es) = es
entries_of other = []

-- What a document links, over any number of links.
pub data Reaches (I : Ipfs) (r : I.Repo) : Text → Text → Type 0 where
  itself : {c : Text} → Reaches I r c c
  by_nucleus :
      {c n d : Text} {es : List Entry}
      → I.dag_get r c ≡ ok (cell n es)
      → Reaches I r n d
      → Reaches I r c d
  by_entry :
      {c d : Text} {m : Manifest} → I.dag_get r c ≡ ok m → IsLink d (entries_of m) → Reaches I r c d

-- What one repository resolves under a CID, another resolves alike.
abbrev pub SameAt : (I : Ipfs) → I.Repo → I.Repo → Text → Type 0
SameAt I r q cid =
    ((b : List ℕ) → I.get r cid ≡ ok b → I.get q cid ≡ ok b)
    × ((m : Manifest) → I.dag_get r cid ≡ ok m → I.dag_get q cid ≡ ok m)

-- What ipfs documents of bundles: a bundle can be imported into any repository, which then resolves
-- all that the exported document reaches.
pub record Travels (I : Ipfs) (P : Parcels I) : Type 0 where
  pub handles : (cid : Text) → P.can_handle (hash_of cid) ≡ true
  pub travels :
      (r : I.Repo) (cid : Text) (car : P.Car)
      → P.dag_export r cid ≡ ok car
      → (q : I.Repo)
      → (q₁ : I.Repo) × (P.dag_import car q ≡ ok q₁)
        × ((d : Text) → Reaches I r cid d → SameAt I r q₁ d)

module _ (I : Ipfs) where
  -- What a CID unpacks to, in a repository.
  abbrev pub files_at : I.Repo → Text → Result Written
  files_at r cid = I.dag_get r cid >>= all_entries I r >>= fetch I r

  fetch_same :
      (r q : I.Repo) (es : List Entry) (ws : Written)
      → ((d : Text) → IsLink d es → SameAt I r q d)
      → fetch I r es ≡ ok ws
      → fetch I q es ≡ ok ws
  unfolding fetch
  fetch_same r q [] ws same h = h
  fetch_same r q (e ∷ es) ws same h =
      let (b, g, k) = >>=-eq-ok (I.get r e.blob) _ h in
      let (vs, f, t) = >>=-eq-ok (fetch I r es) (λ ws. ok ((e.name, b) ∷ ws)) k in
      rw ((same e.blob (inl refl)).0 b g, fetch_same r q es vs (λ d l. same d (inr l)) f) t

  IsLink-append : (d : Text) (es fs : List Entry) → IsLink d (es ++ fs) → IsLink d es ⊎ IsLink d fs
  IsLink-append d [] fs h = inr h
  IsLink-append d (e ∷ es) fs (inl p) = inl (inl p)
  IsLink-append d (e ∷ es) fs (inr h) = elim (IsLink-append d es fs h) [
    | inl p ↦ inl (inr p)
    | inr p ↦ inr p
  ]

  -- The entries of a nucleus manifest that is there.
  nucleus_links : (m : Manifest) (es : List Entry) → nucleus_entries I m ≡ ok es → es ≡ entries_of m
  unfolding nucleus_entries
  nucleus_links (nucleus fs) es h = sym (ok_eq h)
  nucleus_links (cell n fs) es h = absurd (raised_returns h)
  nucleus_links other es h = absurd (raised_returns h)

  module _ (r q : I.Repo) (cid : Text)
      (same : (d : Text) → Reaches I r cid d → SameAt I r q d) where
    files_of_same :
        (m : Manifest) (ws : Written)
        → I.dag_get r cid ≡ ok m
        → (all_entries I r m >>= fetch I r) ≡ ok ws
        → (all_entries I q m >>= fetch I q) ≡ ok ws
    unfolding all_entries
    files_of_same (nucleus es) ws g h = fetch_same r q es ws (λ d l. same d (by_entry g l)) h
    files_of_same other ws g h = absurd (raised_returns h)
    files_of_same (cell n es) ws g h =
        let (all, a, f) =
          >>=-eq-ok (I.dag_get r n >>= nucleus_entries I >>= λ ns. ok (ns ++ es)) (fetch I r) h in
        let (ns, b, t) = >>=-eq-ok (I.dag_get r n >>= nucleus_entries I) (λ ns. ok (ns ++ es)) a in
        let (m, gm, en) = >>=-eq-ok (I.dag_get r n) (nucleus_entries I) b in
        let both = ok_eq t in
        let linked : (d : Text) → IsLink d (ns ++ es) → SameAt I r q d = λ d l.
          elim (IsLink-append d ns es l) [
            | inl p ↦
                same d
                  (by_nucleus g (by_entry gm (subst (λ es. IsLink d es) (nucleus_links m ns en) p)))
            | inr p ↦ same d (by_entry g p)
          ] in
        rw ((same n (by_nucleus g itself)).1 m gm, en)
          (fetch_same r q (ns ++ es) ws linked (rw both f))

    files_at_same : (ws : Written) → files_at r cid ≡ ok ws → files_at q cid ≡ ok ws
    files_at_same ws h =
        let (es, a, f) = >>=-eq-ok (I.dag_get r cid >>= all_entries I r) (fetch I r) h in
        let (m, g, e) = >>=-eq-ok (I.dag_get r cid) (all_entries I r) a in
        rw ((same cid itself).1 m g) (files_of_same m ws g (rw e f))

module _ (I : Ipfs) (P : Parcels I) where
  cell_hashes-manifest :
      (d : CellDir) (r r' : I.Repo) (hashes : CellHashes)
      → cell_hashes I P d r ≡ ok (hashes, r')
      → (c n : Text) × (cell_manifest I d r ≡ ok ((c, n), r'))
        × (hashes.cell_hash ≡ hash_of c)
        × (hashes.nucleus_hash ≡ hash_of n)
  unfolding cell_hashes
  cell_hashes-manifest d r r' hashes h =
      let (((c, n), r₁), m, e) =
        >>=-eq-ok (cell_manifest I d r)
          (λ ((c, n), r₁). ok (record { cell_hash = hash_of c; nucleus_hash = hash_of n }, r₁)) h in
      let p = ok_eq e in
      (
        c,
        n,
        m ∙ ap (λ x. ok ((c, n), x.1)) p,
        ap (λ x. x.0.cell_hash) (sym p),
        ap (λ x. x.0.nucleus_hash) (sym p),
      )

  unpack_at :
      (car : P.Car) (cid : Text) (q q₁ : I.Repo) (ws : Written)
      → P.can_handle (hash_of cid) ≡ true
      → P.dag_import car q ≡ ok q₁
      → files_at I q₁ cid ≡ ok ws
      → unpack I P (some car) (hash_of cid) q ≡ ok (ws, q₁)
  unfolding unpack require_handled
  unpack_at car cid q q₁ ws k i f = rw (k, i, f) refl

  -- With an ipfs that resolves and keeps what it stores, and whose bundles carry what they reach, a
  -- cell that was packed is unpacked from its bundle by its cell hash in any other repository, and the
  -- files are those of the packed directory: its nucleus files and then its membrane files.
  pub unpack-pack_cell :
      Stores I
      → Travels I P
      → (d : CellDir) (r r' : I.Repo) (hashes : CellHashes) (car : P.Car)
      → pack_cell I P d r ≡ ok ((hashes, car), r')
      → (q : I.Repo)
      → (ws : Written) × (q₁ : I.Repo) × (contents d (nucleus_files d ++ membrane_files d) ≡ ok ws)
        × (unpack I P (some car) hashes.cell_hash q ≡ ok (ws, q₁))
  unfolding pack_cell
  unpack-pack_cell laws T d r r' hashes car h q =
      let ((hs, r₁), a, p) =
        >>=-eq-ok (cell_hashes I P d r)
          (λ (hashes, r₁).
            P.dag_export r₁ hashes.cell_hash.digest >>= λ car. ok ((hashes, car), r₁))
          h in
      let (c, n, m, e, _) = cell_hashes-manifest d r r₁ hs a in
      let (box, out, t) =
        >>=-eq-ok (P.dag_export r₁ hs.cell_hash.digest) (λ car. ok ((hs, car), r₁)) p in
      let same = ok_eq t in
      let exported : P.dag_export r₁ c ≡ ok car =
        ap (λ k. P.dag_export r₁ k.digest) (sym e) ∙ out ∙ ap (λ x. ok (x.0.1)) same in
      let (ws, files, stored) = cell_manifest-stored I laws d r r₁ c n m in
      let (q₁, im, carried) = T.travels r₁ c car exported q in
      (
        ws,
        q₁,
        files,
        subst (λ k. unpack I P (some car) k q ≡ ok (ws, q₁))
            (sym e ∙ ap (λ x. x.0.0.cell_hash) same)
            (unpack_at car c q q₁ ws (T.handles c) im (files_at_same I r₁ q₁ c carried ws stored)),
      )

  -- With an ipfs that resolves and keeps what it stores, `verify_has_nucleus` says of the hashes of a
  -- stored cell that the cell contains a nucleus if and only if its digest is that of the nucleus that
  -- was stored with it, and refuses every nucleus where the repository cannot handle the cell hash.
  pub verify_has_nucleus-cell_hashes :
      Stores I
      → (d : CellDir) (r r' : I.Repo) (hashes : CellHashes) → cell_hashes I P d r ≡ ok (hashes, r')
      → (k : Hash)
      → verify_has_nucleus I P r' hashes.cell_hash k ≡ (
          if P.can_handle hashes.cell_hash
          then ok (eq_text hashes.nucleus_hash.digest k.digest)
          else err unknown_backend)
  unfolding verify_has_nucleus require_handled links_nucleus
  verify_has_nucleus-cell_hashes laws d r r' hashes h k =
      let (c, n, m, ec, en) = cell_hashes-manifest d r r' hashes h in
      let (es, g) = cell_manifest-links I laws d r r' c n m in
      rw (ec, en)
        (elim (Bool-cases (P.can_handle (hash_of c))) [
          | inl e ↦ rw (e, g) refl
          | inr e ↦ rw e refl
        ])
