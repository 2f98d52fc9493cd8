-- ===== src/Archive/Unpack.antt =====
-- Storing a cell and reading it back: `cell_hashes` and `unpack_cell` of src/desmata/cell_archive.py.
use desmata.Prelude.{ℕ, ◌≡◌, refl, ◌∙◌, List, [], ◌∷◌, ◌++◌, true}
use desmata.Prelude.Results.{Result, ok, err, ◌>>=◌, ◌>>◌, >>=-eq-ok}
use desmata.Prelude.Texts.{Text}
use desmata.Archive.Cell.{CellDir, nucleus_files, membrane_files}
use desmata.Archive.Manifest.{
  Entry, Manifest, nucleus, cell, Ipfs, Written, require_nucleus, entries, store_nucleus,
  nucleus_manifest, store_cell, cell_manifest, ensure_available, nucleus_entries, all_entries,
  fetch, unpack_cell,
}

-- The names and bytes of some files, as a reader of the directory sees them.
abbrev pub contents : CellDir → List Text → Result Written
contents d [] = ok []
contents d (n ∷ ns) =
    d.relative n >>= λ name. d.read n >>= λ b. contents d ns >>= λ ws. ok ((name, b) ∷ ws)

-- The files of two groups, read one group after the other.
abbrev pub both : Result Written → Result Written → Result Written
both xs ys = xs >>= λ us. ys >>= λ vs. ok (us ++ vs)

both-cons :
    (x : Text × List ℕ) (xs ys : Result Written)
    → (both xs ys >>= λ ws. ok (x ∷ ws)) ≡ both (xs >>= λ ws. ok (x ∷ ws)) ys
both-cons x (ok us) (ok vs) = refl
both-cons x (ok us) (err e) = refl
both-cons x (err e) ys = refl

both-nil : (ys : Result Written) → ys ≡ both (ok []) ys
both-nil (ok vs) = refl
both-nil (err e) = refl

both-bind :
    {A : Type 0} (m : Result A) (f g : A → Result Written) (ys : Result Written)
    → ((a : A) → g a ≡ both (f a) ys)
    → (m >>= g) ≡ both (m >>= f) ys
both-bind (ok a) f g ys h = h a
both-bind (err e) f g ys h = refl

pub contents-append :
    (d : CellDir) (ns ms : List Text) → contents d (ns ++ ms) ≡ both (contents d ns) (contents d ms)
contents-append d [] ms = both-nil (contents d ms)
contents-append d (n ∷ ns) ms = both-bind (d.relative n) _ _ (contents d ms) (λ name.
    both-bind (d.read n) _ _ (contents d ms)
      (λ b. rw (contents-append d ns ms) (both-cons (name, b) (contents d ns) (contents d ms))))

pub triple :
    {A : Type 0} {B : Type 0} {a a' b b' : A} {r r' : B}
    → ◌≡◌ {A = Result ((A × A) × B)} (ok ((a, b), r)) (ok ((a', b'), r'))
    → (a ≡ a') × (b ≡ b') × (r ≡ r')
triple q = (cc, cc, cc)

module _ (I : Ipfs) where
  -- What one repository resolves, the other resolves alike.
  pub record Keeps (r r' : I.Repo) : Type 0 where
    pub blobs : (cid : Text) (b : List ℕ) → I.get r cid ≡ ok b → I.get r' cid ≡ ok b
    pub documents : (cid : Text) (m : Manifest) → I.dag_get r cid ≡ ok m → I.dag_get r' cid ≡ ok m

  -- The blobs that some links name are there.
  abbrev pub AllThere : I.Repo → List Entry → Type 0
  AllThere r [] = Unit
  AllThere r (e ∷ es) = ((b : List ℕ) × (I.get r e.blob ≡ ok b)) × AllThere r es

  -- A cell is there with every block under it: its manifest, its nucleus manifest, and the blobs that
  -- both link.
  abbrev pub IsWhole : I.Repo → Text → Type 0
  IsWhole r c =
      (n : Text) × (ns es : List Entry) × (I.dag_get r c ≡ ok (cell n es))
      × (I.dag_get r n ≡ ok (nucleus ns))
      × AllThere r ns
      × AllThere r es

  -- What `ipfs add`, `dag put`, `get`, `dag get` and `refs -r --offline` document: what was stored is
  -- resolved by the CID that was returned, storing more loses nothing, and a cell is had where every
  -- block under its manifest is there.
  pub record Stores : Type 0 where
    pub get_add : (b : List ℕ) (r : I.Repo) → I.get (I.add b r).1 (I.add b r).0 ≡ ok b
    pub get_put : (m : Manifest) (r : I.Repo) → I.dag_get (I.dag_put m r).1 (I.dag_put m r).0 ≡ ok m
    pub have_whole : (r : I.Repo) (c : Text) → IsWhole r c → I.have r c ≡ true
    pub keeps_add : (b : List ℕ) (r : I.Repo) → Keeps r (I.add b r).1
    pub keeps_put : (m : Manifest) (r : I.Repo) → Keeps r (I.dag_put m r).1

  pub Keeps-trans : {q r s : I.Repo} → Keeps q r → Keeps r s → Keeps q s
  Keeps-trans k l = record {
    blobs = λ cid b h. l.blobs cid b (k.blobs cid b h);
    documents = λ cid m h. l.documents cid m (k.documents cid m h);
  }

  Keeps-refl : (r : I.Repo) → Keeps r r
  Keeps-refl r = record { blobs = λ cid b h. h; documents = λ cid m h. h }

  pub fetch-append :
      (r : I.Repo) (es fs : List Entry) → fetch I r (es ++ fs) ≡ both (fetch I r es) (fetch I r fs)
  unfolding fetch
  fetch-append r [] fs = both-nil (fetch I r fs)
  fetch-append r (e ∷ es) fs =
      both-bind (I.get r e.blob) _ _ (fetch I r fs)
        (λ b. rw (fetch-append r es fs) (both-cons (e.name, b) (fetch I r es) (fetch I r fs)))

  fetch-AllThere :
      (r : I.Repo) (es : List Entry) (ws : Written) → fetch I r es ≡ ok ws → AllThere r es
  unfolding fetch
  fetch-AllThere r [] ws h = tt
  fetch-AllThere r (e ∷ es) ws h =
      let (b, g, p) =
        >>=-eq-ok (I.get r e.blob) (λ b. fetch I r es >>= λ ws. ok ((e.name, b) ∷ ws)) h in
      let (vs, f, q) = >>=-eq-ok (fetch I r es) (λ ws. ok ((e.name, b) ∷ ws)) p in
      ((b, g), fetch-AllThere r es vs f)

  -- `entries` fails where the directory cannot be read, and the links that it returns resolve to the
  -- files' names and bytes, in every repository that keeps what it stored.
  abbrev pub Linked : Result Written → I.Repo → Result (List Entry × I.Repo) → Type 0
  Linked files r (err e) = files ≡ err e
  Linked files r (ok (es, r')) =
      (ws : Written) × (files ≡ ok ws)
      × Keeps r r'
      × ((r'' : I.Repo) → Keeps r' r'' → fetch I r'' es ≡ ok ws)

  module _ (laws : Stores) where
    Linked-cons :
        (d : CellDir) (name : Text) (b : List ℕ) (ns : List Text) (r : I.Repo)
        (o : Result (List Entry × I.Repo))
        → Linked (contents d ns) (I.add b r).1 o
        → Linked
            (contents d ns >>= λ ws. ok ((name, b) ∷ ws))
            r
            (o >>= λ (es, r₂). ok (record { name = name; blob = (I.add b r).0 } ∷ es, r₂))
    unfolding fetch
    Linked-cons d name b ns r (err e) h = rw h
    Linked-cons d name b ns r (ok (es, r')) (ws, q, k, later) = (
      (name, b) ∷ ws,
      rw q,
      Keeps-trans (laws.keeps_add b r) k,
      λ r'' l. rw ((Keeps-trans k l).blobs _ _ (laws.get_add b r), later r'' l),
    )

    Linked-bind :
        {A : Type 0} (m : Result A) (f : A → Result Written) (g : A → Result (List Entry × I.Repo))
        (r : I.Repo)
        → ((a : A) → Linked (f a) r (g a))
        → Linked (m >>= f) r (m >>= g)
    Linked-bind (ok a) f g r h = h a
    Linked-bind (err e) f g r h = refl

    pub entries-Linked :
        (d : CellDir) (ns : List Text) (r : I.Repo) → Linked (contents d ns) r (entries I d ns r)
    unfolding entries
    entries-Linked d [] r = ([], refl, Keeps-refl r, λ r'' k. unfold fetch in refl)
    entries-Linked d (n ∷ ns) r = Linked-bind (d.relative n) _ _ r (λ name.
        Linked-bind (d.read n) _ _ r (λ b.
          Linked-cons d name b ns r (entries I d ns (I.add b r).1)
            (entries-Linked d ns (I.add b r).1)))

    forget :
        {A : Type 0} (a : A) (o : Result Written)
        → (◌>>=◌ {S = Written × A} o (λ ws. ok (ws, a)) >>= λ (ws, t). ok ws) ≡ o
    forget a (ok ws) = refl
    forget a (err e) = refl

    -- The part of `cell_manifest` behind the nucleus, and the reading of what it stored.
    abbrev read_back : (Text × Text) × I.Repo → Result Written
    read_back ((c, n), r) = unpack_cell I c r >>= λ (ws, r'). ok ws

    unpack_read :
        (n c : Text) (ns es : List Entry) (r : I.Repo)
        → I.have r c ≡ true
        → I.dag_get r c ≡ ok (cell n es)
        → I.dag_get r n ≡ ok (nucleus ns)
        → read_back ((c, n), r) ≡ both (fetch I r ns) (fetch I r es)
    unfolding unpack_cell ensure_available all_entries nucleus_entries
    unpack_read n c ns es r h m k =
        rw (h, m, k, fetch-append r ns es) (forget r (both (fetch I r ns) (fetch I r es)))

    -- What `store_cell` makes of the links.
    abbrev pub with_link : Text → List Entry × I.Repo → Result ((Text × Text) × I.Repo)
    with_link n (es, r) = let (cell_cid, r') = I.dag_put (cell n es) r in ok ((cell_cid, n), r')

    with_link-read :
        (n : Text) (ns : List Entry) (r : I.Repo) (ws : Written) (files : Result Written)
        (o : Result (List Entry × I.Repo))
        → I.dag_get r n ≡ ok (nucleus ns)
        → ((r' : I.Repo) → Keeps r r' → fetch I r' ns ≡ ok ws)
        → Linked files r o
        → (o >>= with_link n >>= read_back) ≡ both (ok ws) files
    with_link-read n ns r ws files (err e) h later p = rw p
    with_link-read n ns r ws files (ok (es, r')) h later (vs, q, k, last) =
        let put = laws.keeps_put (cell n es) r' in
        let all = Keeps-trans k put in
        rw q (
          unpack_read n _ ns es _
            (laws.have_whole _ _ (
              n,
              ns,
              es,
              laws.get_put _ r',
              all.documents n _ h,
              fetch-AllThere _ ns ws (later _ all),
              fetch-AllThere _ es vs (last _ put),
            ))
            (laws.get_put _ r') (all.documents n _ h)
          ∙ rw (later _ all, last _ put))

    store_cell-read :
        (d : CellDir) (n : Text) (ns : List Entry) (r : I.Repo) (ws : Written)
        → I.dag_get r n ≡ ok (nucleus ns)
        → ((r' : I.Repo) → Keeps r r' → fetch I r' ns ≡ ok ws)
        → (store_cell I d n r >>= read_back) ≡ both (ok ws) (contents d (membrane_files d))
    unfolding store_cell
    store_cell-read d n ns r ws h later =
        with_link-read n ns r ws _ _ h later (entries-Linked d (membrane_files d) r)

    store_nucleus-read :
        (d : CellDir) (r : I.Repo) (files : Result Written) (o : Result (List Entry × I.Repo))
        → Linked files r o
        → (o
            >>= (λ (es, r₁). ok (I.dag_put (nucleus es) r₁))
            >>= (λ (n, r₂). store_cell I d n r₂)
            >>= read_back)
          ≡ both files (contents d (membrane_files d))
    store_nucleus-read d r files (err e) p = rw p
    store_nucleus-read d r files (ok (es, r')) (ws, q, k, later) =
        let put = laws.keeps_put (nucleus es) r' in
        rw q
          (store_cell-read d _ es _ ws (laws.get_put _ r') (λ r'' l. later r'' (Keeps-trans put l)))

    require_first :
        {A B : Type 0} (m : Result (Unit {0})) (x : Result A) (f : A → Result B)
        (g : B → Result Written) (files : Result Written)
        → (x >>= f >>= g) ≡ files
        → ((m >> x) >>= f >>= g) ≡ (m >> files)
    require_first (ok t) x f g files h = h
    require_first (err e) x f g files h = refl

    -- With an ipfs that resolves and keeps what it stores, storing a cell and unpacking it by its
    -- CID from the resulting repository gives the paths and bytes of its nucleus files and then
    -- of its membrane files, in the order of the two lists, and fails as `require_nucleus` does,
    -- or as the first of these files does that leaves the directory or cannot be read.
    pub unpack_cell-cell_manifest :
        (d : CellDir) (r : I.Repo)
        → (cell_manifest I d r >>= λ ((c, n), r'). unpack_cell I c r' >>= λ (ws, r''). ok ws)
          ≡ (require_nucleus d >> contents d (nucleus_files d ++ membrane_files d))
    unfolding cell_manifest nucleus_manifest store_nucleus
    unpack_cell-cell_manifest d r = rw (contents-append d (nucleus_files d) (membrane_files d)) (
        require_first (require_nucleus d) (store_nucleus I d r) (λ (n, r'). store_cell I d n r')
          read_back _ (store_nucleus-read d r _ _ (entries-Linked d (nucleus_files d) r)))

    linked_by :
        (n' : Text) (es : List Entry) (r₂ r' : I.Repo) (c n : Text)
        → with_link n' (es, r₂) ≡ ok ((c, n), r')
        → I.dag_get r' c ≡ ok (cell n es)
    linked_by n' es r₂ r' c n q =
        let (ec, en, er) = triple q in rw (← ec, ← en, ← er) (laws.get_put (cell n' es) r₂)

    -- The document of a stored cell links the nucleus that was stored with it.
    pub cell_manifest-links :
        (d : CellDir) (r r' : I.Repo) (c n : Text)
        → cell_manifest I d r ≡ ok ((c, n), r')
        → (es : List Entry) × (I.dag_get r' c ≡ ok (cell n es))
    unfolding cell_manifest store_cell
    cell_manifest-links d r r' c n h =
        let ((n', r₁), _, p) =
          >>=-eq-ok (nucleus_manifest I d r) (λ (n, r₁). store_cell I d n r₁) h in
        let ((es, r₂), _, q) = >>=-eq-ok (entries I d (membrane_files d) r₁) (with_link n') p in
        (es, linked_by n' es r₂ r' c n q)
