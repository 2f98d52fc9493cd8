-- ===== src/Transport/Arrival.antt =====
-- That a closure arrives: what is exported by one peer is imported by another.
use desmata.Prelude.{
  ℕ, ◌<◌, true, List, [], ◌∷◌, ◌++◌, ◌≡◌, refl, ap, sym, subst, ◌∙◌, Bool-cases, inl, inr, arith,
  &&_both, ltb,
}
use desmata.Prelude.Results.{ok, ok_eq}
use desmata.Prelude.Texts.{Text, eq_text, eq_text→eq, eq_text_refl}
use desmata.Content.{Hash, ipfs}
use desmata.Wit.{among}
use desmata.Archive.Files.{times}
use desmata.Transport.{Info, members, deps, topo_order}
use desmata.Transport.Order.{among-times, among-append, topo_order_complete}
use desmata.Transport.Leaves.{leaves_first, topo_order-leaves_first}
use desmata.Transport.Members.{HasPath, member-HasPath, HasPath-member}
use desmata.Transport.Behind.{Refers, HasOneEach, deps-Refers, Refers-deps, among-subset}
use desmata.Transport.Carriage.{
  Linked, Closure, Nix, Bundler, export_paths, bundle, export_closure_to_car, import_paths,
  import_car_to_store,
}

-- Each path's link resolves to its NAR.
abbrev pub Carries : (I : Bundler) → (Text → List ℕ) → I.Repo → List Linked → Type 0
Carries I nar_of r [] = Unit
Carries I nar_of r (e ∷ es) = (I.get r e.nar ≡ ok (nar_of e.path)) × Carries I nar_of r es

-- What ipfs documents: content that is stored stays and is found under its CID, and the bundle of a
-- document carries the document with what it links into any other repository.
pub record Bundles (I : Bundler) : Type 0 where
  pub handles : (cid : Text) → I.can_handle (record { backend = ipfs; digest = cid }) ≡ true
  pub get-add : (b : List ℕ) (r : I.Repo) → I.get (I.add b r).1 (I.add b r).0 ≡ ok b
  pub add_keeps :
      (b c : List ℕ) (cid : Text) (r : I.Repo) → I.get r cid ≡ ok c → I.get (I.add b r).1 cid ≡ ok c
  pub dag_get-dag_put :
      (m : Closure) (r : I.Repo) → I.dag_get (I.dag_put m r).1 (I.dag_put m r).0 ≡ ok m
  pub dag_put_keeps :
      (m : Closure) (c : List ℕ) (cid : Text) (r : I.Repo)
      → I.get r cid ≡ ok c
      → I.get (I.dag_put m r).1 cid ≡ ok c
  pub travels :
      (nar_of : Text → List ℕ) (r : I.Repo) (cid : Text) (m : Closure)
      → I.dag_get r cid ≡ ok m
      → Carries I nar_of r m.paths
      → (car : I.Car) × (I.dag_export r cid ≡ ok car)
        × ((q : I.Repo)
            → (q₁ : I.Repo) × (I.dag_import car q ≡ ok q₁)
              × (I.dag_get q₁ cid ≡ ok m)
              × Carries I nar_of q₁ m.paths)

-- What nix documents of a closure, of each of its paths: its NAR is exported from the store, and a
-- store that holds what the path refers to imports the NAR, and holds the path and what it held.
pub record Moves (N : Nix) (s : N.Store) (infos : List Info) (nar_of : Text → List ℕ)
    (Holds : N.Store → Text → Type 0) : Type 0 where
  pub exported : (p : Text) → HasPath infos p → N.export_closure s (p ∷ []) ≡ ok (nar_of p)
  pub imported :
      (p : Text) (t : N.Store)
      → HasPath infos p
      → ((r : Text) → Refers infos p r → Holds t r)
      → (t₁ : N.Store) × (N.import_closure (nar_of p) t ≡ ok (p ∷ [], t₁))
        × (Holds t₁ p)
        × ((q : Text) → Holds t q → Holds t₁ q)

module _ (N : Nix) (I : Bundler) (B : Bundles I) (s : N.Store) (infos : List Info)
    (nar_of : Text → List ℕ) (Holds : N.Store → Text → Type 0) (M : Moves N s infos nar_of Holds)
    (one : HasOneEach infos) where
  nothing_among : (p : Text) → among p [] ≡ true → ⊥
  unfolding among
  nothing_among p a = cc

  ordered_member :
      (l : List Text)
      → topo_order infos ≡ ok l
      → (p : Text) → (among p l ≡ true → HasPath infos p) × (HasPath infos p → among p l ≡ true)
  ordered_member l e p =
      let (k, e', all) = topo_order_complete infos in
      let same : among p l ≡ among p (members infos) =
        among-times p l
        ∙ ap (λ t. ltb 0 t) (ap (times p) (ok_eq (sym e ∙ e')) ∙ all p)
        ∙ sym (among-times p (members infos)) in
      (λ a. member-HasPath infos p (sym same ∙ a), λ h. same ∙ HasPath-member infos p h)

  -- The paths of some links.
  abbrev paths_of : List Linked → List Text
  paths_of [] = []
  paths_of (e ∷ es) = e.path ∷ paths_of es

  Carries-add :
      (b : List ℕ) (r : I.Repo) (es : List Linked)
      → Carries I nar_of r es
      → Carries I nar_of (I.add b r).1 es
  Carries-add b r [] h = tt
  Carries-add b r (e ∷ es) (h, hs) =
      (B.add_keeps b (nar_of e.path) e.nar r h, Carries-add b r es hs)

  Carries-dag_put :
      (m : Closure) (r : I.Repo) (es : List Linked)
      → Carries I nar_of r es
      → Carries I nar_of (I.dag_put m r).1 es
  Carries-dag_put m r [] h = tt
  Carries-dag_put m r (e ∷ es) (h, hs) =
      (B.dag_put_keeps m (nar_of e.path) e.nar r h, Carries-dag_put m r es hs)

  -- A link stays resolved while further paths are exported.
  export_paths_ok :
      (ps : List Text) (r : I.Repo)
      → ((p : Text) → among p ps ≡ true → HasPath infos p)
      → (es : List Linked) × (r₁ : I.Repo) × (export_paths N I s ps r ≡ ok (es, r₁))
        × (paths_of es ≡ ps)
        × (Carries I nar_of r₁ es)
        × ((cid : Text) (c : List ℕ) → I.get r cid ≡ ok c → I.get r₁ cid ≡ ok c)
  unfolding export_paths among
  export_paths_ok [] r h = ([], r, refl, refl, tt, λ cid c g. g)
  export_paths_ok (p ∷ ps) r h =
      let (cid, r₁) = I.add (nar_of p) r in
      let (es, r₂, e, same, carries, keeps) =
        export_paths_ok ps (I.add (nar_of p) r).1 (λ q a. h q (ground arith)) in
      (
        record { path = p; nar = (I.add (nar_of p) r).0 } ∷ es,
        r₂,
        rw (M.exported p (h p (rw (eq_text_refl p) refl)), e) refl,
        ap (λ l. p ∷ l) same,
        (keeps _ _ (B.get-add (nar_of p) r), carries),
        λ c b g. keeps c b (B.add_keeps (nar_of p) b c r g),
      )

  held_more :
      (p : Text) (done : List Text) (t t₁ : N.Store)
      → ((q : Text) → among q done ≡ true → Holds t q)
      → ((q : Text) → Holds t q → Holds t₁ q)
      → Holds t₁ p
      → (q : Text) → among q (done ++ p ∷ []) ≡ true
      → Holds t₁ q
  unfolding among
  held_more p done t t₁ held keeps new q a = elim (Bool-cases (eq_text p q)) [
    | inl e ↦ subst (λ q. Holds t₁ q) (eq_text→eq p q e) new
    | inr e ↦ keeps q (held q (ground (arith, among-append q done (p ∷ []))))
  ]

  import_paths_ok :
      (r : I.Repo) (es : List Linked) (done : List Text) (t : N.Store)
      → Carries I nar_of r es
      → ((p : Text) → among p (paths_of es) ≡ true → HasPath infos p)
      → leaves_first infos done (paths_of es) ≡ true
      → ((p : Text) → among p done ≡ true → Holds t p)
      → (t₁ : N.Store) × (import_paths N I r es t ≡ ok (paths_of es, t₁))
        × ((p : Text) → Holds t p → Holds t₁ p)
        × ((p : Text) → among p (paths_of es) ≡ true → Holds t₁ p)
  unfolding import_paths leaves_first among
  import_paths_ok r [] done t c mine l held = (t, refl, λ p h. h, λ p a. absurd cc)
  import_paths_ok r (e ∷ es) done t (g, c) mine l held =
      let (first, later) = &&_both _ _ l in
      let (t₁, i, new, keeps) =
        M.imported e.path t (mine e.path (rw (eq_text_refl e.path) refl)) (λ r refers. held r (
          among-subset infos r (deps infos e.path) done first
            (Refers-deps infos one e.path r refers))) in
      let (t₂, rest, kept, there) =
        import_paths_ok r es (done ++ e.path ∷ []) t₁ c (λ p a. mine p (ground arith)) later
          (held_more e.path done t t₁ held keeps new) in
      (
        t₂,
        rw (g, i, rest) refl,
        λ p h. kept p (keeps p h),
        λ p a. elim (Bool-cases (eq_text e.path p)) [
          | inl q ↦ subst (λ p. Holds t₂ p) (eq_text→eq e.path p q) (kept e.path new)
          | inr q ↦ there p (ground arith)
        ],
      )

  -- Where each path of a closure has one info and the references within it have no cycle, and nix and
  -- ipfs do what they document, a
  -- closure arrives: the export returns a bundle and its hash, in any repository and store the import
  -- of the bundle under this hash returns the paths in the order of `_topo_order`, and the store then
  -- holds every path of the closure.
  pub import_car_to_store-export_closure_to_car :
      (rank : Text → ℕ)
      → ((p r : Text) → Refers infos p r → rank r < rank p)
      → (path : Text) (r : I.Repo) → N.closure_info s path ≡ ok infos
      → (l : List Text) × (manifest : Hash) × (car : I.Car) × (r₁ : I.Repo) × (topo_order infos
          ≡ ok l)
        × (export_closure_to_car N I s path r ≡ ok ((manifest, car), r₁))
        × ((q : I.Repo) (t : N.Store)
            → (q₁ : I.Repo) × (t₁ : N.Store) × (import_car_to_store N I car manifest q t
                ≡ ok ((l, t₁), q₁))
              × ((p : Text) → HasPath infos p → Holds t₁ p))
  unfolding export_closure_to_car import_car_to_store bundle
  import_car_to_store-export_closure_to_car rank falls path r known =
      let (l, e, first) =
        topo_order-leaves_first infos rank (λ p r a. falls p r (deps-Refers infos p r a)) in
      let member = ordered_member l e in
      let (es, r₁, x, same, carries, keeps) = export_paths_ok l r (λ p a. (member p).0 a) in
      let m : Closure = record { root = path; paths = es } in
      let cid = (I.dag_put m r₁).0 in
      let (car, out, arrives) =
        B.travels nar_of (I.dag_put m r₁).1 cid m (B.dag_get-dag_put m r₁)
          (Carries-dag_put m r₁ es carries) in
      (
        l,
        record { backend = ipfs; digest = cid },
        car,
        (I.dag_put m r₁).1,
        e,
        rw (known, e, x, out) refl,
        λ q t.
            let (q₁, im, doc, there) = arrives q in
            let (t₁, got, kept, all) =
              import_paths_ok q₁ es [] t there
                (λ p a. (member p).0 (subst (λ l. among p l ≡ true) same a)) (rw same first)
                (λ p a. absurd (nothing_among p a)) in
            (
              q₁,
              t₁,
              rw (B.handles cid, im, doc, got, same) refl,
              λ p a. all p (rw same ((member p).1 a)),
            ),
      )
