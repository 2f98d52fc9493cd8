-- ===== src/Transport/Carriage.antt =====
-- A closure that travels from one peer to another in a bundle: `export_closure_to_car` and
-- `import_car_to_store`. What an exception leaves in a repository or a store is not followed.
use desmata.Prelude.{ℕ, Bool, not, List, [], ◌∷◌, ◌++◌, if◌then◌else◌}
use desmata.Prelude.Results.{Result, ok, err, unknown_backend, ◌>>=◌}
use desmata.Prelude.Texts.{Text}
use desmata.Content.{Hash, ipfs}
use desmata.Transport.{Info, topo_order}

-- A store path with the CID of its NAR.
pub record Linked : Type 0 where
  pub path : Text
  pub nar : Text

-- The manifest of a closure.
pub record Closure : Type 0 where
  pub root : Text
  pub paths : List Linked

-- The calls of nix, on a store.
pub record Nix : Type 1 where
  pub Store : Type 0
  pub closure_info : Store → Text → Result (List Info)
  pub export_closure : Store → List Text → Result (List ℕ)
  pub import_closure : List ℕ → Store → Result (List Text × Store)

-- The calls of ipfs, on a repository. A bundle is a CAR.
pub record Bundler : Type 1 where
  pub Repo : Type 0
  pub Car : Type 0
  pub can_handle : Hash → Bool
  pub add : List ℕ → Repo → Text × Repo
  pub dag_put : Closure → Repo → Text × Repo
  pub dag_export : Repo → Text → Result Car
  pub dag_import : Car → Repo → Result Repo
  pub dag_get : Repo → Text → Result Closure
  pub get : Repo → Text → Result (List ℕ)

module _ (N : Nix) (I : Bundler) where
  -- The loop of `export_closure_to_car`: each path alone, as a NAR.
  unfoldable pub export_paths : N.Store → List Text → I.Repo → Result (List Linked × I.Repo)
  export_paths s [] r = ok ([], r)
  export_paths s (p ∷ ps) r = N.export_closure s (p ∷ []) >>= λ nar.
      let (cid, r₁) = I.add nar r in
      export_paths s ps r₁ >>= λ (es, r₂). ok (record { path = p; nar = cid } ∷ es, r₂)

  -- The manifest over the exported paths, and its bundle.
  unfoldable pub bundle : Text → List Linked × I.Repo → Result ((Hash × I.Car) × I.Repo)
  bundle path (es, r) =
      let (cid, r₁) = I.dag_put (record { root = path; paths = es }) r in
      I.dag_export r₁ cid >>= λ car. ok ((record { backend = ipfs; digest = cid }, car), r₁)

  -- export_closure_to_car
  unfoldable pub export_closure_to_car : N.Store → Text → I.Repo → Result ((Hash × I.Car) × I.Repo)
  unfolding topo_order export_paths bundle
  export_closure_to_car s path r =
      N.closure_info s path >>= topo_order >>= λ order. export_paths s order r >>= bundle path

  -- The loop of `import_car_to_store`.
  unfoldable pub import_paths : I.Repo → List Linked → N.Store → Result (List Text × N.Store)
  import_paths r [] t = ok ([], t)
  import_paths r (e ∷ es) t = I.get r e.nar >>= λ nar.
      N.import_closure nar t >>= λ (ps, t₁). import_paths r es t₁ >>= λ (qs, t₂). ok (ps ++ qs, t₂)

  -- import_car_to_store
  unfoldable pub import_car_to_store :
      I.Car → Hash → I.Repo → N.Store → Result ((List Text × N.Store) × I.Repo)
  unfolding import_paths
  import_car_to_store car manifest r t =
      if not (I.can_handle manifest)
      then err unknown_backend
      else (I.dag_import car r >>= λ r₁. I.dag_get r₁ manifest.digest >>= λ doc.
          import_paths r₁ doc.paths t >>= λ out. ok (out, r₁))
