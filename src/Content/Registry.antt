-- ===== src/Content/Registry.antt =====
-- `BackendRegistry` of src/desmata/content.py: from a hash to the backend that serves it.
use desmata.Prelude.{ℕ, Bool, List, [], ◌∷◌, ◌≡◌, refl, if◌then◌else◌}
use desmata.Prelude.Results.{Result, ok, err, unknown_backend}
use desmata.Prelude.Texts.{Text, codes, eq_text}
use desmata.Content.{Backend, ipfs, backend_name, Hash}

-- The dict of a registry, for implementations of some type.
abbrev pub Registry : Type 0 → Type 0
Registry Impl = List (Backend × Impl)

-- backend == other
unfoldable pub eq_backend : Backend → Backend → Bool
unfolding eq_text
eq_backend a b = eq_text (backend_name a) (backend_name b)

module _ {Impl : Type 0} where
  -- register, of an implementation and its `backend`
  unfoldable pub register : Backend → Impl → Registry Impl → Registry Impl
  unfolding eq_backend
  register b impl [] = (b, impl) ∷ []
  register b impl ((k, old) ∷ ks) =
      let rest = register b impl ks in if eq_backend k b then (k, impl) ∷ ks else (k, old) ∷ rest

  -- get
  unfoldable pub get_backend : Backend → Registry Impl → Result Impl
  unfolding eq_backend
  get_backend b [] = err unknown_backend
  get_backend b ((k, impl) ∷ ks) =
      let rest = get_backend b ks in if eq_backend k b then ok impl else rest

  -- for_hash
  unfoldable pub for_hash : Hash → Registry Impl → Result Impl
  unfolding get_backend
  for_hash h r = get_backend h.backend r

second_registration :
    for_hash {Impl = ℕ}
      (record { backend = ipfs; digest = codes "Qa" })
      (register ipfs 2 (register ipfs 1 []))
    ≡ ok 2
unfolding for_hash register
second_registration = refl

nothing_registered :
    for_hash {Impl = Text} (record { backend = ipfs; digest = [] }) [] ≡ err unknown_backend
unfolding for_hash
nothing_registered = refl
