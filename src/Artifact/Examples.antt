-- ===== src/Artifact/Examples.antt =====
-- Runs of `build_or_get`, and the theorems on it, at a small foundry.
use desmata.Prelude.{ℕ, true, false, some, List, [], ◌∷◌, ◌≡◌, refl}
use desmata.Prelude.Results.{ok, err, cell_unavailable}
use desmata.Prelude.Texts.{codes}
use desmata.Content.{ipfs}
use desmata.Archive.Pins.{Pins}
use desmata.Artifact.{Foundry, Component, pin_at, build_or_get}
use desmata.Artifact.Realized.{build_or_get-pinned, build_or_get-again}

-- A foundry whose recipe builds the pinned bytes.
abbrev honest : Foundry
honest = record {
  hash = λ b. record { backend = ipfs; digest = b };
  has_nix = true;
  build = ok (codes "wasm");
  nucleus = λ f. ok (codes "Qn");
}

abbrev pinned : Pins
pinned = (codes "a.wasm", record { backend = ipfs; digest = codes "wasm" }) ∷ []

abbrev rebuilt : Component
rebuilt = record {
  pin = record { backend = ipfs; digest = codes "wasm" };
  witnessed = record { recipe = codes "Qn"; output = codes "dsm:ipfs:wasm" } ∷ [];
}

honest-build_or_get :
    build_or_get honest (ok pinned) (codes "a.wasm") (some (codes "stale"))
    ≡ (ok rebuilt, some (codes "wasm"))
unfolding build_or_get
honest-build_or_get = refl

build_or_get-pinned_example :
    (b : List ℕ) × (some (codes "wasm") ≡ some b)
    × (pin_at pinned (codes "a.wasm") ≡ some rebuilt.pin)
    × (honest.hash b ≡ rebuilt.pin)
build_or_get-pinned_example =
    build_or_get-pinned honest pinned (codes "a.wasm") (some (codes "stale")) (some (codes "wasm"))
      rebuilt honest-build_or_get

-- A foundry without `nix`, whose recipe fails, with the same hash function.
abbrev bare : Foundry
bare = record {
  hash = λ b. record { backend = ipfs; digest = b };
  has_nix = false;
  build = err cell_unavailable;
  nucleus = λ f. err cell_unavailable;
}

build_or_get-again_example :
    build_or_get bare (ok pinned) (codes "a.wasm") (some (codes "wasm"))
    ≡ (ok (record { pin = rebuilt.pin; witnessed = [] }), some (codes "wasm"))
build_or_get-again_example =
    build_or_get-again honest bare pinned (codes "a.wasm") (some (codes "stale"))
      (some (codes "wasm")) rebuilt (λ b. refl) honest-build_or_get
