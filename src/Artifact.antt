-- ===== src/Artifact.antt =====
-- src/desmata/artifact.py: realizing a pinned WebAssembly component. The state is the file at the
-- component's path. `nix` and the content backend are programs outside the repository, and stand
-- here as parameters.
mod Examples
pub mod Realized
use desmata.Prelude.{ℕ, Bool, Option, none, some, List, [], ◌∷◌, if◌then◌else◌}
use desmata.Prelude.Results.{Result, ok, err, artifact_pin_mismatch, cell_unavailable, ◌>>=◌}
use desmata.Prelude.Texts.{Text, codes, eq_text}
use desmata.Content.{Hash, show_hash}
use desmata.Archive.Pins.{Pins, eq_hash}

-- A file's bytes, or no file.
abbrev pub File : Type 0
File = Option (List ℕ)

-- What the run of a component needs: `hash` of a file's bytes, whether `nix` is there, the file that
-- the recipe builds, and the nucleus hash of the cell around the component's file.
pub record Foundry : Type 0 where
  pub hash : List ℕ → Hash
  pub has_nix : Bool
  pub build : Result (List ℕ)
  pub nucleus : File → Result Text

-- A stroke of the color `builds_to`, by its arguments.
pub record BuildsTo : Type 0 where
  pub recipe : Text
  pub output : Text

pub record Component : Type 0 where
  pub pin : Hash
  pub witnessed : List BuildsTo

-- pins[name], `none` for a KeyError
unfoldable pub pin_at : Pins → Text → Option Hash
unfolding eq_text
pin_at [] name = none
pin_at ((n, h) ∷ ps) name = if eq_text n name then some h else pin_at ps name

module _ (F : Foundry) where
  -- blob.exists() and hasher.hash_path(blob) == pin
  unfoldable pub pin_true : Hash → File → Bool
  unfolding eq_hash
  pin_true pin none = Bool.false
  pin_true pin (some b) = eq_hash (F.hash b) pin

  -- The stroke that a rebuild mints.
  unfoldable pub witness : Hash → Result Text → Result Component
  unfolding show_hash
  witness pin (ok n) =
      ok (record { pin = pin; witnessed = record { recipe = n; output = show_hash pin } ∷ [] })
  witness pin (err e) = err e

  -- What follows the build: the comparison with the pin, and the copy.
  unfoldable pub install : Hash → File → Result (List ℕ) → Result Component × File
  unfolding eq_hash witness
  install pin blob (err e) = (err e, blob)
  install pin blob (ok built) =
      if eq_hash (F.hash built) pin
      then (witness pin (F.nucleus (some built)), some built)
      else (err artifact_pin_mismatch, blob)

  -- `build_or_get` behind the lookup of the pin.
  unfoldable pub realize : Hash → File → Result Component × File
  unfolding pin_true install
  realize pin blob =
      if pin_true pin blob
      then (ok (record { pin = pin; witnessed = [] }), blob)
      else if F.has_nix
      then install pin blob F.build
      else (err cell_unavailable, blob)

  unfoldable pub build_from : Option Hash → File → Result Component × File
  unfolding realize
  build_from none blob = (err artifact_pin_mismatch, blob)
  build_from (some pin) blob = realize pin blob

  -- build_or_get, with what `artifact_pins` returned
  unfoldable pub build_or_get : Result Pins → Text → File → Result Component × File
  unfolding pin_at build_from
  build_or_get (err e) path blob = (err e, blob)
  build_or_get (ok pins) path blob = build_from (pin_at pins path) blob
