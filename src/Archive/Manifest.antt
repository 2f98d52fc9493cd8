-- ===== src/Archive/Manifest.antt =====
-- The manifests of src/desmata/cell_archive.py, what it stores, and what it reads back. `ipfs` is a
-- program outside the repository, and stands here as a parameter; its repository is a state.
use desmata.Prelude.{ℕ, Bool, false, not, List, [], ◌∷◌, ◌++◌, if◌then◌else◌}
use desmata.Prelude.Results.{
  Result, ok, err, invalid_cell, cell_unavailable, key_error, timed_out, ◌>>=◌, ◌>>◌,
}
use desmata.Prelude.Texts.{Text, eq_text}
use desmata.Archive.Cell.{CellDir, nucleus_names, nucleus_files, membrane_files, missing}

-- A link under a path.
pub record Entry : Type 0 where
  pub name : Text
  pub blob : Text

-- A document of the repository: a nucleus manifest, a cell manifest with its link to the nucleus
-- manifest, or any other document.
pub data Manifest : Type 0 where
  nucleus : List Entry → Manifest
  cell : Text → List Entry → Manifest
  other : Manifest

-- The operations of an ipfs repository. A CID is a text.
pub record Ipfs : Type 1 where
  pub Repo : Type 0
  pub add : List ℕ → Repo → Text × Repo
  pub dag_put : Manifest → Repo → Text × Repo
  pub dag_get : Repo → Text → Result Manifest
  pub get : Repo → Text → Result (List ℕ)
  pub have : Repo → Text → Bool
  pub daemon_running : Repo → Bool
  pub pin_remote : Text → Repo → Result Repo

-- What was written below the directory that a cell is unpacked into.
abbrev pub Written : Type 0
Written = List (Text × List ℕ)

-- require_nucleus
unfoldable pub require_nucleus : CellDir → Result (Unit {0})
unfolding nucleus_names missing
require_nucleus d = elim (missing d (nucleus_names d)) [ [] ↦ ok tt | n ∷ ns ↦ err invalid_cell ]

module _ (I : Ipfs) where
  -- _entries. `ipfs add` without `-r` fails where the file cannot be read.
  unfoldable pub entries : CellDir → List Text → I.Repo → Result (List Entry × I.Repo)
  entries d [] r = ok ([], r)
  entries d (n ∷ ns) r = d.relative n >>= λ name. d.read n >>= λ b.
      let (cid, r₁) = I.add b r in
      entries d ns r₁ >>= λ (es, r₂). ok (record { name = name; blob = cid } ∷ es, r₂)

  -- _nucleus_manifest, behind `require_nucleus`
  unfoldable pub store_nucleus : CellDir → I.Repo → Result (Text × I.Repo)
  unfolding nucleus_files entries
  store_nucleus d r = entries d (nucleus_files d) r >>= λ (es, r₁). ok (I.dag_put (nucleus es) r₁)

  unfoldable pub nucleus_manifest : CellDir → I.Repo → Result (Text × I.Repo)
  unfolding require_nucleus store_nucleus
  nucleus_manifest d r = require_nucleus d >> store_nucleus d r

  -- The cell manifest over a stored nucleus, with both CIDs.
  unfoldable pub store_cell : CellDir → Text → I.Repo → Result ((Text × Text) × I.Repo)
  unfolding membrane_files entries
  store_cell d nucleus_cid r = entries d (membrane_files d) r >>= λ (es, r₁).
      let (cell_cid, r₂) = I.dag_put (cell nucleus_cid es) r₁ in ok ((cell_cid, nucleus_cid), r₂)

  -- _cell_manifest, and so `cell_hashes`: both CIDs carry the repository's own backend.
  unfoldable pub cell_manifest : CellDir → I.Repo → Result ((Text × Text) × I.Repo)
  unfolding nucleus_manifest store_cell
  cell_manifest d r = nucleus_manifest d r >>= λ (nucleus_cid, r₁). store_cell d nucleus_cid r₁

  -- The `try` around the pin: a timeout becomes CellUnavailable, and nothing else does.
  abbrev pub after_pin : Result I.Repo → Result I.Repo
  after_pin (ok r) = ok r
  after_pin (err timed_out) = err cell_unavailable
  after_pin (err e) = err e

  -- _ensure_available: local first, then through the daemon.
  unfoldable pub ensure_available : Text → I.Repo → Result I.Repo
  ensure_available cid r =
      if I.have r cid
      then ok r
      else if not (I.daemon_running r)
      then err cell_unavailable
      else after_pin (I.pin_remote cid r)

  -- The comparison of `verify_has_nucleus`, a missing key counted as no.
  unfoldable pub links_nucleus : Manifest → Text → Bool
  unfolding eq_text
  links_nucleus (cell linked es) digest = eq_text linked digest
  links_nucleus other digest = false
  links_nucleus (nucleus es) digest = false

  -- manifest["nucleus"]
  unfoldable pub nucleus_entries : Manifest → Result (List Entry)
  nucleus_entries (nucleus es) = ok es
  nucleus_entries (cell linked es) = err key_error
  nucleus_entries other = err key_error

  -- The entries of a whole cell, the nucleus first, or of a nucleus alone.
  unfoldable pub all_entries : I.Repo → Manifest → Result (List Entry)
  unfolding nucleus_entries
  all_entries r (cell linked es) = I.dag_get r linked >>= nucleus_entries >>= λ ns. ok (ns ++ es)
  all_entries r (nucleus es) = ok es
  all_entries r other = err key_error

  -- The loop that writes the files.
  unfoldable pub fetch : I.Repo → List Entry → Result Written
  fetch r [] = ok []
  fetch r (e ∷ es) = I.get r e.blob >>= λ b. fetch r es >>= λ ws. ok ((e.name, b) ∷ ws)

  -- unpack_cell without a bundle, behind the test of the hash's backend.
  unfoldable pub unpack_cell : Text → I.Repo → Result (Written × I.Repo)
  unfolding ensure_available all_entries fetch
  unpack_cell cid r = ensure_available cid r >>= λ r₁.
      I.dag_get r₁ cid >>= all_entries r₁ >>= fetch r₁ >>= λ ws. ok (ws, r₁)
