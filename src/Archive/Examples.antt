-- ===== src/Archive/Examples.antt =====
-- The theorems on cells at a small cell and two small repositories.
use desmata.Prelude.{
  ℕ, ◌≡◌, ◌↔◌, refl, ap, subst, true, false, some, List, [], ◌∷◌, ◌++◌, if◌then◌else◌,
}
use desmata.Prelude.Results.{Result, ok, err, unknown_backend, cell_unavailable, ok_eq, ◌>>=◌, ◌>>◌}
use desmata.Prelude.Texts.{Text, codes, eq_text, starts_with}
use desmata.Content.{Hash, ipfs}
use desmata.Wit.{among}
use desmata.Archive.Cell.{nucleus_files, membrane_files}
use desmata.Archive.Manifest.{
  Entry, Manifest, nucleus, cell, other, Ipfs, Written, require_nucleus, nucleus_manifest,
  cell_manifest, unpack_cell,
}
use desmata.Archive.Pins.{Pins, artifact_pins, verify_artifacts, Hold, verify_artifacts-eq-ok_iff}
use desmata.Archive.Sharing.{SameNucleus, Addresses, result_of, nucleus_manifest-same}
use desmata.Archive.Unpack.{contents, unpack_cell-cell_manifest}
use desmata.Archive.Samples.{Block, blob, numbered, numbered-Stores, small_cell, fork}
use desmata.Archive.Parcel.{CellHashes, Parcels, cell_hashes, pack_cell, verify_has_nucleus, unpack}
use desmata.Archive.Handover.{Travels, SameAt, unpack-pack_cell, verify_has_nucleus-cell_hashes}

small-nucleus_files :
    nucleus_files small_cell
    ≡ codes "flake.nix"
      ∷ codes "flake.lock"
      ∷ codes "cell.py"
      ∷ codes "nucleus"
      ∷ codes "lib.py"
      ∷ codes "artifact"
      ∷ []
unfolding nucleus_files among eq_text starts_with
small-nucleus_files = refl

small-membrane_files : membrane_files small_cell ≡ codes "a.wasm" ∷ codes "main.py" ∷ []
unfolding membrane_files among eq_text starts_with
small-membrane_files = refl

unpack_cell-cell_manifest_example :
    (cell_manifest numbered small_cell [] >>= λ ((c, n), r').
    unpack_cell numbered c r' >>= λ (ws, r''). ok ws)
    ≡ (require_nucleus small_cell
        >> contents small_cell (nucleus_files small_cell ++ membrane_files small_cell))
unpack_cell-cell_manifest_example = unpack_cell-cell_manifest numbered numbered-Stores small_cell []

-- The repository behind the packing of the small cell.
abbrev packed : Result ((Text × Text) × List Block) → List Block
packed (ok (cids, r)) = r
packed (err e) = []

stored : List Block
unfolding cell_manifest
stored = packed (cell_manifest numbered small_cell [])

small-cell_manifest : cell_manifest numbered small_cell [] ≡ ok ((9 ∷ [], 6 ∷ []), stored)
unfolding stored cell_manifest among eq_text
small-cell_manifest = refl

-- A store whose CIDs are made of what is stored, and that keeps the bytes that it was given.
abbrev links : List Entry → Text
links [] = []
links (e ∷ es) = e.name ++ 0 ∷ (e.blob ++ 1 ∷ links es)

abbrev address : Manifest → Text
address (nucleus es) = 1 ∷ links es
address (cell n es) = 2 ∷ (n ++ 1 ∷ links es)
address other = 3 ∷ []

abbrev content_addressed : Ipfs
content_addressed = record {
  Repo = List (List ℕ);
  add = λ b r. (0 ∷ b, b ∷ r);
  dag_put = λ m r. (address m, r);
  dag_get = λ r c. err cell_unavailable;
  get = λ r c. err cell_unavailable;
  have = λ r c. false;
  daemon_running = λ r. false;
  pin_remote = λ c r. err cell_unavailable;
}

content_addressed-Addresses : Addresses content_addressed
content_addressed-Addresses = record { add_cid = λ b r r'. refl; put_cid = λ m r r'. refl }

fork-SameNucleus : SameNucleus small_cell fork
fork-SameNucleus = record {
  declared = refl;
  text = refl;
  files = λ n a. record { exists = refl; read = refl; relative = refl };
}

nucleus_manifest-same_example :
    result_of content_addressed (nucleus_manifest content_addressed small_cell [])
    ≡ result_of content_addressed (nucleus_manifest content_addressed fork ((7 ∷ []) ∷ []))
nucleus_manifest-same_example =
    nucleus_manifest-same content_addressed content_addressed-Addresses small_cell fork []
      ((7 ∷ []) ∷ []) fork-SameNucleus

abbrev any_hash : Text → Hash
any_hash name = record { backend = ipfs; digest = codes "Qa" }

abbrev pins : Pins
pins = (codes "a.wasm", any_hash []) ∷ []

verify_artifacts-eq-ok_iff_example :
    (verify_artifacts any_hash small_cell ≡ ok pins)
    ↔ ((artifact_pins small_cell ≡ ok pins) × Hold any_hash small_cell pins)
verify_artifacts-eq-ok_iff_example = verify_artifacts-eq-ok_iff any_hash small_cell pins

small-verify_artifacts : verify_artifacts any_hash small_cell ≡ ok pins
unfolding verify_artifacts among eq_text starts_with
small-verify_artifacts = refl

-- Bundles of the numbered repository: a bundle is all of its blocks.
abbrev whole : Parcels numbered
whole = record {
  Car = List Block;
  can_handle = λ h. true;
  pin_add = λ c r. ok r;
  dag_export = λ r c. ok r;
  dag_import = λ car q. ok car;
}

whole-Travels : Travels numbered whole
whole-Travels = record {
  handles = λ cid. refl;
  travels = λ r cid car h q.
      (car, refl, λ d reached. subst (λ q. SameAt numbered r q d) (ok_eq h) (λ b g. g, λ m g. g));
}

abbrev small_hashes : CellHashes
small_hashes = record {
  cell_hash = record { backend = ipfs; digest = 9 ∷ [] };
  nucleus_hash = record { backend = ipfs; digest = 6 ∷ [] };
}

small-cell_hashes : cell_hashes numbered whole small_cell [] ≡ ok (small_hashes, stored)
unfolding cell_hashes
small-cell_hashes =
    ap
      (λ o. o >>= λ ((c, n), r). ok (
        record {
          cell_hash = record { backend = ipfs; digest = c };
          nucleus_hash = record { backend = ipfs; digest = n };
        },
        r,
      ))
      small-cell_manifest

small-pack_cell : pack_cell numbered whole small_cell [] ≡ ok ((small_hashes, stored), stored)
unfolding pack_cell
small-pack_cell = ap (λ o. o >>= λ (hashes, r). ok ((hashes, r), r)) small-cell_hashes

unpack-pack_cell_example :
    (ws : Written) × (q₁ : List Block) × (contents small_cell
        (nucleus_files small_cell ++ membrane_files small_cell)
      ≡ ok ws)
    × (unpack numbered whole (some stored) small_hashes.cell_hash (blob [] ∷ []) ≡ ok (ws, q₁))
unpack-pack_cell_example =
    unpack-pack_cell numbered whole numbered-Stores whole-Travels small_cell [] stored small_hashes
      stored small-pack_cell (blob [] ∷ [])

verify_has_nucleus-cell_hashes_example :
    verify_has_nucleus numbered whole stored small_hashes.cell_hash small_hashes.nucleus_hash ≡ (
      if whole.can_handle small_hashes.cell_hash
      then ok (eq_text small_hashes.nucleus_hash.digest (6 ∷ []))
      else err unknown_backend)
verify_has_nucleus-cell_hashes_example =
    verify_has_nucleus-cell_hashes numbered whole numbered-Stores small_cell [] stored small_hashes
      small-cell_hashes small_hashes.nucleus_hash
