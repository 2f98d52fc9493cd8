-- ===== src/Archive/Parcel.antt =====
-- A cell that is packed, published and fetched: `cell_hashes`, `pack_cell`, `publish_cell`, `unpack_cell`
-- with its bundle, and the part of `from_hash` and `from_peer` before the cell's class is loaded.
use desmata.Prelude.{Bool, Option, none, some, not, if◌then◌else◌}
use desmata.Prelude.Results.{Result, ok, err, unknown_backend, ◌>>=◌, ◌>>◌}
use desmata.Prelude.Texts.{Text}
use desmata.Content.{Hash, ipfs}
use desmata.Archive.Cell.{CellDir}
use desmata.Archive.Pins.{verify_artifacts}
use desmata.Archive.Manifest.{
  Ipfs, Written, require_nucleus, nucleus_manifest, cell_manifest, ensure_available, links_nucleus,
  all_entries, fetch,
}

-- CellHashes, without its `dependency_hashes`, which are empty here.
pub record CellHashes : Type 0 where
  pub cell_hash : Hash
  pub nucleus_hash : Hash

-- The calls of ipfs that concern bundles and pins, over a repository.
pub record Parcels (I : Ipfs) : Type 1 where
  pub Car : Type 0
  pub can_handle : Hash → Bool
  pub pin_add : Text → I.Repo → Result I.Repo
  pub dag_export : I.Repo → Text → Result Car
  pub dag_import : Car → I.Repo → Result I.Repo

-- Hash(backend=ipfs.backend, digest=cid)
abbrev pub hash_of : Text → Hash
hash_of cid = record { backend = ipfs; digest = cid }

module _ (I : Ipfs) (P : Parcels I) where
  -- nucleus_hash
  unfoldable pub nucleus_hash : CellDir → I.Repo → Result (Hash × I.Repo)
  unfolding nucleus_manifest
  nucleus_hash d r = nucleus_manifest I d r >>= λ (cid, r₁). ok (hash_of cid, r₁)

  -- cell_hash
  unfoldable pub cell_hash : CellDir → I.Repo → Result (Hash × I.Repo)
  unfolding cell_manifest
  cell_hash d r = cell_manifest I d r >>= λ ((cid, n), r₁). ok (hash_of cid, r₁)

  -- cell_hashes
  unfoldable pub cell_hashes : CellDir → I.Repo → Result (CellHashes × I.Repo)
  unfolding cell_manifest
  cell_hashes d r = cell_manifest I d r >>= λ ((c, n), r₁).
      ok (record { cell_hash = hash_of c; nucleus_hash = hash_of n }, r₁)

  -- pack_cell
  unfoldable pub pack_cell : CellDir → I.Repo → Result ((CellHashes × P.Car) × I.Repo)
  unfolding cell_hashes
  pack_cell d r = cell_hashes d r >>= λ (hashes, r₁).
      P.dag_export r₁ hashes.cell_hash.digest >>= λ car. ok ((hashes, car), r₁)

  -- publish_cell. `hash_path` is that of the content backend.
  unfoldable pub publish_cell : (Text → Hash) → CellDir → I.Repo → Result (CellHashes × I.Repo)
  unfolding verify_artifacts cell_hashes
  publish_cell hash_path d r = verify_artifacts hash_path d >> cell_hashes d r >>= λ (hashes, r₁).
      P.pin_add hashes.cell_hash.digest r₁ >>= λ r₂. ok (hashes, r₂)

  -- _require_handled
  unfoldable pub require_handled : Hash → Result (Unit {0})
  require_handled h = if not (P.can_handle h) then err unknown_backend else ok tt

  -- verify_has_nucleus. The nucleus hash's own backend is not looked at.
  unfoldable pub verify_has_nucleus : I.Repo → Hash → Hash → Result Bool
  unfolding require_handled links_nucleus
  verify_has_nucleus r c n =
      require_handled c >> I.dag_get r c.digest >>= λ m. ok (links_nucleus I m n.digest)

  -- The blocks of a hash: those of the bundle, or the repository's.
  abbrev pub blocks_of : Option P.Car → Hash → I.Repo → Result I.Repo
  blocks_of (some car) h r = P.dag_import car r
  blocks_of none h r = ensure_available I h.digest r

  -- unpack_cell
  unfoldable pub unpack : Option P.Car → Hash → I.Repo → Result (Written × I.Repo)
  unfolding require_handled ensure_available all_entries fetch
  unpack car h r = require_handled h >> blocks_of car h r >>= λ r₁.
      (I.dag_get r₁ h.digest >>= all_entries I r₁ >>= fetch I r₁ >>= λ ws. ok (ws, r₁))

  -- from_hash, before the class is loaded. `directory` is what was written, as a directory.
  unfoldable pub arrive :
      (Written → CellDir) → Option P.Car → Hash → I.Repo → Result (CellDir × I.Repo)
  unfolding unpack require_nucleus
  arrive directory car h r =
      unpack car h r >>= λ (ws, r₁). require_nucleus (directory ws) >> ok (directory ws, r₁)

  -- from_peer, before the class is loaded.
  unfoldable pub from_peer :
      (Written → CellDir) → Hash → I.Repo → I.Repo → Result (CellDir × I.Repo)
  unfolding require_handled arrive
  from_peer directory h peer r =
      require_handled h >> P.dag_export peer h.digest >>= λ car. arrive directory (some car) h r
