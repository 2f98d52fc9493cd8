-- ===== src/Keys.antt =====
-- src/desmata/keys.py: the signing key of a peer. Ed25519 and the base64 of signatures are
-- parameters; the key is minted from some entropy.
mod Examples
pub mod Verified
use desmata.Prelude.{ℕ, Bool, Option, none, some, List, [], ◌∷◌, ◌++◌}
use desmata.Prelude.Results.{Result, ok, err, os_error}
use desmata.Prelude.Texts.{Text, codes}
use desmata.Provenance.{Hashing}
use desmata.Disk.{FilePath, Entry, folder, file, Disk, parent, mkdir, write_at}

-- Ed25519PrivateKey and its public key, as raw bytes. `verify` takes a public key, a message and a
-- signature.
pub record Ed25519 : Type 1 where
  pub Key : Type 0
  pub generate : ℕ → Key
  pub from_private_bytes : List ℕ → Result Key
  pub private_bytes : Key → List ℕ
  pub public_bytes : Key → List ℕ
  pub sign : Key → List ℕ → List ℕ
  pub verify : List ℕ → List ℕ → List ℕ → Bool

-- base64.b64encode, and its inverse
pub record Base64 : Type 0 where
  pub b64encode : List ℕ → Text
  pub b64decode : Text → List ℕ

pub record PeerKey (Key : Type 0) : Type 0 where
  pub signer : Text
  pub public_key : List ℕ
  pub key : Key

-- key_path, of the userspace's data folder
unfoldable pub key_path : FilePath → FilePath
key_path files = files ++ (codes "identity" ∷ codes "peer.ed25519" ∷ [])

-- fingerprint
unfoldable pub fingerprint : Hashing → List ℕ → Text
fingerprint H public_key = H.sha256 public_key

module _ (H : Hashing) (E : Ed25519) where
  -- PeerKey(...), of a loaded or minted key
  unfoldable pub as_peer : E.Key → PeerKey E.Key
  unfolding fingerprint
  as_peer key = record {
    signer = fingerprint H (E.public_bytes key);
    public_key = E.public_bytes key;
    key = key;
  }

  abbrev pub loaded : Result E.Key → Disk → Result (PeerKey E.Key) × Disk
  loaded (ok key) d = (ok (as_peer key), d)
  loaded (err e) d = (err e, d)

  abbrev pub written : E.Key → Result Disk → Disk → Result (PeerKey E.Key) × Disk
  written key (ok e) d = (ok (as_peer key), e)
  written key (err x) d = (err x, d)

  abbrev pub stored : FilePath → E.Key → Result Disk → Disk → Result (PeerKey E.Key) × Disk
  stored path key (ok e) d = written key (write_at (e path) path (E.private_bytes key) e) e
  stored path key (err x) d = (err x, d)

  -- The key of a path: it is loaded where the path exists, and else minted and stored.
  unfoldable pub key_at : FilePath → ℕ → Option Entry → Disk → Result (PeerKey E.Key) × Disk
  unfolding as_peer mkdir parent
  key_at path entropy none d = stored path (E.generate entropy) (mkdir (parent path) d) d
  key_at path entropy (some folder) d = (err os_error, d)
  key_at path entropy (some (file content)) d = loaded (E.from_private_bytes content) d

  -- peer_key
  unfoldable pub peer_key : FilePath → ℕ → Disk → Result (PeerKey E.Key) × Disk
  unfolding key_path key_at
  peer_key files entropy d = key_at (key_path files) entropy (d (key_path files)) d

-- PeerKey.sign, in the base64 that a stroke carries
unfoldable pub sign_text : (E : Ed25519) → Base64 → PeerKey E.Key → List ℕ → Text
sign_text E B k m = B.b64encode (E.sign k.key m)
