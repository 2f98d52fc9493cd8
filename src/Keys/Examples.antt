-- ===== src/Keys/Examples.antt =====
-- Tests and instances for keys.
use desmata.Prelude.{ℕ, none, List, [], ◌∷◌, ◌++◌, ◌≡◌, refl}
use desmata.Prelude.Results.{ok}
use desmata.Prelude.Texts.{codes, eq_text, eq_text_refl}
use desmata.Provenance.{Brushstroke, Hashing, mint, reproducibility_palette}
use desmata.Wave.Value.{pos}
use desmata.Wit.Values.{Members}
use desmata.Provenance.Ledger.{Dir, save_brushstrokes, load_brushstrokes}
use desmata.Paint.Node.{Node, Published, ids, publish_strokes}
use desmata.Paint.Published.{as_published, publish_strokes-ok_iff}
use desmata.Disk.{FilePath, folder, file, Disk, eq_path, put, parent, make_below, mkdir}
use desmata.Keys.{
  Ed25519, Base64, PeerKey, key_path, fingerprint, as_peer, key_at, peer_key, sign_text,
}
use desmata.Keys.Verified.{IsEd25519, AllVerified, peer_key_again, publish_strokes-AllVerified}

-- Keys that are their own bytes, and sign a message by putting themselves in front of it.
abbrev plain_keys : Ed25519
plain_keys = record {
  Key = List ℕ;
  generate = λ n. n ∷ [];
  from_private_bytes = λ bytes. ok bytes;
  private_bytes = λ key. key;
  public_bytes = λ key. key;
  sign = λ key m. key ++ m;
  verify = λ key m sig. eq_text (key ++ m) sig;
}

plain_keys-IsEd25519 : IsEd25519 plain_keys
plain_keys-IsEd25519 = record {
  read_back = λ key. refl;
  verifies = λ key m. eq_text_refl (key ++ m);
}

abbrev no_base64 : Base64
no_base64 = record { b64encode = λ bytes. bytes; b64decode = λ t. t }

abbrev plain_hashing : Hashing
plain_hashing = record { encode = λ t. t; decode = λ bs. ok bs; sha256 = λ bs. bs }

abbrev userspace : FilePath
userspace = codes "data" ∷ []

abbrev empty_disk : Disk
empty_disk q = none

abbrev minted : PeerKey (List ℕ)
minted = record { signer = 7 ∷ []; public_key = 7 ∷ []; key = 7 ∷ [] }

-- The folders, and the key's file in them.
abbrev with_key : Disk
with_key =
    put (codes "data" ∷ codes "identity" ∷ codes "peer.ed25519" ∷ []) (file (7 ∷ [])) (
      put (codes "data" ∷ codes "identity" ∷ []) folder (put (codes "data" ∷ []) folder empty_disk))

mints : peer_key plain_hashing plain_keys userspace 7 empty_disk ≡ (ok minted, with_key)
unfolding peer_key key_path key_at as_peer fingerprint mkdir make_below parent put eq_path eq_text
mints = refl

peer_key_again_example :
    ((later : ℕ)
      → peer_key plain_hashing plain_keys userspace later with_key ≡ (ok minted, with_key))
    × (minted.signer ≡ plain_hashing.sha256 minted.public_key)
peer_key_again_example =
    peer_key_again plain_hashing plain_keys plain_keys-IsEd25519 userspace 7 empty_disk with_key
      minted mints

abbrev claimed : Brushstroke
claimed = mint (codes "builds_to") reproducibility_palette (codes "r" ∷ codes "h" ∷ []) (pos 5)

abbrev ledger : Dir Members
ledger = save_brushstrokes plain_hashing (claimed ∷ []) []

-- A node that places strokes under the ids that it computes.
abbrev node : Node
node = record {
  publish = λ strokes. ok (ids plain_hashing strokes);
  put_data = λ bytes. ok (record { hash = bytes; size = none });
  fetch = λ digest. ok none;
}

abbrev published : List Published
published =
    as_published plain_hashing node (7 ∷ []) (sign_text plain_keys no_base64 minted) claimed ∷ []

is_published :
    publish_strokes plain_hashing node (7 ∷ []) (sign_text plain_keys no_base64 minted) ledger
    ≡ ok published
is_published =
    (publish_strokes-ok_iff plain_hashing node (7 ∷ []) (sign_text plain_keys no_base64 minted)
        ledger published).1
      (claimed ∷ [], unfold load_brushstrokes save_brushstrokes in refl, (refl, refl))

publish_strokes-AllVerified_example :
    AllVerified plain_hashing plain_keys plain_keys-IsEd25519 no_base64
      (λ bytes. refl)
      minted
      published
publish_strokes-AllVerified_example =
    publish_strokes-AllVerified plain_hashing plain_keys plain_keys-IsEd25519 no_base64
      (λ bytes. refl) node userspace 7 empty_disk with_key minted ledger published mints
      is_published
