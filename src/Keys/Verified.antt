-- ===== src/Keys/Verified.antt =====
-- One key for a peer, and strokes that verify under it.
use desmata.Prelude.{ℕ, true, Option, none, some, List, [], ◌∷◌, map, ◌≡◌, refl, sym, ap, subst}
use desmata.Prelude.Results.{Error, Result, ok, err}
use desmata.Wit.Values.{Members}
use desmata.Provenance.{Brushstroke, Hashing, canonical, canonical_value, content_id, signed}
use desmata.Provenance.Ledger.{Dir}
use desmata.Paint.Node.{Node, Published, publish_strokes}
use desmata.Paint.Published.{as_published, publish_strokes-ok_iff}
use desmata.Disk.{FilePath, Entry, folder, file, Disk, parent, mkdir, write_at}
use desmata.Disk.Paths.{put_there}
use desmata.Keys.{
  Ed25519, Base64, sign_text, PeerKey, key_path, fingerprint, as_peer, loaded, written, stored,
  key_at, peer_key,
}

-- What the library documents: raw private bytes are read back, and a signature verifies.
pub record IsEd25519 (E : Ed25519) : Type 0 where
  pub read_back : (key : E.Key) → E.from_private_bytes (E.private_bytes key) ≡ ok key
  pub verifies : (key : E.Key) (m : List ℕ) → E.verify (E.public_bytes key) m (E.sign key m) ≡ true

module _ (H : Hashing) (E : Ed25519) (laws : IsEd25519 E) where
  -- A key and the disk, as a call returns them.
  same_key :
      {k l : PeerKey E.Key} {d e : Disk}
      → ◌≡◌ {A = Result (PeerKey E.Key) × Disk} (ok k, d) (ok l, e)
      → (k ≡ l) × (d ≡ e)
  same_key same = (cc, cc)

  no_key :
      {x : Error} {l : PeerKey E.Key} {d e : Disk}
      → ◌≡◌ {A = Result (PeerKey E.Key) × Disk} (err x, d) (ok l, e)
      → ⊥
  no_key same = cc

  -- The disk holds the key at the path.
  abbrev pub Holds : FilePath → PeerKey E.Key → Disk → Type 0
  Holds path k d =
      (c : List ℕ) × (key : E.Key) × (d path ≡ some (file c))
      × (E.from_private_bytes c ≡ ok key)
      × (k ≡ as_peer H E key)

  loaded-Holds :
      (path : FilePath) (c : List ℕ) (r : Result E.Key) (d e : Disk) (k : PeerKey E.Key)
      → d path ≡ some (file c)
      → E.from_private_bytes c ≡ r
      → loaded H E r d ≡ (ok k, e)
      → Holds path k e
  loaded-Holds path c (err x) d e k at read h = absurd (no_key h)
  loaded-Holds path c (ok key) d e k at read h =
      let (p, q) = same_key h in (c, key, subst (λ f. f path ≡ some (file c)) q at, read, sym p)

  written-Holds :
      (path : FilePath) (key : E.Key) (o : Option Entry) (d f e : Disk) (k : PeerKey E.Key)
      → written H E key (write_at o path (E.private_bytes key) d) f ≡ (ok k, e)
      → Holds path k e
  written-Holds path key (some folder) d f e k h = absurd (no_key h)
  written-Holds path key (some (file old)) d f e k h =
      let (p, q) = same_key h in
      (
        E.private_bytes key,
        key,
        subst (λ g. g path ≡ some (file (E.private_bytes key))) q (put_there path _ d),
        laws.read_back key,
        sym p,
      )
  written-Holds path key none d f e k h =
      let (p, q) = same_key h in
      (
        E.private_bytes key,
        key,
        subst (λ g. g path ≡ some (file (E.private_bytes key))) q (put_there path _ d),
        laws.read_back key,
        sym p,
      )

  stored-Holds :
      (path : FilePath) (key : E.Key) (r : Result Disk) (d e : Disk) (k : PeerKey E.Key)
      → stored H E path key r d ≡ (ok k, e)
      → Holds path k e
  stored-Holds path key (err x) d e k h = absurd (no_key h)
  stored-Holds path key (ok f) d e k h = written-Holds path key (f path) f f e k h

  key_at-Holds :
      (path : FilePath) (n : ℕ) (o : Option Entry) (d e : Disk) (k : PeerKey E.Key)
      → d path ≡ o
      → key_at H E path n o d ≡ (ok k, e)
      → Holds path k e
  unfolding key_at
  key_at-Holds path n none d e k at h =
      stored-Holds path (E.generate n) (mkdir (parent path) d) d e k h
  key_at-Holds path n (some folder) d e k at h = absurd (no_key h)
  key_at-Holds path n (some (file c)) d e k at h =
      loaded-Holds path c (E.from_private_bytes c) d e k at refl h

  -- Where a peer key was loaded or minted, every later call on the disk that is left, whatever entropy
  -- it is given, returns the same key and leaves the disk as it is. Its signer is the SHA-256 of its
  -- public key.
  pub peer_key_again :
      (files : FilePath) (n : ℕ) (d e : Disk) (k : PeerKey E.Key)
      → peer_key H E files n d ≡ (ok k, e)
      → ((later : ℕ) → peer_key H E files later e ≡ (ok k, e)) × (k.signer ≡ H.sha256 k.public_key)
  unfolding peer_key key_at
  peer_key_again files n d e k h =
      let (c, key, at, read, same) =
        key_at-Holds (key_path files) n (d (key_path files)) d e k refl h in
      (
        λ later. rw (at, read) (ap (λ x. (ok x, e)) (sym same)),
        rw same (unfold as_peer fingerprint in refl),
      )

  module _ (B : Base64) (inverse : (bytes : List ℕ) → B.b64decode (B.b64encode bytes) ≡ bytes) where
    -- A published stroke names the peer, and its signature verifies under the peer's public key.
    abbrev pub IsVerified : PeerKey E.Key → Published → Type 0
    IsVerified k p =
        (p.stroke.signer ≡ H.sha256 k.public_key)
        × (E.verify k.public_key (H.encode (canonical p.stroke)) (B.b64decode p.stroke.sig) ≡ true)
        × (p.content_id ≡ H.sha256 (H.encode (canonical p.stroke)))

    abbrev pub AllVerified : PeerKey E.Key → List Published → Type 0
    AllVerified k [] = Unit
    AllVerified k (p ∷ ps) = IsVerified k p × AllVerified k ps

    module _ (node : Node) where
      -- What a peer publishes of a stroke.
      abbrev of_peer : PeerKey E.Key → Brushstroke → Published
      of_peer k = as_published H node k.signer (sign_text E B k)

      of_peer-IsVerified :
          (key : E.Key) (b : Brushstroke)
          → IsVerified (as_peer H E key) (of_peer (as_peer H E key) b)
      unfolding as_peer fingerprint sign_text signed canonical canonical_value content_id
      of_peer-IsVerified key b = (refl, rw (inverse (E.sign key _)) (laws.verifies key _), refl)

      of_peer-AllVerified :
          (key : E.Key) (bs : List Brushstroke)
          → AllVerified (as_peer H E key) (map (of_peer (as_peer H E key)) bs)
      of_peer-AllVerified key [] = tt
      of_peer-AllVerified key (b ∷ bs) = (of_peer-IsVerified key b, of_peer-AllVerified key bs)

      -- What is published under a peer's key, loaded or minted, on whatever node that accepts it: each
      -- stroke names as its signer the SHA-256 of the peer's public key, its signature verifies under
      -- this key for the bytes of its canonical form, and the id that is returned is the hash of these
      -- bytes.
      pub publish_strokes-AllVerified :
          (files : FilePath) (n : ℕ) (d e : Disk) (k : PeerKey E.Key) (ledger : Dir Members)
          (ps : List Published)
          → peer_key H E files n d ≡ (ok k, e)
          → publish_strokes H node k.signer (sign_text E B k) ledger ≡ ok ps
          → AllVerified k ps
      unfolding peer_key
      publish_strokes-AllVerified files n d e k ledger ps h published =
          let (c, key, at, read, same) =
            key_at-Holds (key_path files) n (d (key_path files)) d e k refl h in
          let (to, from) = publish_strokes-ok_iff H node k.signer (sign_text E B k) ledger ps in
          let (bs, loads, rest) = to published in
          let (places, all) = rest in
          subst (λ x. AllVerified k x) (sym all)
            (subst (λ x. AllVerified x (map (of_peer x) bs)) (sym same)
              (of_peer-AllVerified key bs))
