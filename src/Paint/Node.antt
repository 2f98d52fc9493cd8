-- ===== src/Paint/Node.antt =====
-- A Semantic Paint node: `publish_strokes`, `ship_blobs`, `post_fetch` and `fetch_data_ref_bytes`.
use desmata.Prelude.{
  ℕ, Bool, true, false, ◌&&◌, not, Option, none, some, List, [], ◌∷◌, ◌==◌, if◌then◌else◌,
}
use desmata.Prelude.Results.{Result, ok, err, publish_mismatch, ◌>>=◌}
use desmata.Prelude.Texts.{Text, codes, eq_text, has, length}
use desmata.Wit.Values.{Members}
use desmata.Provenance.{Brushstroke, Hashing, signed, content_id}
use desmata.Provenance.Ledger.{Dir, file_at, sort_files, load_brushstrokes}

-- The reference that a node answers with. An older node gives no size.
pub record Ref : Type 0 where
  pub hash : Text
  pub size : Option ℕ

-- What a node answers to its three requests: the ids under which it placed some strokes, the
-- reference under which it stored some bytes, and the bytes that it has for a hash.
pub record Node : Type 0 where
  pub publish : List Brushstroke → Result (List Text)
  pub put_data : List ℕ → Result Ref
  pub fetch : Text → Result (Option (List ℕ))

-- A stroke as it was sent, with its confirmed id.
pub record Published : Type 0 where
  pub stroke : Brushstroke
  pub content_id : Text

-- xs == ys
unfoldable pub eq_texts : List Text → List Text → Bool
unfolding eq_text
eq_texts [] [] = true
eq_texts [] (y ∷ ys) = false
eq_texts (x ∷ xs) [] = false
eq_texts (x ∷ xs) (y ∷ ys) = eq_text x y && eq_texts xs ys

-- The two checks on a node's reference.
abbrev pub size_agrees : Option ℕ → List ℕ → Bool
size_agrees none bytes = true
size_agrees (some n) bytes = n == length bytes

-- The loop of `ship_blobs`.
unfoldable pub ship : Node → Dir (List ℕ) → Result (List Text)
unfolding eq_text
ship node [] = ok []
ship node ((name, bytes) ∷ d) =
    let rest = ship node d in
    node.put_data bytes >>= λ ref.
    if not (eq_text ref.hash name)
    then err publish_mismatch
    else if not (size_agrees ref.size bytes)
    then err publish_mismatch
    else (rest >>= λ shipped. ok (ref.hash ∷ shipped))

-- ship_blobs
unfoldable pub ship_blobs : Node → Dir (List ℕ) → Result (List Text)
unfolding sort_files ship
ship_blobs node box = ship node (sort_files box)

-- Joined to a directory, the text names a file in it.
unfoldable pub is_name : Text → Bool
unfolding has eq_text
is_name [] = false
is_name (c ∷ t) =
    not (has (c ∷ t) b'/')
    && (not (eq_text (c ∷ t) (codes ".")) && not (eq_text (c ∷ t) (codes "..")))

module _ (H : Hashing) where
  -- sign_all
  unfoldable pub sign_all : Text → (List ℕ → Text) → List Brushstroke → List Brushstroke
  unfolding signed
  sign_all signer sign [] = []
  sign_all signer sign (b ∷ bs) = signed H signer sign b ∷ sign_all signer sign bs

  -- [s.content_id() for s in strokes]
  unfoldable pub ids : List Brushstroke → List Text
  unfolding content_id
  ids [] = []
  ids (b ∷ bs) = content_id H b ∷ ids bs

  -- [Published(stroke=s, content_id=i) for s, i in zip(strokes, ids)]
  unfoldable pub zip_published : List Brushstroke → List Text → List Published
  zip_published [] is = []
  zip_published (b ∷ bs) [] = []
  zip_published (b ∷ bs) (i ∷ is) = record { stroke = b; content_id = i } ∷ zip_published bs is

  -- The comparison of what was placed with what is expected.
  unfoldable pub confirm : List Brushstroke → List Text → Result (List Published)
  unfolding eq_texts ids zip_published
  confirm strokes placed =
      if eq_texts placed (ids strokes)
      then ok (zip_published strokes (ids strokes))
      else err publish_mismatch

  -- The part of `publish_strokes` behind the ledger.
  unfoldable pub publish_all :
      Node → Text → (List ℕ → Text) → List Brushstroke → Result (List Published)
  unfolding sign_all confirm
  publish_all node signer sign [] = ok []
  publish_all node signer sign (b ∷ bs) =
      let strokes = sign_all signer sign (b ∷ bs) in node.publish strokes >>= confirm strokes

  -- publish_strokes
  unfoldable pub publish_strokes :
      Node → Text → (List ℕ → Text) → Dir Members → Result (List Published)
  unfolding load_brushstrokes publish_all
  publish_strokes node signer sign ledger =
      load_brushstrokes ledger >>= publish_all node signer sign

  -- The check of `post_fetch`.
  unfoldable pub checked : Text → Option (List ℕ) → Result (Option (List ℕ))
  unfolding eq_text
  checked digest none = ok none
  checked digest (some bytes) =
      if eq_text (H.sha256 bytes) digest then ok (some bytes) else err publish_mismatch

  -- post_fetch
  unfoldable pub post_fetch : Node → Text → Result (Option (List ℕ))
  unfolding checked
  post_fetch node digest = node.fetch digest >>= checked digest

  -- What follows the look into the outbox.
  unfoldable pub fetch_remote : Option Node → Text → Result (Option (List ℕ))
  unfolding post_fetch
  fetch_remote none digest = ok none
  fetch_remote (some node) digest = post_fetch node digest

  -- The local bytes, where there are some, and else the node's.
  abbrev pub local_or : Option Node → Text → Option (List ℕ) → Result (Option (List ℕ))
  local_or peer digest none = fetch_remote peer digest
  local_or peer digest (some bytes) = ok (some bytes)

  -- The file at `blob_dir / digest`. The hash is joined as it is given: where it is not a plain name,
  -- the path leads out of the outbox, and `elsewhere` is what reading there gives.
  unfoldable pub local_bytes :
      (Text → Result (Option (List ℕ))) → Dir (List ℕ) → Text → Result (Option (List ℕ))
  unfolding is_name file_at
  local_bytes elsewhere box digest =
      if is_name digest then ok (file_at digest box) else elsewhere digest

  -- fetch_data_ref_bytes, of the reference's hash
  unfoldable pub fetch_data_ref_bytes :
      (Text → Result (Option (List ℕ)))
      → Option Node
      → Dir (List ℕ)
      → Text
      → Result (Option (List ℕ))
  unfolding local_bytes fetch_remote
  fetch_data_ref_bytes elsewhere peer box digest =
      local_bytes elsewhere box digest >>= local_or peer digest
