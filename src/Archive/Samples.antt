-- ===== src/Archive/Samples.antt =====
-- A small cell and a small repository, at which the theorems on src/desmata/cell_archive.py are applied.
use desmata.Prelude.{
  ℕ, zero, suc, ◌≡◌, refl, ap, ◌∙◌, Bool, true, false, ◌&&◌, Option, none, some, List, [], ◌∷◌,
  ◌++◌, ◌⊎◌, inl, inr, if◌then◌else◌,
}
use desmata.Prelude.Results.{Result, ok, err, cell_unavailable, ok_eq, raised_returns}
use desmata.Prelude.Texts.{Text, codes, length, eq_text}
use desmata.Wit.{among}
use desmata.Archive.Cell.{CellDir, Entries, end, entry, file, link, directory}
use desmata.Archive.Manifest.{Entry, Manifest, nucleus, cell, other, Ipfs}
use desmata.Archive.Unpack.{AllThere, IsWhole, Keeps, Stores}

-- A block of a repository.
pub data Block : Type 0 where
  blob : List ℕ → Block
  document : Manifest → Block

abbrev pub nth : List Block → ℕ → Option Block
nth [] i = none
nth (b ∷ bs) zero = some b
nth (b ∷ bs) (suc i) = nth bs i

abbrev pub blob_of : Option Block → Result (List ℕ)
blob_of (some (blob b)) = ok b
blob_of _ = err cell_unavailable

abbrev pub document_of : Option Block → Result Manifest
document_of (some (document m)) = ok m
document_of _ = err cell_unavailable

-- The block that a CID names.
abbrev pub find : List Block → Text → Option Block
find r (i ∷ []) = nth r i
find r _ = none

abbrev pub is_blob : Option Block → Bool
is_blob (some (blob b)) = true
is_blob _ = false

abbrev pub all_blobs : List Block → List Entry → Bool
all_blobs r [] = true
all_blobs r (e ∷ es) = is_blob (find r e.blob) && all_blobs r es

abbrev pub whole_nucleus : List Block → Option Block → Bool
whole_nucleus r (some (document (nucleus es))) = all_blobs r es
whole_nucleus r _ = false

-- The block is there with all that it links.
abbrev pub whole_block : List Block → Option Block → Bool
whole_block r (some (document (cell n es))) = whole_nucleus r (find r n) && all_blobs r es
whole_block r (some (document (nucleus es))) = all_blobs r es
whole_block r (some (document other)) = true
whole_block r (some (blob b)) = true
whole_block r none = false

-- A repository that numbers its blocks.
abbrev pub numbered : Ipfs
numbered = record {
  Repo = List Block;
  add = λ b r. (length r ∷ [], r ++ blob b ∷ []);
  dag_put = λ m r. (length r ∷ [], r ++ document m ∷ []);
  dag_get = λ r c. document_of (find r c);
  get = λ r c. blob_of (find r c);
  have = λ r c. whole_block r (find r c);
  daemon_running = λ r. false;
  pin_remote = λ c r. err cell_unavailable;
}

nth-last : (r : List Block) (x : Block) → nth (r ++ x ∷ []) (length r) ≡ some x
nth-last [] x = refl
nth-last (b ∷ r) x = nth-last r x

nth-keeps :
    (r : List Block) (x : Block) (i : ℕ) → (nth r i ≡ none) ⊎ (nth (r ++ x ∷ []) i ≡ nth r i)
nth-keeps [] x i = inl refl
nth-keeps (b ∷ r) x zero = inr refl
nth-keeps (b ∷ r) x (suc i) = nth-keeps r x i

find-keeps :
    (r : List Block) (x : Block) (c : Text) → (find r c ≡ none) ⊎ (find (r ++ x ∷ []) c ≡ find r c)
find-keeps r x [] = inl refl
find-keeps r x (i ∷ []) = nth-keeps r x i
find-keeps r x (i ∷ j ∷ c) = inl refl

numbered-Keeps : (r : List Block) (x : Block) → Keeps numbered r (r ++ x ∷ [])
numbered-Keeps r x = record {
  blobs = λ c b h. elim (find-keeps r x c) [
    | inl n ↦ absurd (missing_blob (ap blob_of n) h)
    | inr e ↦ ap blob_of e ∙ h
  ];
  documents = λ c m h. elim (find-keeps r x c) [
    | inl n ↦ absurd (missing_document (ap document_of n) h)
    | inr e ↦ ap document_of e ∙ h
  ];
}
  where
    missing_blob : {o : Result (List ℕ)} {b : List ℕ} → o ≡ err cell_unavailable → o ≡ ok b → ⊥
    missing_blob p q = cc

    missing_document :
        {o : Result Manifest} {m : Manifest} → o ≡ err cell_unavailable → o ≡ ok m → ⊥
    missing_document p q = cc

blob_found : (o : Option Block) (b : List ℕ) → blob_of o ≡ ok b → is_blob o ≡ true
blob_found (some (blob c)) b h = refl
blob_found (some (document m)) b h = absurd (raised_returns h)
blob_found none b h = absurd (raised_returns h)

document_found : (o : Option Block) (m : Manifest) → document_of o ≡ ok m → o ≡ some (document m)
document_found (some (document k)) m h = ap (λ m. some (document m)) (ok_eq h)
document_found (some (blob b)) m h = absurd (raised_returns h)
document_found none m h = absurd (raised_returns h)

all_there : (r : List Block) (es : List Entry) → AllThere numbered r es → all_blobs r es ≡ true
all_there r [] h = refl
all_there r (e ∷ es) ((b, g), h) = rw (blob_found (find r e.blob) b g, all_there r es h) refl

numbered-have : (r : List Block) (c : Text) → IsWhole numbered r c → numbered.have r c ≡ true
numbered-have r c (n, ns, es, g, k, hs, h) =
    rw
      (
        document_found (find r c) (cell n es) g,
        document_found (find r n) (nucleus ns) k,
        all_there r ns hs,
        all_there r es h,
      )
      refl

pub numbered-Stores : Stores numbered
numbered-Stores = record {
  get_add = λ b r. ap blob_of (nth-last r (blob b));
  get_put = λ m r. ap document_of (nth-last r (document m));
  have_whole = numbered-have;
  keeps_add = λ b r. numbered-Keeps r (blob b);
  keeps_put = λ m r. numbered-Keeps r (document m);
}

-- The files of a cell with a lock file, a declaration that names `lib.py` twice, and pins.
abbrev pub present : List Text
present =
    codes "flake.nix"
    ∷ codes "flake.lock"
    ∷ codes "cell.py"
    ∷ codes "nucleus"
    ∷ codes "lib.py"
    ∷ codes "artifact"
    ∷ codes "a.wasm"
    ∷ codes "main.py"
    ∷ []

abbrev pub text_of : Text → Text
text_of name =
    if eq_text name (codes "nucleus")
    then codes "lib.py\n# pins\nartifact\n lib.py\ncell.py\n"
    else if eq_text name (codes "artifact")
    then codes "a.wasm  dsm:ipfs:Qa\n"
    else name

abbrev pub with_tree : Entries → CellDir
with_tree es = record {
  exists = λ n. among n present;
  read = λ n. ok (text_of n);
  read_text = text_of;
  relative = ok;
  tree = es;
}

abbrev pub small_cell : CellDir
small_cell = with_tree (
    entry (codes "main.py") file (
      entry (codes "flake.nix") file (
        entry (codes ".git") (directory (entry (codes "HEAD") file end))
          (entry (codes "result") link (entry (codes "a.wasm") file end)))))

abbrev pub fork : CellDir
fork = with_tree (entry (codes "sub") (directory (entry (codes "other.py") file end)) end)
