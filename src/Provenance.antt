-- ===== src/Provenance.antt =====
-- src/desmata/provenance.py: what a peer claims of builds and calls, and the ledger of its claims.
pub mod Wire
pub mod Claims
pub mod Ledger
pub mod Kept
pub mod Builds
pub mod StorePath
pub mod Records
pub mod Reordered
mod Examples
use desmata.Prelude.{ℕ, Option, none, some, List, [], ◌∷◌, ◌++◌}
use desmata.Prelude.Results.{Result}
use desmata.Prelude.Texts.{Text, codes}
use desmata.Wave.Value.{ℤ, pos}
use desmata.Wit.Values.{
  Json, Elements, Members, null, int, text, array, object, nil, cons, end, member,
}
use desmata.Dumps.{dumps}

-- Brushstroke. `arg_versions` is None, or pairs of an index and a version.
pub record Brushstroke : Type 0 where
  pub color : Text
  pub palette : Text
  pub args : List Text
  pub signer : Text
  pub created_at : ℤ
  pub suite : Text
  pub sig : Text
  pub arg_versions : Option (List (ℤ × ℤ))

abbrev pub reproducibility_palette : Text
reproducibility_palette = codes "5a4d754697968af6ea3c0d957a7c06bc9fbea2f202afd9ae457fdab90dc59dd2"

abbrev pub interface_palette : Text
interface_palette = codes "0ce32492f53c7b08d01283255c552fb1ff9555b37394473f4a459d84fa76d291"

abbrev pub sp_suite : Text
sp_suite = codes "v1-ed25519-sha256"

-- A claim that is minted, with the defaults of the other fields.
abbrev pub mint : Text → Text → List Text → ℤ → Brushstroke
mint color palette args now = record {
  color = color;
  palette = palette;
  args = args;
  signer = [];
  created_at = now;
  suite = [];
  sig = [];
  arg_versions = none;
}

-- What the standard library supplies: `str.encode` and `bytes.decode`, and `hashlib.sha256` with
-- `hexdigest`.
pub record Hashing : Type 0 where
  pub encode : Text → List ℕ
  pub decode : List ℕ → Result Text
  pub sha256 : List ℕ → Text

unfoldable pub texts : List Text → Elements
texts [] = nil
texts (t ∷ ts) = cons (text t) (texts ts)

-- self.arg_versions or ()
abbrev pub or_none : Option (List (ℤ × ℤ)) → List (ℤ × ℤ)
or_none none = []
or_none (some vs) = vs

-- [[i, v] for i, v in versions]
unfoldable pub pairs : List (ℤ × ℤ) → Elements
pairs [] = nil
pairs ((i, v) ∷ vs) = cons (array (cons (int i) (cons (int v) nil))) (pairs vs)

-- The list that `fact` prints.
unfoldable pub fact_value : Brushstroke → Json
unfolding texts
fact_value b = array (cons (text b.color) (cons (text b.palette) (cons (array (texts b.args)) nil)))

-- fact, before it is encoded
unfoldable pub fact : Brushstroke → Text
unfolding fact_value dumps
fact b = dumps (fact_value b)

-- The list that `canonical_bytes` prints.
unfoldable pub canonical_value : Brushstroke → Json
unfolding texts pairs
canonical_value b = array (
    cons (text b.color) (
      cons (text b.palette) (
        cons (array (texts b.args)) (
          cons (text b.signer) (
            cons (int b.created_at)
              (cons (text b.suite) (cons (array (pairs (or_none b.arg_versions))) nil)))))))

-- canonical_bytes, before it is encoded
unfoldable pub canonical : Brushstroke → Text
unfolding canonical_value dumps
canonical b = dumps (canonical_value b)

unfoldable pub content_id : Hashing → Brushstroke → Text
unfolding canonical
content_id H b = H.sha256 (H.encode (canonical b))

-- A stroke with a signer and a suite, and no signature.
abbrev pub stamped : Text → Text → Brushstroke → Brushstroke
stamped signer suite b = record b { signer = signer; suite = suite; sig = [] }

-- signed. `sign` gives the signature of some bytes in base64.
unfoldable pub signed : Hashing → Text → (List ℕ → Text) → Brushstroke → Brushstroke
unfolding canonical
signed H signer sign b = record (stamped signer sp_suite b) {
  sig = sign (H.encode (canonical (stamped signer sp_suite b)));
}
