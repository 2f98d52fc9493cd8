-- ===== src/Content.antt =====
-- src/desmata/content.py: self-describing content addresses, their text form and their parser.
mod Examples
pub mod RoundTrip
pub mod Registry
use desmata.Prelude.{
  ◌≡◌, refl, ℕ, Bool, true, false, ◌||◌, not, List, [], ◌∷◌, ◌++◌, ◌==◌, if◌then◌else◌,
}
use desmata.Prelude.Results.{Result, ok, err, ◌>>=◌, value_error, unknown_backend}
use desmata.Prelude.Texts.{Text, codes, eq_text}

abbrev pub scheme : Text
scheme = codes "dsm"

pub data Backend : Type 0 where
  ipfs : Backend

-- The enum's values, `str(backend)`.
abbrev pub backend_name : Backend → Text
backend_name ipfs = codes "ipfs"

-- Backend(name)
unfoldable pub backend_of : Text → Result Backend
unfolding eq_text
backend_of name = if eq_text name (codes "ipfs") then ok ipfs else err value_error

pub record Hash : Type 0 where
  pub backend : Backend
  pub digest : Text

-- Hash.__str__
unfoldable pub show_hash : Hash → Text
show_hash h = scheme ++ (b':' ∷ (backend_name h.backend ++ (b':' ∷ h.digest)))

-- Hash.dirname
unfoldable pub dirname : Hash → Text
dirname h = backend_name h.backend ++ (b'-' ∷ h.digest)

-- s.partition(c)[0] and s.partition(c)[2], for a separator of one character.
unfoldable pub partition : ℕ → Text → Text × Text
partition sep [] = ([], [])
partition sep (c ∷ s) =
    let rest = partition sep s in if c == sep then ([], s) else (c ∷ rest.0, rest.1)

abbrev pub is_empty : Text → Bool
is_empty [] = true
is_empty (c ∷ s) = false

-- The `try` around `Backend(backend_name)`.
unfoldable pub known_backend : Result Backend → Result Backend
known_backend (ok b) = ok b
known_backend (err e) = err unknown_backend

-- The checks of `Hash.parse` on the three parts of the text.
unfoldable pub from_parts : Text → Text → Text → Result Hash
unfolding eq_text known_backend backend_of
from_parts first name digest =
    if not (eq_text first scheme) || (is_empty name || is_empty digest)
    then err value_error
    else known_backend (backend_of name) >>= λ b. ok (record { backend = b; digest = digest })

-- Hash.parse
unfoldable pub parse : Text → Result Hash
unfolding partition from_parts
parse text =
    let (first, rest) = partition b':' text in
    let (name, digest) = partition b':' rest in from_parts first name digest

parse_ipfs : parse (codes "dsm:ipfs:Qm:1") ≡ ok (record { backend = ipfs; digest = codes "Qm:1" })
unfolding parse
parse_ipfs = refl
