-- ===== src/Content/RoundTrip.antt =====
-- The text form of a content address against its parser.
use mathlib.Core.List.{cons-ne-nil}
use desmata.Prelude.{ℕ, false, ◌≡◌, ◌≢◌, ◌↔◌, refl, [], ◌∷◌, ◌++◌, arith}
use desmata.Prelude.Results.{ok}
use desmata.Prelude.Texts.{Text, codes, eq_text→eq}
use desmata.Content.{
  Backend, ipfs, Hash, show_hash, dirname, from_parts, partition, parse, backend_of, backend_name,
  known_backend, scheme, is_empty,
}

-- A separator that was found stands between the two parts.
partition-append :
    (sep : ℕ) (s : Text)
    → is_empty (partition sep s).1 ≡ false
    → s ≡ (partition sep s).0 ++ sep ∷ (partition sep s).1
unfolding partition
partition-append sep [] h = cc
partition-append sep (c ∷ s) h = ground (arith, partition-append sep s)

backend_of-name :
    (name : Text) (b : Backend) → known_backend (backend_of name) ≡ ok b → name ≡ backend_name b
unfolding backend_of known_backend
backend_of-name name ipfs h = ground (arith, eq_text→eq name (codes "ipfs"))

from_parts_sound :
    (first name digest : Text) (h : Hash)
    → from_parts first name digest ≡ ok h
    → (first ≡ scheme)
      × (name ≡ backend_name h.backend)
      × (digest ≡ h.digest)
      × (is_empty digest ≡ false)
unfolding from_parts
from_parts_sound first name digest h e =
    ground (arith, eq_text→eq first scheme, eq_text→eq name (codes "ipfs"))

ne-nil→not_empty : (t : Text) → t ≢ [] → is_empty t ≡ false
ne-nil→not_empty [] h = absurd (h refl)
ne-nil→not_empty (c ∷ t) h = refl

not_empty→ne-nil : (t : Text) → is_empty t ≡ false → t ≢ []
not_empty→ne-nil [] h = cc
not_empty→ne-nil (c ∷ t) h = cons-ne-nil c t

-- The parser reads every printed address back, if its digest is not empty.
parse-show_hash :
    (b : Backend) (d : Text)
    → is_empty d ≡ false
    → parse (show_hash (record { backend = b; digest = d }))
      ≡ ok (record { backend = b; digest = d })
unfolding parse show_hash
parse-show_hash ipfs d h = rw h

glue :
    (h : Hash) (t p₀ p₁ q₀ q₁ : Text)
    → t ≡ p₀ ++ b':' ∷ p₁
    → p₁ ≡ q₀ ++ b':' ∷ q₁
    → p₀ ≡ scheme
    → q₀ ≡ backend_name h.backend
    → q₁ ≡ h.digest
    → t ≡ show_hash h
unfolding show_hash
glue h t p₀ p₁ q₀ q₁ et ep e₀ e₁ e₂ = cc

head_of_append : (p q : Text) (c : ℕ) {t : Text} → t ≡ p ++ c ∷ q → is_empty t ≡ false
head_of_append [] q c e = rw e
head_of_append (d ∷ p) q c e = rw e

parse_sound :
    (t : Text) (h : Hash) → parse t ≡ ok h → (t ≡ show_hash h) × (is_empty h.digest ≡ false)
unfolding parse
parse_sound t h e =
    let (ef, en, ed, full) = from_parts_sound _ _ _ h e in
    let second = partition-append b':' (partition b':' t).1 full in
    let first = partition-append b':' t (head_of_append _ _ b':' second) in
    (glue h t _ _ _ _ first second ef en ed, rw (← ed) full)

-- The parser accepts exactly the printed forms of the addresses whose digest is not empty, and
-- returns the address that was printed.
pub parse-eq-ok_iff :
    (t : Text) (h : Hash) → (parse t ≡ ok h) ↔ ((t ≡ show_hash h) × (is_empty h.digest ≡ false))
parse-eq-ok_iff t h = (parse_sound t h, λ (e, full). rw e (parse-show_hash h.backend h.digest full))

dirname_parts :
    (b : Backend) (d d' : Text) (b' : Backend)
    → dirname (record { backend = b; digest = d }) ≡ dirname (record { backend = b'; digest = d' })
    → d ≡ d'
unfolding dirname
dirname_parts ipfs d d' ipfs e = cc

-- The directory name determines the address: two addresses never share a content directory.
pub dirname-injective : (h k : Hash) → dirname h ≡ dirname k → h ≡ k
dirname-injective h k e =
    same h.backend k.backend (dirname_parts h.backend h.digest k.digest k.backend e)
  where
    one : (a b : Backend) → a ≡ b
    one ipfs ipfs = refl

    same : (a b : Backend) → h.digest ≡ k.digest → h ≡ k
    same a b p = λ i. record { backend = one h.backend k.backend i; digest = p i }
