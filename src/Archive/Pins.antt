-- ===== src/Archive/Pins.antt =====
-- The artifact pins of a cell, and their check: `artifact_pins` and `verify_artifacts` of
-- src/desmata/cell_archive.py.
use desmata.Prelude.{
  Bool, true, ◌&&◌, ◌≡◌, ◌↔◌, refl, ap, subst, ◌∙◌, List, [], ◌∷◌, if◌then◌else◌, arith,
}
use desmata.Prelude.Results.{Result, ok, err, ◌>>=◌, invalid_cell, artifact_pin_mismatch, >>=-eq-ok}
use desmata.Prelude.Texts.{Text, codes, eq_text, eq_text→eq, eq_text_refl}
use desmata.Content.{Backend, ipfs, Hash, backend_name, parse}
use desmata.Archive.Lines.{splitlines, strip, split}
use desmata.Archive.Cell.{CellDir, skipped}

-- A dict of pins, in the order of insertion.
abbrev pub Pins : Type 0
Pins = List (Text × Hash)

-- pins[name] = pin: a name that is there keeps its place.
unfoldable pub set_pin : Text → Hash → Pins → Pins
unfolding eq_text
set_pin name pin [] = (name, pin) ∷ []
set_pin name pin ((n, h) ∷ ps) =
    if eq_text n name then (n, pin) ∷ ps else (n, h) ∷ set_pin name pin ps

-- `name, pin = entry.split()` and the parse of the pin.
unfoldable pub pin_of : List Text → Result (Text × Hash)
unfolding parse
pin_of (name ∷ pin ∷ []) = parse pin >>= λ h. ok (name, h)
pin_of [] = err invalid_cell
pin_of (name ∷ []) = err invalid_cell
pin_of (name ∷ pin ∷ more ∷ words) = err invalid_cell

-- The loop over the lines.
unfoldable pub read_pins : List Text → Pins → Result Pins
unfolding strip split pin_of set_pin
read_pins [] pins = ok pins
read_pins (line ∷ ls) pins =
    let skip = read_pins ls pins in
    let take = pin_of (split (strip line)) >>= λ (name, h). read_pins ls (set_pin name h pins) in
    if skipped (strip line) then skip else take

abbrev pub artifact_manifest : Text
artifact_manifest = codes "artifact"

unfoldable pub artifact_pins : CellDir → Result Pins
unfolding splitlines read_pins
artifact_pins d =
    if d.exists artifact_manifest
    then read_pins (splitlines (d.read_text artifact_manifest)) []
    else ok []

-- The equality of the frozen dataclass.
unfoldable pub eq_hash : Hash → Hash → Bool
unfolding eq_text
eq_hash h k = eq_text (backend_name h.backend) (backend_name k.backend) && eq_text h.digest k.digest

abbrev pub unless_problems : List Text → Pins → Result Pins
unless_problems [] pins = ok pins
unless_problems (n ∷ ns) pins = err artifact_pin_mismatch

-- `hash_path` of the content backend, at the file of a name.
module _ (hash_path : Text → Hash) (d : CellDir) where
  -- The names that a problem is reported for.
  unfoldable pub problems : Pins → List Text
  unfolding eq_hash
  problems [] = []
  problems ((name, pin) ∷ ps) =
      let rest = problems ps in
      if d.exists name
      then if eq_hash (hash_path name) pin then rest else name ∷ rest
      else name ∷ rest

  unfoldable pub verify_artifacts : Result Pins
  unfolding artifact_pins problems
  verify_artifacts = artifact_pins d >>= λ pins. unless_problems (problems pins) pins

  -- Every pinned file exists and has the pinned hash.
  abbrev pub Hold : Pins → Type 0
  Hold [] = Unit
  Hold ((name, pin) ∷ ps) = (d.exists name ≡ true) × (hash_path name ≡ pin) × Hold ps

pub eq_hash→eq : (h k : Hash) → eq_hash h k ≡ true → h ≡ k
unfolding eq_hash
eq_hash→eq h k e = same h.backend k.backend (eq_text→eq h.digest k.digest (ground arith))
  where
    the_backend : (a b : Backend) → a ≡ b
    the_backend ipfs ipfs = refl

    same : (a b : Backend) → h.digest ≡ k.digest → h ≡ k
    same a b p = λ i. record { backend = the_backend h.backend k.backend i; digest = p i }

pub eq_hash_refl : (h : Hash) → eq_hash h h ≡ true
unfolding eq_hash
eq_hash_refl h = rw (eq_text_refl (backend_name h.backend), eq_text_refl h.digest) refl

module _ (hash_path : Text → Hash) (d : CellDir) where
  problems-empty→Hold : (pins : Pins) → problems hash_path d pins ≡ [] → Hold hash_path d pins
  unfolding problems
  problems-empty→Hold [] e = tt
  problems-empty→Hold ((name, pin) ∷ ps) e = (
    ground arith,
    eq_hash→eq (hash_path name) pin (ground arith),
    problems-empty→Hold ps (ground arith),
  )

  Hold→problems-empty : (pins : Pins) → Hold hash_path d pins → problems hash_path d pins ≡ []
  unfolding problems
  Hold→problems-empty [] h = refl
  Hold→problems-empty ((name, pin) ∷ ps) (x, e, h) =
      rw (x, e, eq_hash_refl pin, Hold→problems-empty ps h) refl

  judged :
      (ps pins : Pins)
      → unless_problems (problems hash_path d ps) ps ≡ ok pins
      → (ps ≡ pins) × (problems hash_path d ps ≡ [])
  judged ps pins e = of_problems (problems hash_path d ps) e
    where
      of_problems : (ns : List Text) → unless_problems ns ps ≡ ok pins → (ps ≡ pins) × (ns ≡ [])
      of_problems [] e = (cc, refl)
      of_problems (n ∷ ns) e = cc

  verified :
      (pins : Pins)
      → verify_artifacts hash_path d ≡ ok pins
      → (artifact_pins d ≡ ok pins) × Hold hash_path d pins
  unfolding verify_artifacts
  verified pins e =
      let (ps, q, u) =
        >>=-eq-ok (artifact_pins d) (λ ps. unless_problems (problems hash_path d ps) ps) e in
      let (same, none_left) = judged ps pins u in
      (q ∙ ap ok same, subst (Hold hash_path d) same (problems-empty→Hold ps none_left))

  accepted :
      (pins : Pins)
      → artifact_pins d ≡ ok pins
      → Hold hash_path d pins
      → verify_artifacts hash_path d ≡ ok pins
  unfolding verify_artifacts
  accepted pins q h =
      ap (λ o. o >>= λ ps. unless_problems (problems hash_path d ps) ps) q
      ∙ ap (λ ns. unless_problems ns pins) (Hold→problems-empty pins h)

  -- `verify_artifacts` returns exactly the pins of the manifest, and it returns them if and only if
  -- the manifest is read and every pinned file exists and has the pinned hash.
  pub verify_artifacts-eq-ok_iff :
      (pins : Pins)
      → (verify_artifacts hash_path d ≡ ok pins)
        ↔ ((artifact_pins d ≡ ok pins) × Hold hash_path d pins)
  verify_artifacts-eq-ok_iff pins = (verified pins, λ (q, h). accepted pins q h)
