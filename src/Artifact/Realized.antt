-- ===== src/Artifact/Realized.antt =====
-- A realized component and its file.
use desmata.Prelude.{
  ℕ, true, Option, none, some, List, [], ◌≡◌, refl, sym, ap, subst, ◌∙◌, Bool-cases, inl, inr,
}
use desmata.Prelude.Results.{Result, ok, err, Error}
use desmata.Prelude.Texts.{Text}
use desmata.Content.{Hash}
use desmata.Archive.Pins.{Pins, eq_hash, eq_hash→eq, eq_hash_refl}
use desmata.Artifact.{
  File, Foundry, Component, pin_at, pin_true, witness, install, realize, build_from, build_or_get,
}

module _ (F : Foundry) where
  -- What is asked of a run's outcome: with a component, its pin and the bytes that are left.
  abbrev Good : Hash → Result Component × File → Type 0
  Good pin (err e, blob) = Unit
  Good pin (ok c, none) = ⊥
  Good pin (ok c, some b) = (c.pin ≡ pin) × (F.hash b ≡ pin)

  witness-Good :
      (pin : Hash) (b : List ℕ) (n : Result Text)
      → F.hash b ≡ pin
      → Good pin (witness F pin n, some b)
  unfolding witness
  witness-Good pin b (ok n) h = (refl, h)
  witness-Good pin b (err e) h = tt

  install-Good : (pin : Hash) (blob : File) (o : Result (List ℕ)) → Good pin (install F pin blob o)
  unfolding install
  install-Good pin blob (err e) = tt
  install-Good pin blob (ok b) = elim (Bool-cases (eq_hash (F.hash b) pin)) [
    | inl e ↦ rw e (witness-Good pin b (F.nucleus (some b)) (eq_hash→eq (F.hash b) pin e))
    | inr e ↦ rw e tt
  ]

  kept-Good :
      (pin : Hash) (blob : File)
      → pin_true F pin blob ≡ true
      → Good pin (ok (record { pin = pin; witnessed = [] }), blob)
  unfolding pin_true
  kept-Good pin none e = cc
  kept-Good pin (some b) e = (refl, eq_hash→eq (F.hash b) pin e)

  realize-Good : (pin : Hash) (blob : File) → Good pin (realize F pin blob)
  unfolding realize
  realize-Good pin blob = elim (Bool-cases (pin_true F pin blob)) [
    | inl e ↦ rw e (kept-Good pin blob e)
    | inr e ↦ rw e (elim (Bool-cases F.has_nix) [
      | inl n ↦ rw n (install-Good pin blob F.build)
      | inr n ↦ rw n tt
    ])
  ]

  Good-parts :
      (pin : Hash) (c : Component) (left : File)
      → Good pin (ok c, left)
      → (b : List ℕ) × (left ≡ some b) × (c.pin ≡ pin) × (F.hash b ≡ pin)
  Good-parts pin c none g = absurd g
  Good-parts pin c (some b) (p, h) = (b, refl, p, h)

  from_pin :
      (o : Option Hash) (blob left : File) (c : Component)
      → build_from F o blob ≡ (ok c, left)
      → (b : List ℕ) × (left ≡ some b) × (o ≡ some c.pin) × (F.hash b ≡ c.pin)
  unfolding build_from
  from_pin none blob left c e = absurd (failed e)
    where
      failed :
          {e : Error} {l : File} → ◌≡◌ {A = Result Component × File} (err e, l) (ok c, left) → ⊥
      failed p = cc
  from_pin (some pin) blob left c e =
      let (b, l, p, h) = Good-parts pin c left (subst (Good pin) e (realize-Good pin blob)) in
      (b, l, ap some (sym p), h ∙ sym p)

  -- A component that `build_or_get` returns is the one that the cell pins at the path, and the file
  -- that the run leaves there exists and has the pinned hash, whether it was found or rebuilt.
  pub build_or_get-pinned :
      (pins : Pins) (path : Text) (blob left : File) (c : Component)
      → build_or_get F (ok pins) path blob ≡ (ok c, left)
      → (b : List ℕ) × (left ≡ some b) × (pin_at pins path ≡ some c.pin) × (F.hash b ≡ c.pin)
  unfolding build_or_get
  build_or_get-pinned pins path blob left c e = from_pin (pin_at pins path) blob left c e

again :
    (G : Foundry) (o : Option Hash) (c : Component) (left : File) (b : List ℕ)
    → left ≡ some b
    → o ≡ some c.pin
    → G.hash b ≡ c.pin
    → build_from G o left ≡ (ok (record { pin = c.pin; witnessed = [] }), left)
unfolding build_from realize pin_true
again G o c left b l p h = rw (l, p, h, eq_hash_refl c.pin) refl

-- A second run on what a successful run left returns the same component from the file, witnesses
-- nothing and changes nothing, whatever the second run's `nix`, its recipe and its nucleus are: the
-- two runs share the hash function alone.
pub build_or_get-again :
    (F G : Foundry) (pins : Pins) (path : Text) (blob left : File) (c : Component)
    → ((b : List ℕ) → G.hash b ≡ F.hash b)
    → build_or_get F (ok pins) path blob ≡ (ok c, left)
    → build_or_get G (ok pins) path left ≡ (ok (record { pin = c.pin; witnessed = [] }), left)
unfolding build_or_get
build_or_get-again F G pins path blob left c same e =
    let (b, l, p, h) = build_or_get-pinned F pins path blob left c e in
    again G (pin_at pins path) c left b l p (same b ∙ h)
