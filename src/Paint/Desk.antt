-- ===== src/Paint/Desk.antt =====
-- The state that witnessing changes: the ledger of strokes and the outbox of blobs.
use desmata.Prelude.{ℕ, Option, none, some, List}
use desmata.Prelude.Results.{Result, ok, err, Error}
use desmata.Prelude.Texts.{Text}
use desmata.Wit.Values.{Members}
use desmata.Provenance.{Brushstroke, Hashing}
use desmata.Provenance.Ledger.{Dir, write, file_at, save_brushstrokes}

pub record Desk : Type 0 where
  pub ledger : Dir Members
  pub outbox : Dir (List ℕ)

-- A call that changes the desk. What was written stays written after an exception.
abbrev pub Action : Type 0 → Type 0
Action A = Desk → Result A × Desk

abbrev pub done : {A : Type 0} → A → Action A
done a s = (ok a, s)

abbrev pub raised : {A : Type 0} → Error → Action A
raised e s = (err e, s)

abbrev pub lift : {A : Type 0} → Result A → Action A
lift r s = (r, s)

abbrev pub run_next : {A B : Type 0} → (A → Action B) → Result A × Desk → Result B × Desk
run_next k (ok a, s) = k a s
run_next k (err e, s) = (err e, s)

infixl 5 ◌then_do◌
abbrev pub ◌then_do◌ : {A B : Type 0} → Action A → (A → Action B) → Action B
◌then_do◌ m k s = run_next k (m s)

module _ (H : Hashing) where
  -- What is done where the path exists, and where it does not.
  abbrev pub stash_at : Option (List ℕ) → List ℕ → Dir (List ℕ) → Dir (List ℕ)
  stash_at (some old) bytes box = box
  stash_at none bytes box = write (H.sha256 bytes) bytes box

  -- stash_blob, on the outbox
  unfoldable pub stash : List ℕ → Dir (List ℕ) → Dir (List ℕ)
  unfolding file_at write
  stash bytes box = stash_at (file_at (H.sha256 bytes) box) bytes box

  -- stash_blob
  unfoldable pub stash_blob : List ℕ → Action Text
  unfolding stash
  stash_blob bytes s = (ok (H.sha256 bytes), record s { outbox = stash bytes s.outbox })

  -- save_brushstrokes
  unfoldable pub keep : List Brushstroke → Action (Unit {0})
  unfolding save_brushstrokes
  keep bs s = (ok tt, record s { ledger = save_brushstrokes H bs s.ledger })
