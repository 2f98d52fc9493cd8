-- ===== src/Provenance/Reordered.antt =====
-- That the ledger does not depend on the order in which the system lists its directory.
use desmata.Prelude.{true, false, [], ◌∷◌, ◌≡◌, refl, ap, ◌∙◌, arith}
use desmata.Prelude.Texts.{Text, eq_text}
use desmata.Wit.Values.{Members}
use desmata.Archive.Cell.{le_text}
use desmata.Archive.Files.{le_text_total}
use desmata.Provenance.Ledger.{Dir, insert_file, sort_files, parse_files, load_brushstrokes}

le_text_antisym : (s t : Text) → le_text s t ≡ true → le_text t s ≡ true → eq_text s t ≡ true
unfolding le_text eq_text
le_text_antisym [] [] h k = refl
le_text_antisym [] (d ∷ t) h k = cc
le_text_antisym (c ∷ s) [] h k = cc
le_text_antisym (c ∷ s) (d ∷ t) h k = ground (arith, le_text_antisym s t)

le_text_trans : (s t u : Text) → le_text s t ≡ true → le_text t u ≡ true → le_text s u ≡ true
unfolding le_text
le_text_trans [] t u h k = refl
le_text_trans (c ∷ s) [] u h k = cc
le_text_trans (c ∷ s) (d ∷ t) [] h k = cc
le_text_trans (c ∷ s) (d ∷ t) (e ∷ u) h k = ground (arith, le_text_trans s t u)

-- The same files, in any order.
pub data Reordered {V : Type 0} : Dir V → Dir V → Type 0 where
  same : (d : Dir V) → Reordered d d
  behind : (n : Text) (v : V) {c d : Dir V} → Reordered c d → Reordered ((n, v) ∷ c) ((n, v) ∷ d)
  swapped :
      (n m : Text) (v w : V) (d : Dir V)
      → eq_text n m ≡ false
      → Reordered ((n, v) ∷ (m, w) ∷ d) ((m, w) ∷ (n, v) ∷ d)
  further : {b c d : Dir V} → Reordered b c → Reordered c d → Reordered b d

module _ {V : Type 0} where
  insert_file_comm :
      (n m : Text) (v w : V) (d : Dir V)
      → eq_text n m ≡ false
      → insert_file n v (insert_file m w d) ≡ insert_file m w (insert_file n v d)
  unfolding insert_file
  insert_file_comm n m v w [] h = ground (arith, le_text_total n m, le_text_antisym n m)
  insert_file_comm n m v w ((k, x) ∷ d) h = ground (
    arith,
    le_text_total n m,
    le_text_antisym n m,
    le_text_total n k,
    le_text_total m k,
    le_text_trans n m k,
    le_text_trans m n k,
    insert_file_comm n m v w d h,
  )

  sort_files-Reordered : {c d : Dir V} → Reordered c d → sort_files c ≡ sort_files d
  unfolding sort_files
  sort_files-Reordered (same d) = refl
  sort_files-Reordered (behind n v r) = ap (insert_file n v) (sort_files-Reordered r)
  sort_files-Reordered (swapped n m v w d h) = insert_file_comm n m v w (sort_files d) h
  sort_files-Reordered (further r s) = sort_files-Reordered r ∙ sort_files-Reordered s

-- Two listings of the same files, in whatever order, load as the same strokes in the same order, or
-- fail alike.
pub load_brushstrokes-Reordered :
    (c d : Dir Members) → Reordered c d → load_brushstrokes c ≡ load_brushstrokes d
unfolding load_brushstrokes
load_brushstrokes-Reordered c d r = ap parse_files (sort_files-Reordered r)
