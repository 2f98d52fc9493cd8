-- ===== src/Provenance/Kept.antt =====
-- What the ledger keeps.
use desmata.Prelude.{
  ℕ, suc, ◌≤◌, false, Option, some, List, [], ◌∷◌, ◌++◌, ◌≡◌, refl, ap, ◌∙◌, if◌then◌else◌, arith,
  Bool-cases, inl, inr,
}
use desmata.Prelude.Results.{ok}
use desmata.Prelude.Texts.{
  Text, codes, eq_text, eq_text→eq, eq_text_refl, eq_text_left, eq_text_right, eq_text_trans,
}
use desmata.Wit.Values.{Members}
use desmata.Archive.Cell.{le_text}
use desmata.Provenance.{Brushstroke, Hashing}
use desmata.Provenance.Wire.{to_dict, from_dict-to_dict}
use desmata.Provenance.Claims.{claim, claim-fact}
use desmata.Provenance.Ledger.{
  Dir, write, file_at, insert_file, sort_files, file_name, save_brushstrokes, parse_files,
  load_brushstrokes,
}

-- How many files have a name.
unfoldable pub copies : {V : Type 0} → Text → Dir V → ℕ
unfolding eq_text
copies name [] = 0
copies name ((n, v) ∷ d) = let rest = copies name d in if eq_text n name then suc rest else rest

module _ {V : Type 0} where
  pub file_at-write :
      (k n : Text) (v : V) (d : Dir V)
      → file_at k (write n v d) ≡ (if eq_text n k then some v else file_at k d)
  unfolding file_at write
  file_at-write k n v [] = refl
  file_at-write k n v ((m, w) ∷ d) =
      ground
        (arith, file_at-write k n v d, eq_text_left m n k, eq_text_right m n k, eq_text_trans m n k)

  copies-write_ne :
      (k n : Text) (v : V) (d : Dir V) → eq_text n k ≡ false → copies k (write n v d) ≡ copies k d
  unfolding copies write
  copies-write_ne k n v [] h = ground arith
  copies-write_ne k n v ((m, w) ∷ d) h = ground (arith, copies-write_ne k n v d)

  copies-write : (k n : Text) (v : V) (d : Dir V) → copies k d ≤ 1 → copies k (write n v d) ≤ 1
  unfolding copies write
  copies-write k n v [] h = ground arith
  copies-write k n v ((m, w) ∷ d) h =
      ground (arith, copies-write k n v d, copies-write_ne k n v d, eq_text_right m n k)

  copies-insert_file :
      (k n : Text) (v : V) (d : Dir V)
      → copies k (insert_file n v d) ≡ (if eq_text n k then suc (copies k d) else copies k d)
  unfolding copies insert_file
  copies-insert_file k n v [] = ground arith
  copies-insert_file k n v ((m, w) ∷ d) = ground (arith, copies-insert_file k n v d)

  copies-sort_files : (k : Text) (d : Dir V) → copies k (sort_files d) ≡ copies k d
  unfolding copies sort_files
  copies-sort_files k [] = refl
  copies-sort_files k ((n, v) ∷ d) =
      ground (arith, copies-insert_file k n v (sort_files d), copies-sort_files k d)

  file_at-insert_file :
      (k n : Text) (v : V) (d : Dir V)
      → copies n d ≡ 0
      → file_at k (insert_file n v d) ≡ (if eq_text n k then some v else file_at k d)
  unfolding file_at insert_file copies
  file_at-insert_file k n v [] h = refl
  file_at-insert_file k n v ((m, w) ∷ d) h =
      ground (arith, file_at-insert_file k n v d, eq_text_right m n k)

  -- No name stands twice.
  abbrev pub IsDistinct : Dir V → Type 0
  IsDistinct d = (k : Text) → copies k d ≤ 1

  pub write-IsDistinct : (n : Text) (v : V) (d : Dir V) → IsDistinct d → IsDistinct (write n v d)
  write-IsDistinct n v d h k = copies-write k n v d (h k)

  pub rest-IsDistinct : (n : Text) (v : V) (d : Dir V) → IsDistinct ((n, v) ∷ d) → IsDistinct d
  unfolding copies
  rest-IsDistinct n v d h k = ground (arith, h k)

  pub first_only : (n : Text) (v : V) (d : Dir V) → IsDistinct ((n, v) ∷ d) → copies n d ≡ 0
  unfolding copies
  first_only n v d h = ground (arith, h n, eq_text_refl n)

  file_at-sort_files :
      (k : Text) (d : Dir V) → IsDistinct d → file_at k (sort_files d) ≡ file_at k d
  unfolding file_at sort_files
  file_at-sort_files k [] h = refl
  file_at-sort_files k ((n, v) ∷ d) h =
      file_at-insert_file k n v (sort_files d) (copies-sort_files n d ∙ first_only n v d h)
      ∙ rw (file_at-sort_files k d (rest-IsDistinct n v d h)) refl

-- The files of some strokes.
abbrev pub files_of : Hashing → List Brushstroke → Dir Members
files_of H [] = []
files_of H (b ∷ bs) = (file_name H b, to_dict b) ∷ files_of H bs

-- Each file holds a stroke, under the name of its claim.
abbrev pub IsLedger : Hashing → Dir Members → Type 0
IsLedger H [] = Unit
IsLedger H ((n, doc) ∷ d) =
    ((b : Brushstroke) × (n ≡ file_name H b) × (doc ≡ to_dict b)) × IsLedger H d

module _ (H : Hashing) where
  write-IsLedger :
      (b : Brushstroke) (d : Dir Members)
      → IsLedger H d
      → IsLedger H (write (file_name H b) (to_dict b) d)
  unfolding write
  write-IsLedger b [] h = ((b, refl, refl), tt)
  write-IsLedger b ((m, doc) ∷ d) (x, h) = elim (Bool-cases (eq_text m (file_name H b))) [
    | inl e ↦ rw e ((b, eq_text→eq m (file_name H b) e, refl), h)
    | inr e ↦ rw e (x, write-IsLedger b d h)
  ]

  insert_file-IsLedger :
      (n : Text) (doc : Members) (d : Dir Members)
      → IsLedger H ((n, doc) ∷ d)
      → IsLedger H (insert_file n doc d)
  unfolding insert_file
  insert_file-IsLedger n doc [] h = h
  insert_file-IsLedger n doc ((m, w) ∷ d) (x, (y, h)) = elim (Bool-cases (le_text n m)) [
    | inl e ↦ rw e (x, (y, h))
    | inr e ↦ rw e (y, insert_file-IsLedger n doc d (x, h))
  ]

  sort_files-IsLedger : (d : Dir Members) → IsLedger H d → IsLedger H (sort_files d)
  unfolding sort_files
  sort_files-IsLedger [] h = tt
  sort_files-IsLedger ((n, doc) ∷ d) (x, h) =
      insert_file-IsLedger n doc (sort_files d) (x, sort_files-IsLedger d h)

  -- Saving keeps a ledger a ledger.
  pub save_brushstrokes-IsLedger :
      (bs : List Brushstroke) (d : Dir Members)
      → IsLedger H d
      → IsLedger H (save_brushstrokes H bs d)
  unfolding save_brushstrokes
  save_brushstrokes-IsLedger [] d h = h
  save_brushstrokes-IsLedger (b ∷ bs) d h = save_brushstrokes-IsLedger bs _ (write-IsLedger b d h)

  parse_files-files_of :
      (d : Dir Members)
      → IsLedger H d
      → (bs : List Brushstroke) × (parse_files d ≡ ok bs) × (files_of H bs ≡ d)
  unfolding parse_files
  parse_files-files_of [] h = ([], refl, refl)
  parse_files-files_of ((n, doc) ∷ d) ((b, en, ed), h) =
      let (bs, p, q) = parse_files-files_of d h in
      (b ∷ bs, rw (ed, from_dict-to_dict b, p) refl, rw (q, en, ed) refl)

  -- Saving keeps the names distinct.
  pub save_brushstrokes-IsDistinct :
      (bs : List Brushstroke) (d : Dir Members)
      → IsDistinct d
      → IsDistinct (save_brushstrokes H bs d)
  unfolding save_brushstrokes
  save_brushstrokes-IsDistinct [] d h = h
  save_brushstrokes-IsDistinct (b ∷ bs) d h =
      save_brushstrokes-IsDistinct bs _ (write-IsDistinct (file_name H b) (to_dict b) d h)

  -- The last of some strokes whose claim has a file's name, or what was there before.
  abbrev pub latest : List Brushstroke → Text → Option Members → Option Members
  latest [] k before = before
  latest (b ∷ bs) k before =
      latest bs k (if eq_text (file_name H b) k then some (to_dict b) else before)

  file_at-save_brushstrokes :
      (k : Text) (bs : List Brushstroke) (d : Dir Members)
      → file_at k (save_brushstrokes H bs d) ≡ latest bs k (file_at k d)
  unfolding save_brushstrokes
  file_at-save_brushstrokes k [] d = refl
  file_at-save_brushstrokes k (b ∷ bs) d =
      file_at-save_brushstrokes k bs _
      ∙ ap (latest bs k) (file_at-write k (file_name H b) (to_dict b) d)

  -- On a ledger whose names are distinct, what is saved and then loaded are strokes, one for each
  -- file's name at most: for a name, the last of the saved strokes whose claim has that name, and
  -- where there is none, the one that the ledger held.
  pub load-save_brushstrokes :
      (bs : List Brushstroke) (d : Dir Members)
      → IsLedger H d
      → IsDistinct d
      → (loaded : List Brushstroke) × (load_brushstrokes (save_brushstrokes H bs d) ≡ ok loaded)
        × ((k : Text) → file_at k (files_of H loaded) ≡ latest bs k (file_at k d))
        × ((k : Text) → copies k (files_of H loaded) ≤ 1)
  unfolding load_brushstrokes
  load-save_brushstrokes bs d h once =
      let saved = save_brushstrokes H bs d in
      let distinct = save_brushstrokes-IsDistinct bs d once in
      let (loaded, p, q) =
        parse_files-files_of (sort_files saved)
          (sort_files-IsLedger saved (save_brushstrokes-IsLedger bs d h)) in
      (
        loaded,
        p,
        λ k.
            ap (file_at k) q
            ∙ file_at-sort_files k saved distinct
            ∙ file_at-save_brushstrokes k bs d,
        λ k. rw (q, copies-sort_files k saved) (distinct k),
      )

  -- Two strokes with one claim share a file.
  pub claim-file_name : (b c : Brushstroke) → claim b ≡ claim c → file_name H b ≡ file_name H c
  unfolding file_name
  claim-file_name b c h = ap (λ t. H.sha256 (H.encode t) ++ codes ".json") (claim-fact b c h)
