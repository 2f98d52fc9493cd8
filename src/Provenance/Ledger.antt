-- ===== src/Provenance/Ledger.antt =====
-- The ledger of strokes: one file per claim, as `save_brushstrokes` writes and `load_brushstrokes`
-- reads it. A directory that does not exist has no files. A file holds the document that was printed
-- into it; its printing and parsing are those of `json`.
use desmata.Prelude.{Option, none, some, List, [], ◌∷◌, ◌++◌, if◌then◌else◌}
use desmata.Prelude.Results.{Result, ok, ◌>>=◌}
use desmata.Prelude.Texts.{Text, codes, eq_text}
use desmata.Wit.Values.{Members}
use desmata.Archive.Cell.{le_text}
use desmata.Provenance.{Brushstroke, Hashing, fact}
use desmata.Provenance.Wire.{to_dict, from_dict}

-- The files of a directory by their names.
abbrev pub Dir : Type 0 → Type 0
Dir V = List (Text × V)

module _ {V : Type 0} where
  -- path.write_text: a file that is there is overwritten.
  unfoldable pub write : Text → V → Dir V → Dir V
  unfolding eq_text
  write name v [] = (name, v) ∷ []
  write name v ((n, w) ∷ d) =
      let rest = write name v d in if eq_text n name then (n, v) ∷ d else (n, w) ∷ rest

  -- The file of a name.
  unfoldable pub file_at : Text → Dir V → Option V
  unfolding eq_text
  file_at name [] = none
  file_at name ((n, w) ∷ d) = let rest = file_at name d in if eq_text n name then some w else rest

  unfoldable pub insert_file : Text → V → Dir V → Dir V
  unfolding le_text
  insert_file n v [] = (n, v) ∷ []
  insert_file n v ((m, w) ∷ d) =
      if le_text n m then (n, v) ∷ (m, w) ∷ d else (m, w) ∷ insert_file n v d

  -- sorted(directory.iterdir()), and sorted(directory.glob("*.json")) where all names end so
  unfoldable pub sort_files : Dir V → Dir V
  unfolding insert_file
  sort_files [] = []
  sort_files ((n, v) ∷ d) = insert_file n v (sort_files d)

-- The name of a claim's file.
unfoldable pub file_name : Hashing → Brushstroke → Text
unfolding fact
file_name H b = H.sha256 (H.encode (fact b)) ++ codes ".json"

-- save_brushstrokes
unfoldable pub save_brushstrokes : Hashing → List Brushstroke → Dir Members → Dir Members
unfolding write file_name to_dict
save_brushstrokes H [] d = d
save_brushstrokes H (b ∷ bs) d = save_brushstrokes H bs (write (file_name H b) (to_dict b) d)

-- The documents, in the order of the files.
unfoldable pub parse_files : Dir Members → Result (List Brushstroke)
unfolding from_dict
parse_files [] = ok []
parse_files ((n, doc) ∷ d) = from_dict doc >>= λ b. parse_files d >>= λ bs. ok (b ∷ bs)

-- load_brushstrokes
unfoldable pub load_brushstrokes : Dir Members → Result (List Brushstroke)
unfolding sort_files parse_files
load_brushstrokes d = parse_files (sort_files d)
