-- ===== src/Provenance/Examples.antt =====
-- Runs of the ledger of src/desmata/provenance.py, and the theorems on it at sample strokes.
use desmata.Prelude.{none, ◌≤◌, List, [], ◌∷◌, some, ◌≡◌, ◌↔◌, refl, arith}
use desmata.Prelude.Results.{ok}
use desmata.Prelude.Texts.{Text, codes}
use desmata.Wave.Value.{pos}
use desmata.Wit.Values.{Members}
use desmata.Provenance.{Brushstroke, Hashing, mint, reproducibility_palette, fact}
use desmata.Provenance.Wire.{to_dict}
use desmata.Provenance.Claims.{claim, fact-eq_iff}
use desmata.Provenance.Ledger.{Dir, file_at, save_brushstrokes, load_brushstrokes}
use desmata.Prelude.Texts.{has}
use desmata.Provenance.Builds.{NarInfo, nar_to_dict, record_name, save_records, load_records}
use desmata.Prelude.Texts.{eq_text}
use desmata.Provenance.Reordered.{swapped, load_brushstrokes-Reordered}
use desmata.Provenance.StorePath.{IsStorePath}
use desmata.Provenance.Records.{latest_record, load_records-save_records}
use desmata.Provenance.Kept.{copies, files_of, latest, load-save_brushstrokes}

-- UTF-8 on ASCII texts, and a hash that is a text itself.
abbrev as_is : Hashing
as_is = record { encode = λ t. t; decode = λ bs. ok bs; sha256 = λ bs. bs }

abbrev early : Brushstroke
early = mint (codes "builds_to") reproducibility_palette (codes "r" ∷ codes "a\"" ∷ []) (pos 5)

-- The same claim, later and under versions.
abbrev late : Brushstroke
late = record early { created_at = pos 7; arg_versions = some ((pos 0, pos 2) ∷ []) }

abbrev other : Brushstroke
other = mint (codes "builds_to") reproducibility_palette (codes "r" ∷ codes "b" ∷ []) (pos 6)

saved_and_loaded :
    load_brushstrokes (save_brushstrokes as_is (other ∷ early ∷ late ∷ []) [])
    ≡ ok (late ∷ other ∷ [])
unfolding load_brushstrokes save_brushstrokes
saved_and_loaded = refl

fact-eq_iff_example : (fact early ≡ fact late) ↔ (claim early ≡ claim late)
fact-eq_iff_example = fact-eq_iff early late

-- The ledger that holds one stroke.
abbrev held : Dir Members
held = files_of as_is (early ∷ [])

once : (k : Text) → copies k held ≤ 1
unfolding copies
once k = ground arith

load-save_brushstrokes_example :
    (loaded : List Brushstroke) × (load_brushstrokes
        (save_brushstrokes as_is (other ∷ late ∷ []) held)
      ≡ ok loaded)
    × ((k : Text)
        → file_at k (files_of as_is loaded) ≡ latest as_is (other ∷ late ∷ []) k (file_at k held))
    × ((k : Text) → copies k (files_of as_is loaded) ≤ 1)
load-save_brushstrokes_example =
    load-save_brushstrokes as_is (other ∷ late ∷ []) held ((early, refl, refl), tt) once

abbrev glibc : NarInfo
glibc = record {
  path = codes "/nix/store/a-glibc";
  nar_hash = codes "sha256-1";
  nar_size = pos 5;
  references = [];
  deriver = none;
}

-- The same path, built from a recipe.
abbrev rebuilt : NarInfo
rebuilt = record glibc { deriver = some (codes "/nix/store/b.drv") }

glibc-IsStorePath : IsStorePath glibc.path
unfolding has
glibc-IsStorePath = (codes "a-glibc", refl, refl)

abbrev one_record : Dir Members
one_record = (record_name glibc.path, nar_to_dict glibc) ∷ []

one_name : (k : Text) → copies k one_record ≤ 1
unfolding copies
one_name k = ground arith

load_records-save_records_example :
    (before : Dir NarInfo) × (after : Dir NarInfo) × (load_records one_record ≡ ok before)
    × (load_records (save_records (rebuilt ∷ []) one_record) ≡ ok after)
    × ((p : Text)
        → IsStorePath p
        → file_at p after ≡ latest_record (rebuilt ∷ []) p (file_at p before))
load_records-save_records_example =
    load_records-save_records (rebuilt ∷ []) one_record (glibc-IsStorePath, tt)
      ((glibc, glibc-IsStorePath, refl, refl), tt) one_name

load_brushstrokes-Reordered_example :
    load_brushstrokes ((codes "b", to_dict other) ∷ (codes "a", to_dict early) ∷ [])
    ≡ load_brushstrokes ((codes "a", to_dict early) ∷ (codes "b", to_dict other) ∷ [])
unfolding eq_text
load_brushstrokes-Reordered_example =
    load_brushstrokes-Reordered ((codes "b", to_dict other) ∷ (codes "a", to_dict early) ∷ [])
      ((codes "a", to_dict early) ∷ (codes "b", to_dict other) ∷ [])
      (swapped (codes "b") (codes "a") (to_dict other) (to_dict early) [] refl)
