-- ===== src/Provenance/Builds.antt =====
-- What is recorded of a build: `NarInfo`, its projections, and its store of one file per store path.
-- Times are not recorded but in strokes, and a stroke's time is an argument.
use desmata.Prelude.{
  ℕ, zero, suc, Option, none, some, List, [], ◌∷◌, ◌++◌, if◌then◌else◌, ◌≡◌, refl,
}
use desmata.Prelude.Results.{Result, ok, err, ill_typed, ◌>>=◌}
use desmata.Prelude.Texts.{Text, codes, starts_with, join}
use desmata.Wave.Value.{ℤ}
use desmata.Wave.Numbers.{show_int}
use desmata.Wit.Values.{Json, Members, null, int, text, array, end, member, get}
use desmata.Archive.Cell.{sorted}
use desmata.Provenance.{Brushstroke, mint, reproducibility_palette, texts}
use desmata.Provenance.Wire.{required, as_text, as_int, as_texts, texts_in}
use desmata.Provenance.Ledger.{Dir, write}

pub record NarInfo : Type 0 where
  pub path : Text
  pub nar_hash : Text
  pub nar_size : ℤ
  pub references : List Text
  pub deriver : Option Text

-- NarInfo.from_path_info, of what nix reports, where paths are texts
unfoldable pub from_path_info : NarInfo → NarInfo
unfolding sorted
from_path_info info = record info { references = sorted info.references }

abbrev pub text_or_null : Option Text → Json
text_or_null none = null
text_or_null (some t) = text t

-- NarInfo.to_dict
unfoldable pub nar_to_dict : NarInfo → Members
unfolding texts
nar_to_dict n = member (codes "path") (text n.path) (
    member (codes "narHash") (text n.nar_hash) (
      member (codes "narSize") (int n.nar_size) (
        member (codes "references") (array (texts n.references))
          (member (codes "deriver") (text_or_null n.deriver) end))))

abbrev pub as_deriver : Json → Result (Option Text)
as_deriver (text t) = ok (some t)
as_deriver null = ok none
as_deriver _ = err ill_typed

-- NarInfo.from_dict
unfoldable pub nar_from_dict : Members → Result NarInfo
unfolding required get texts_in
nar_from_dict d = (required (codes "path") d >>= as_text) >>= λ path.
    (required (codes "narHash") d >>= as_text) >>= λ nar_hash.
    (required (codes "narSize") d >>= as_int) >>= λ nar_size.
    (required (codes "references") d >>= as_texts) >>= λ references.
    as_deriver (get (codes "deriver") d) >>= λ deriver. ok (record {
      path = path;
      nar_hash = nar_hash;
      nar_size = nar_size;
      references = references;
      deriver = deriver;
    })

-- self.deriver or self.path: an empty deriver counts as none.
abbrev pub build_key : Option Text → Text → Text
build_key none path = path
build_key (some []) path = path
build_key (some (c ∷ cs)) path = c ∷ cs

-- A reference edge for each reference.
unfoldable pub edges : Text → List Text → ℤ → List Brushstroke
edges path [] minted = []
edges path (r ∷ rs) minted =
    mint (codes "references") reproducibility_palette (path ∷ r ∷ []) minted ∷ edges path rs minted

-- NarInfo.to_brushstrokes
unfoldable pub to_brushstrokes : NarInfo → ℤ → List Brushstroke
unfolding edges
to_brushstrokes n minted =
    mint (codes "builds_to") reproducibility_palette (build_key n.deriver n.path ∷ n.nar_hash ∷ [])
      minted
    ∷ edges n.path n.references minted

-- NarInfo.fingerprint, before it is encoded
unfoldable pub fingerprint : NarInfo → Text
unfolding show_int join
fingerprint n =
    codes "1;"
    ++ n.path
    ++ codes ";"
    ++ n.nar_hash
    ++ codes ";"
    ++ show_int n.nar_size
    ++ codes ";"
    ++ join (codes ",") n.references

abbrev pub store_prefix : Text
store_prefix = codes "/nix/store/"

-- s.replace("/nix/store/", ""), where so many characters of an occurrence are still to be left out
unfoldable pub without_prefixes : ℕ → Text → Text
unfolding starts_with
without_prefixes k [] = []
without_prefixes zero (c ∷ s) =
    let dropped = without_prefixes 10 s in
    let kept = without_prefixes zero s in
    if starts_with (c ∷ s) store_prefix then dropped else c ∷ kept
without_prefixes (suc k) (c ∷ s) = without_prefixes k s

-- The name of a record's file.
unfoldable pub record_name : Text → Text
unfolding without_prefixes
record_name path = without_prefixes 0 path ++ codes ".json"

-- save
unfoldable pub save_records : List NarInfo → Dir Members → Dir Members
unfolding write record_name nar_to_dict
save_records [] d = d
save_records (n ∷ ns) d = save_records ns (write (record_name n.path) (nar_to_dict n) d)

-- The loop of `load`, over the files in some order.
unfoldable pub collect : Dir Members → Dir NarInfo → Result (Dir NarInfo)
unfolding write nar_from_dict
collect [] out = ok out
collect ((name, doc) ∷ d) out = nar_from_dict doc >>= λ n. collect d (write n.path n out)

-- load
unfoldable pub load_records : Dir Members → Result (Dir NarInfo)
unfolding collect
load_records d = collect d []

ident : record_name (codes "/nix/store/abc-x") ≡ codes "abc-x.json"
unfolding record_name starts_with
ident = refl
