-- ===== src/Provenance/Wire.antt =====
-- The document that a ledger holds of a stroke: `to_dict` and `from_dict` of `Brushstroke` in
-- src/desmata/provenance.py.
use desmata.Prelude.{Option, none, some, List, [], ◌∷◌, ◌≡◌, refl, if◌then◌else◌}
use desmata.Prelude.Results.{Result, ok, err, key_error, ill_typed, ◌>>=◌}
use desmata.Prelude.Texts.{Text, codes}
use desmata.Wave.Value.{ℤ, pos}
use desmata.Wit.Values.{
  Json, Elements, Members, null, int, text, array, nil, cons, end, member, has_member, get, get_or,
}
use desmata.Provenance.{Brushstroke, texts, pairs}

-- arg_versions, as the document holds it
abbrev pub versions_value : Option (List (ℤ × ℤ)) → Json
versions_value none = null
versions_value (some vs) = array (pairs vs)

-- Brushstroke.to_dict
unfoldable pub to_dict : Brushstroke → Members
unfolding texts pairs
to_dict b = member (codes "color") (text b.color) (
    member (codes "palette") (text b.palette) (
      member (codes "args") (array (texts b.args)) (
        member (codes "signer") (text b.signer) (
          member (codes "created_at") (int b.created_at) (
            member (codes "suite") (text b.suite) (
              member (codes "sig") (text b.sig)
                (member (codes "arg_versions") (versions_value b.arg_versions) end)))))))

-- d[name]
unfoldable pub required : Text → Members → Result Json
unfolding has_member get
required name d = if has_member name d then ok (get name d) else err key_error

-- A value where the dataclass declares a text, a number or a list of texts.
abbrev pub as_text : Json → Result Text
as_text (text t) = ok t
as_text null = err ill_typed
as_text _ = err ill_typed

abbrev pub as_int : Json → Result ℤ
as_int (int z) = ok z
as_int null = err ill_typed
as_int _ = err ill_typed

unfoldable pub texts_in : Elements → Result (List Text)
texts_in nil = ok []
texts_in (cons j es) = as_text j >>= λ t. texts_in es >>= λ ts. ok (t ∷ ts)

-- tuple(value), for a list of texts
abbrev pub as_texts : Json → Result (List Text)
as_texts (array es) = texts_in es
as_texts null = err ill_typed
as_texts _ = err ill_typed

abbrev pub as_pair : Json → Result (ℤ × ℤ)
as_pair (array (cons (int i) (cons (int v) nil))) = ok (i, v)
as_pair null = err ill_typed
as_pair _ = err ill_typed

unfoldable pub pairs_in : Elements → Result (List (ℤ × ℤ))
pairs_in nil = ok []
pairs_in (cons j es) = as_pair j >>= λ p. pairs_in es >>= λ ps. ok (p ∷ ps)

abbrev pub as_versions : Json → Result (Option (List (ℤ × ℤ)))
as_versions null = ok none
as_versions (array es) = pairs_in es >>= λ vs. ok (some vs)
as_versions _ = err ill_typed

-- Brushstroke.from_dict
unfoldable pub from_dict : Members → Result Brushstroke
unfolding required get get_or texts_in pairs_in
from_dict d = (required (codes "color") d >>= as_text) >>= λ color.
    (required (codes "palette") d >>= as_text) >>= λ palette.
    (required (codes "args") d >>= as_texts) >>= λ args.
    as_text (get_or (codes "signer") d (text [])) >>= λ signer.
    as_int (get_or (codes "created_at") d (int (pos 0))) >>= λ created_at.
    as_text (get_or (codes "suite") d (text [])) >>= λ suite.
    as_text (get_or (codes "sig") d (text [])) >>= λ sig.
    as_versions (get (codes "arg_versions") d) >>= λ versions. ok (record {
      color = color;
      palette = palette;
      args = args;
      signer = signer;
      created_at = created_at;
      suite = suite;
      sig = sig;
      arg_versions = versions;
    })

pub texts_in-texts : (ts : List Text) → texts_in (texts ts) ≡ ok ts
unfolding texts_in texts
texts_in-texts [] = refl
texts_in-texts (t ∷ ts) = rw (texts_in-texts ts) refl

pairs_in-pairs : (vs : List (ℤ × ℤ)) → pairs_in (pairs vs) ≡ ok vs
unfolding pairs_in pairs
pairs_in-pairs [] = refl
pairs_in-pairs ((i, v) ∷ vs) = rw (pairs_in-pairs vs) refl

as_versions-value : (o : Option (List (ℤ × ℤ))) → as_versions (versions_value o) ≡ ok o
as_versions-value none = refl
as_versions-value (some vs) = rw (pairs_in-pairs vs) refl

-- A stroke's document reads back as the stroke.
pub from_dict-to_dict : (b : Brushstroke) → from_dict (to_dict b) ≡ ok b
unfolding from_dict to_dict
from_dict-to_dict b = rw (as_versions-value b.arg_versions, texts_in-texts b.args) refl
