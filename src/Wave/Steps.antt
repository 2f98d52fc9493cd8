-- ===== src/Wave/Steps.antt =====
-- One round of the decoder's loops on what `encode` prints.
use desmata.Prelude.{ℕ, zero, suc, ◌≤◌, true, false, ◌∷◌, ◌++◌, ◌≡◌, refl, ap, append_assoc, arith}
use desmata.Prelude.Results.{Result, ok}
use desmata.Prelude.Texts.{Text, all, length}
use desmata.Wave.Value.{Value, Items, Fields, nil, cons, end, field, Runtime}
use desmata.Wave.Numbers.{between}
use desmata.Wave.Encode.{is_ident_char}
use desmata.Wave.Parser.{skip_ws, peeks, expect, ident}
use desmata.Wave.Decode.{value_at, value, items, fields, skip_comma, assign}
use desmata.Wave.Decimal.{stops}
use desmata.Wave.Canonical.{render, render_first, render_more, render_field, render_fields}
use desmata.Wave.Atoms.{opens, Opens}

-- White space before a value or a closing bracket is skipped, and nothing else.
pub skip_ws-Opens : (t rest : Text) → Opens t → skip_ws (t ++ rest) ≡ t ++ rest
unfolding skip_ws opens
skip_ws-Opens t rest (c, s, e, h) = rw e (ground arith)

pub peeks-Opens :
    (closing : ℕ) (t rest : Text)
    → Opens t
    → opens closing ≡ false
    → peeks closing (t ++ rest) ≡ false
unfolding peeks
peeks-Opens closing t rest (c, s, e, h) hc = rw e (ground arith)

pub ident_Opens : (c : ℕ) (w : Text) → all is_ident_char (c ∷ w) ≡ true → Opens (c ∷ w)
unfolding all is_ident_char between opens
ident_Opens c w h = (c, w, refl, ground arith)

pub regroup :
    (n t more tail : Text)
    → (n ++ b':' ∷ b' ' ∷ (t ++ more)) ++ tail ≡ n ++ b':' ∷ b' ' ∷ (t ++ (more ++ tail))
regroup n t more tail = simp append_assoc

pub length-Opens : (t : Text) → Opens t → 1 ≤ length t
length-Opens t (c, s, e, h) = omega (arith, ap (λ (t : Text). length t) e)

module _ (rt : Runtime) where
  abbrev repr : rt.Float → Text
  repr = rt.repr_float

  pub value_step :
      (f : ℕ) (t rest : Text)
      → Opens t
      → value rt (suc f) (t ++ rest)
        ≡ value_at rt
            (λ closing t. items rt f closing (skip_ws t))
            (λ t. fields rt f end (skip_ws t))
            (t ++ rest)
  unfolding value
  value_step f t rest h = rw (skip_ws-Opens t rest h)

  pub items_step :
      (f closing : ℕ) (s r u : Text) (v : Value rt.Float) (vs : Items rt.Float)
      → peeks closing s ≡ false
      → value rt f s ≡ ok (v, r)
      → items rt f closing (skip_comma (skip_ws r)) ≡ ok (vs, u)
      → items rt (suc f) closing s ≡ ok (cons v vs, u)
  unfolding items
  items_step f closing s r u v vs hp hv hs = rw (hp, hv, hs)

  pub fields_step :
      (f : ℕ) (acc : Fields rt.Float) (s n r t u : Text) (v : Value rt.Float)
      (res : Result (Fields rt.Float × Text))
      → peeks b'}' s ≡ false
      → ident s ≡ ok (n, r)
      → expect b':' (skip_ws r) ≡ ok t
      → value rt f t ≡ ok (v, u)
      → fields rt f (assign n v acc) (skip_comma (skip_ws u)) ≡ res
      → fields rt (suc f) acc s ≡ res
  unfolding fields
  fields_step f acc s n r t u v res hp hi he hv hs = rw (hp, hi, he, hv, hs)

  pub value_blank : (f : ℕ) (t : Text) → value rt f (b' ' ∷ t) ≡ value rt f t
  unfolding value
  value_blank zero t = refl
  value_blank (suc f) t = refl

  -- What follows a rendered list item ends it.
  pub stops-more :
      (vs : Items rt.Float) (rest : Text) → stops (render_more repr vs ++ b']' ∷ rest) ≡ true
  unfolding render
  stops-more nil rest = refl
  stops-more (cons v vs) rest = refl

  pub stops-fields :
      (fs : Fields rt.Float) (rest : Text) → stops (render_fields repr fs ++ b'}' ∷ rest) ≡ true
  unfolding render
  stops-fields end rest = refl
  stops-fields (field k v fs) rest = refl

  -- Behind an item the loop comes to where it would have started on the items that are left.
  pub next_item :
      (vs : Items rt.Float) (rest : Text)
      → skip_comma (skip_ws (render_more repr vs ++ b']' ∷ rest))
        ≡ skip_ws (render_first repr vs ++ b']' ∷ rest)
  unfolding render skip_comma skip_ws
  next_item nil rest = refl
  next_item (cons v vs) rest = refl

  pub next_field :
      (fs : Fields rt.Float) (rest : Text)
      → skip_comma (skip_ws (render_fields repr fs ++ b'}' ∷ rest))
        ≡ skip_ws (render_field repr fs ++ b'}' ∷ rest)
  unfolding render skip_comma skip_ws
  next_field end rest = refl
  next_field (field k v fs) rest = refl

  pub length-first :
      (vs : Items rt.Float) → length (render_first repr vs) ≤ length (render_more repr vs)
  unfolding render
  length-first nil = omega arith
  length-first (cons v vs) = omega arith

  pub length-field :
      (fs : Fields rt.Float) → length (render_field repr fs) ≤ length (render_fields repr fs)
  unfolding render
  length-field end = omega arith
  length-field (field k v fs) = omega arith
