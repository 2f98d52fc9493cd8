-- ===== src/Wit.antt =====
-- src/desmata/wit.py: the pure renderer of a component's WIT world. The parse of the JSON text,
-- `json.loads`, is a parameter; the rest works on the parsed value.
mod Examples
pub mod Values
pub mod Found
pub mod Signature
pub mod Sought
pub mod Renders
pub mod Texts
pub mod Signed
use desmata.Prelude.{
  ℕ, zero, suc, Bool, true, false, ◌||◌, ◌&&◌, Option, none, some, List, [], ◌∷◌, ◌++◌,
  if◌then◌else◌,
}
use desmata.Prelude.Results.{Result, ok, err, out_of_fuel, attribute_error, type_error, ◌>>=◌}
use desmata.Prelude.Texts.{Text, codes, eq_text, join}
use desmata.Wave.Value.{ℤ, pos, negsuc}
use Values.{
  Json, Elements, Members, null, bool, int, float, text, array, object, nil, cons, end, member,
  has_member, get, get_or, at,
}

-- membership in a collection of texts
unfoldable pub among : Text → List Text → Bool
unfolding eq_text
among t [] = false
among t (s ∷ ss) = eq_text s t || among t ss

-- _PRIMITIVES
abbrev pub primitives : List Text
primitives =
    codes "bool"
    ∷ codes "s8"
    ∷ codes "u8"
    ∷ codes "s16"
    ∷ codes "u16"
    ∷ codes "s32"
    ∷ codes "u32"
    ∷ codes "s64"
    ∷ codes "u64"
    ∷ codes "f32"
    ∷ codes "f64"
    ∷ codes "char"
    ∷ codes "string"
    ∷ []

-- A primitive's keyword, or an abstention.
unfoldable pub primitive : Text → Option Text
primitive t = if among t primitives then some t else none

-- A rendering: `ok none` is an abstention.
abbrev pub Rendered : Type 0 → Type 0
Rendered A = Result (Option A)

abbrev pub list_of : Option Text → Option Text
list_of none = none
list_of (some inner) = some (codes "list<" ++ (inner ++ codes ">"))

abbrev pub record_of : Option (List Text) → Option Text
record_of none = none
record_of (some parts) = some (codes "record { " ++ (join (codes ", ") parts ++ codes " }"))

-- One field's part, or an abstention, from its name and its type's text.
unfoldable pub part : Json → Option Text → Option Text
part (text name) (some t) = some (name ++ (codes ": " ++ t))
part (text name) none = none
part other t = none

abbrev pub with_first : {A B C : Type 0} → (A → B → C) → A → Option B → Option C
with_first f a none = none
with_first f a (some b) = some (f a b)

-- The loop's next round, unless this one returned.
unfoldable pub and_then :
    {A B C : Type 0} → Option A → Result (Option B) → (A → B → C) → Result (Option C)
and_then none rest f = ok none
and_then (some a) rest f = rest >>= λ o. ok (with_first f a o)

module _ (render : Json → Rendered Text) where
  -- The loop over a record's fields.
  unfoldable pub render_fields : Elements → Rendered (List Text)
  unfolding part get and_then
  render_fields nil = ok (some [])
  render_fields (cons (object ms) fs) =
      let rest = render_fields fs in
      render (get (codes "type") ms) >>= λ t.
      and_then (part (get (codes "name") ms) t) rest (λ p ps. p ∷ ps)
  render_fields (cons other fs) = ok none

  -- A record's `fields`, which have to be a list.
  unfoldable pub render_listed : Json → Rendered Text
  unfolding render_fields
  render_listed (array fs) = render_fields fs >>= λ ps. ok (record_of ps)
  render_listed other = ok none

  -- The `record` case of `_render_kind`.
  unfoldable pub render_record : Json → Rendered Text
  unfolding get render_listed
  render_record (object ms) = render_listed (get (codes "fields") ms)
  render_record other = ok none

  -- _render_kind, given `_render_ref`
  unfoldable pub render_kind : Json → Rendered Text
  unfolding primitive has_member get render_record
  render_kind (text t) = ok (primitive t)
  render_kind (object ms) =
      if has_member (codes "list") ms
      then (render (get (codes "list") ms) >>= λ inner. ok (list_of inner))
      else render_record (get (codes "record") ms)
  render_kind other = ok none

  -- A type table's entry.
  unfoldable pub render_entry : Option Json → Rendered Text
  unfolding get render_kind
  render_entry (some (object ms)) = render_kind (get (codes "kind") ms)
  render_entry other = ok none

-- _render_ref. A table may refer to itself, so each reference followed costs a unit of fuel; the
-- program would go on until the interpreter's recursion limit.
unfoldable pub render_ref : ℕ → Elements → Json → Rendered Text
unfolding at primitive render_entry
render_ref zero types ref = err out_of_fuel
render_ref (suc f) types (int i) = render_entry (λ r. render_ref f types r) (at types i)
render_ref (suc f) types (text t) = ok (primitive t)
render_ref (suc f) types other = ok none
