-- ===== src/Wit/Renders/Ends.antt =====
-- When the recursion through the type table ends: a table whose entries refer only to earlier entries,
-- as `wasm-tools` writes it, and a table with an entry that refers to itself.
use desmata.Prelude.{
  ℕ, zero, suc, ◌<◌, true, Option, none, some, List, [], ◌∷◌, ◌≡◌, refl, arith, Bool-cases, inl,
  inr,
}
use desmata.Prelude.Results.{Result, ok, err, out_of_fuel}
use desmata.Prelude.Texts.{Text, codes}
use desmata.Wave.Value.{ℤ, pos, negsuc}
use desmata.Wit.{
  Rendered, primitive, list_of, record_of, part, with_first, and_then, render_fields, render_listed,
  render_record, render_kind, render_entry, render_ref,
}
use desmata.Wit.Values.{
  Json, Elements, Members, null, int, text, array, object, nil, cons, has_member, get, at,
}

-- A reference to an entry before the `n`th, or one that needs no entry.
abbrev pub RefBelow : ℕ → Json → Type 0
RefBelow n (int (pos j)) = j < n
RefBelow n _ = Unit

abbrev pub FieldsBelow : ℕ → Elements → Type 0
FieldsBelow n nil = Unit
FieldsBelow n (cons (object ms) fs) = RefBelow n (get (codes "type") ms) × FieldsBelow n fs
FieldsBelow n (cons _ fs) = Unit

abbrev pub ListedBelow : ℕ → Json → Type 0
ListedBelow n (array fs) = FieldsBelow n fs
ListedBelow n _ = Unit

abbrev pub RecordBelow : ℕ → Json → Type 0
RecordBelow n (object rs) = ListedBelow n (get (codes "fields") rs)
RecordBelow n _ = Unit

abbrev pub KindBelow : ℕ → Json → Type 0
KindBelow n (object ks) =
    RefBelow n (get (codes "list") ks) × RecordBelow n (get (codes "record") ks)
KindBelow n _ = Unit

abbrev pub EntryBelow : ℕ → Option Json → Type 0
EntryBelow n (some (object ms)) = KindBelow n (get (codes "kind") ms)
EntryBelow n _ = Unit

-- Each entry refers only to entries before it.
pub record IsOrdered (types : Elements) : Type 0 where
  pub below : (i : ℕ) → EntryBelow i (at types (pos i))

-- The run ends, with a text or an abstention.
abbrev pub Returns : {A : Type 0} → Result A → Type 0
Returns {A} r = (a : A) × (r ≡ ok a)

module _ (R : Json → Rendered Text) (n : ℕ) (ih : (r : Json) → RefBelow n r → Returns (R r)) where
  with_part :
      (o : Option Text) (m : Rendered (List Text))
      → Returns m
      → Returns (and_then o m (λ p ps. p ∷ ps))
  unfolding and_then
  with_part none m h = (none, refl)
  with_part (some p) m (ps, h) = (with_first (λ p ps. p ∷ ps) p ps, rw h)

  fields-Returns : (fs : Elements) → FieldsBelow n fs → Returns (render_fields R fs)
  unfolding render_fields
  fields-Returns nil h = (some [], refl)
  fields-Returns (cons (object ms) fs) (h, hs) =
      let (t, e) = ih (get (codes "type") ms) h in
      rw e (with_part (part (get (codes "name") ms) t) (render_fields R fs) (fields-Returns fs hs))
  fields-Returns (cons null fs) h = (none, refl)
  fields-Returns (cons _ fs) h = (none, refl)

  listed-Returns : (j : Json) → ListedBelow n j → Returns (render_listed R j)
  unfolding render_listed
  listed-Returns (array fs) h = let (ps, e) = fields-Returns fs h in (record_of ps, rw e)
  listed-Returns null h = (none, refl)
  listed-Returns _ h = (none, refl)

  record-Returns : (j : Json) → RecordBelow n j → Returns (render_record R j)
  unfolding render_record
  record-Returns (object rs) h = listed-Returns (get (codes "fields") rs) h
  record-Returns null h = (none, refl)
  record-Returns _ h = (none, refl)

  kind-Returns : (k : Json) → KindBelow n k → Returns (render_kind R k)
  unfolding render_kind
  kind-Returns (object ks) (hl, hr) = elim (Bool-cases (has_member (codes "list") ks)) [
    | inl is_list ↦ rw is_list (let (t, e) = ih (get (codes "list") ks) hl in (list_of t, rw e))
    | inr no_list ↦ rw no_list (record-Returns (get (codes "record") ks) hr)
  ]
  kind-Returns (text t) h = (primitive t, refl)
  kind-Returns null h = (none, refl)
  kind-Returns _ h = (none, refl)

  entry-Returns : (o : Option Json) → EntryBelow n o → Returns (render_entry R o)
  unfolding render_entry
  entry-Returns (some (object ms)) h = kind-Returns (get (codes "kind") ms) h
  entry-Returns none h = (none, refl)
  entry-Returns _ h = (none, refl)

-- On an ordered table the rendering of a reference to an entry before the `n`th ends, with a text or
-- an abstention, on any fuel above `n`.
pub render_ref-Returns :
    (types : Elements)
    → IsOrdered types
    → (n f : ℕ) (ref : Json) → RefBelow n ref
    → n < f
    → Returns (render_ref f types ref)
unfolding render_ref
render_ref-Returns types o n zero ref h l = absurd (omega arith)
render_ref-Returns types o n (suc f) (int (pos j)) h l =
    entry-Returns (λ r. render_ref f types r) j
      (λ r b. render_ref-Returns types o j f r b (omega arith)) (at types (pos j)) (o.below j)
render_ref-Returns types o n (suc f) (int (negsuc j)) h l = (none, unfold at render_entry in refl)
render_ref-Returns types o n (suc f) (text t) h l = (primitive t, refl)
render_ref-Returns types o n (suc f) null h l = (none, refl)
render_ref-Returns types o n (suc f) _ h l = (none, refl)

list_again :
    (types : Elements) (R : Json → Rendered Text) (i : ℤ) (ms ks : Members)
    → at types i ≡ some (object ms)
    → get (codes "kind") ms ≡ object ks
    → has_member (codes "list") ks ≡ true
    → get (codes "list") ks ≡ int i
    → R (int i) ≡ err out_of_fuel
    → render_entry R (at types i) ≡ err out_of_fuel
unfolding render_entry render_kind
list_again types R i ms ks e k h l r = rw (e, k, h, l, r)

-- An entry that is a list of itself is never rendered: no fuel is enough, and the program's recursion
-- goes on until the interpreter stops it.
pub render_ref-cyclic :
    (types : Elements) (i : ℤ) (ms ks : Members)
    → at types i ≡ some (object ms)
    → get (codes "kind") ms ≡ object ks
    → has_member (codes "list") ks ≡ true
    → get (codes "list") ks ≡ int i
    → (f : ℕ) → render_ref f types (int i) ≡ err out_of_fuel
unfolding render_ref
render_ref-cyclic types i ms ks e k h l zero = refl
render_ref-cyclic types i ms ks e k h l (suc f) =
    list_again types (λ r. render_ref f types r) i ms ks e k h l
      (render_ref-cyclic types i ms ks e k h l f)
