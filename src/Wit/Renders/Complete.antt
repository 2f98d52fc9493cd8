-- ===== src/Wit/Renders/Complete.antt =====
-- From the relation to the renderer.
use Prim.Native.Nat.{max}
use desmata.Prelude.{
  ℕ, zero, suc, ◌<◌, true, false, some, List, [], ◌∷◌, ◌++◌, ◌≡◌, ◌↔◌, refl, ap, arith,
}
use desmata.Prelude.Results.{ok}
use desmata.Prelude.Texts.{Text, codes}
use desmata.Wave.Value.{ℤ}
use desmata.Wit.{
  Rendered, primitive, primitives, among, list_of, record_of, part, and_then, render_fields,
  render_listed, render_record, render_kind, render_entry, render_ref,
}
use desmata.Wit.Values.{
  Json, Elements, Members, text, array, object, nil, cons, has_member, get, at,
}
use desmata.Wit.Renders.{
  Renders, RendersFields, keyword, alias, list, record_type, no_fields, field,
}
use desmata.Wit.Renders.Sound.{render_ref_sound}

module _ (types : Elements) where
  mutual
    -- How deep a type refers to others.
    pub depth : {ref : Json} {t : Text} → Renders types ref t → ℕ
    depth (keyword t h) = 0
    depth (alias i ms t e k h) = 0
    depth (list i ms ks t e k h d) = suc (depth d)
    depth (record_type i ms ks rs fs ps e k h er ef ds) = suc (depth_fields ds)

    pub depth_fields : {fs : Elements} {ps : List Text} → RendersFields types fs ps → ℕ
    depth_fields no_fields = 0
    depth_fields (field ms fs n t ps e d ds) = max (depth d) (depth_fields ds)

  primitive_complete : (t : Text) → among t primitives ≡ true → primitive t ≡ some t
  unfolding primitive
  primitive_complete t h = rw h

  at_alias :
      (R : Json → Rendered Text) (i : ℤ) (ms : Members) (t : Text)
      → at types i ≡ some (object ms)
      → get (codes "kind") ms ≡ text t
      → among t primitives ≡ true
      → render_entry R (at types i) ≡ ok (some t)
  unfolding render_entry render_kind
  at_alias R i ms t e k h = rw (e, k, primitive_complete t h)

  at_list :
      (R : Json → Rendered Text) (i : ℤ) (ms ks : Members) (t : Text)
      → at types i ≡ some (object ms)
      → get (codes "kind") ms ≡ object ks
      → has_member (codes "list") ks ≡ true
      → R (get (codes "list") ks) ≡ ok (some t)
      → render_entry R (at types i) ≡ ok (list_of (some t))
  unfolding render_entry render_kind
  at_list R i ms ks t e k h r = rw (e, k, h, r)

  at_record :
      (R : Json → Rendered Text) (i : ℤ) (ms ks rs : Members) (fs : Elements) (ps : List Text)
      → at types i ≡ some (object ms)
      → get (codes "kind") ms ≡ object ks
      → has_member (codes "list") ks ≡ false
      → get (codes "record") ks ≡ object rs
      → get (codes "fields") rs ≡ array fs
      → render_fields R fs ≡ ok (some ps)
      → render_entry R (at types i) ≡ ok (record_of (some ps))
  unfolding render_entry render_kind render_record render_listed
  at_record R i ms ks rs fs ps e k h er ef r = rw (e, k, h, er, ef, r)

  at_end : (R : Json → Rendered Text) → render_fields R nil ≡ ok (some [])
  unfolding render_fields
  at_end R = refl

  at_field :
      (R : Json → Rendered Text) (ms : Members) (fs : Elements) (n t : Text) (ps : List Text)
      → get (codes "name") ms ≡ text n
      → R (get (codes "type") ms) ≡ ok (some t)
      → render_fields R fs ≡ ok (some ps)
      → render_fields R (cons (object ms) fs) ≡ ok (some ((n ++ (codes ": " ++ t)) ∷ ps))
  unfolding render_fields part and_then
  at_field R ms fs n t ps e r rs = rw (r, e, rs)

  mutual
    unfolding render_ref depth

    pub complete :
        {ref : Json} {t : Text} (d : Renders types ref t) (f : ℕ)
        → depth d < f
        → render_ref f types ref ≡ ok (some t)
    complete (keyword t h) zero l = absurd (omega arith)
    complete (keyword t h) (suc f) l = ap ok (primitive_complete t h)
    complete (alias i ms t e k h) zero l = absurd (omega arith)
    complete (alias i ms t e k h) (suc f) l = at_alias (λ r. render_ref f types r) i ms t e k h
    complete (list i ms ks t e k h d) zero l = absurd (omega arith)
    complete (list i ms ks t e k h d) (suc f) l =
        at_list (λ r. render_ref f types r) i ms ks t e k h (complete d f (omega arith))
    complete (record_type i ms ks rs fs ps e k h er ef ds) zero l = absurd (omega arith)
    complete (record_type i ms ks rs fs ps e k h er ef ds) (suc f) l =
        at_record (λ r. render_ref f types r) i ms ks rs fs ps e k h er ef
          (complete_fields ds f (omega arith))

    complete_fields :
        {fs : Elements} {ps : List Text} (ds : RendersFields types fs ps) (f : ℕ)
        → depth_fields ds < f
        → render_fields (λ r. render_ref f types r) fs ≡ ok (some ps)
    complete_fields no_fields f l = at_end (λ r. render_ref f types r)
    complete_fields (field ms fs n t ps e d ds) f l =
        at_field (λ r. render_ref f types r) ms fs n t ps e (complete d f (omega arith))
          (complete_fields ds f (omega arith))

-- The renderer returns a text for a type reference, with some fuel, exactly when that is the type's
-- canonical text.
pub render_ref-eq-ok_iff :
    (types : Elements) (ref : Json) (t : Text)
    → ((f : ℕ) × (render_ref f types ref ≡ ok (some t))) ↔ Renders types ref t
render_ref-eq-ok_iff types ref t = (
  λ (f, h). render_ref_sound types f ref t h,
  λ d. (suc (depth types d), complete types d (suc (depth types d)) (omega arith)),
)
