-- ===== src/Wit/Renders/Sound.antt =====
-- From the renderer to the relation.
use desmata.Prelude.{
  ℕ, zero, suc, true, false, Option, none, some, List, ◌∷◌, ◌++◌, ◌≡◌, refl, subst, sym, arith,
  Bool-cases, inl, inr,
}
use desmata.Prelude.Results.{Result, ok, err, >>=-eq-ok}
use desmata.Prelude.Texts.{Text, codes}
use desmata.Wave.Value.{ℤ}
use desmata.Wit.{
  Rendered, primitive, primitives, among, list_of, record_of, part, and_then, render_fields,
  render_listed, render_record, render_kind, render_entry, render_ref,
}
use desmata.Wit.Values.{
  Json, Elements, Members, null, int, text, array, object, nil, cons, has_member, get, at,
}
use desmata.Wit.Renders.{
  Renders, RendersFields, keyword, alias, list, record_type, no_fields, field,
}

primitive_sound : (u t : Text) → primitive u ≡ some t → (among u primitives ≡ true) × (u ≡ t)
unfolding primitive
primitive_sound u t h = ground arith

list_of_sound :
    (o : Option Text) (t : Text)
    → list_of o ≡ some t
    → (u : Text) × (o ≡ some u) × (t ≡ codes "list<" ++ (u ++ codes ">"))
list_of_sound none t h = cc
list_of_sound (some u) t h = (u, refl, cc)

module _ (types : Elements) (R : Json → Rendered Text)
    (ih : (r : Json) (t : Text) → R r ≡ ok (some t) → Renders types r t) where
  part_sound :
      (name : Json) (o : Option Text) (p : Text)
      → part name o ≡ some p
      → (n : Text) × (t : Text) × (name ≡ text n) × (o ≡ some t) × (p ≡ n ++ (codes ": " ++ t))
  unfolding part
  part_sound (text n) (some t) p h = (n, t, refl, refl, cc)
  part_sound (text n) none p h = cc
  part_sound null o p h = cc
  part_sound _ o p h = cc

  and_then_sound :
      {A B C : Type 0} (o : Option A) (m : Result (Option B)) (f : A → B → C) (c : C)
      → and_then o m f ≡ ok (some c)
      → (a : A) × (b : B) × (o ≡ some a) × (m ≡ ok (some b)) × (c ≡ f a b)
  unfolding and_then
  and_then_sound none m f c h = cc
  and_then_sound (some a) (ok none) f c h = cc
  and_then_sound (some a) (ok (some b)) f c h = (a, b, refl, refl, cc)
  and_then_sound (some a) (err e) f c h = cc

  fields_sound :
      (fs : Elements) (ps : List Text)
      → render_fields R fs ≡ ok (some ps)
      → RendersFields types fs ps
  unfolding render_fields
  fields_sound nil ps h = subst (RendersFields types nil) (cc) no_fields
  fields_sound (cons (object ms) fs) ps h =
      let (o, hr, rest) =
        >>=-eq-ok (R (get (codes "type") ms))
          (λ t. and_then (part (get (codes "name") ms) t) (render_fields R fs) (λ p ps. p ∷ ps))
          h in
      let (p, qs, ep, em, ec) =
        and_then_sound (part (get (codes "name") ms) o) (render_fields R fs) (λ p ps. p ∷ ps) ps
          rest in
      let (n, u, en, eo, epp) = part_sound (get (codes "name") ms) o p ep in
      subst (RendersFields types (cons (object ms) fs)) (cc)
        (field ms fs n u qs en (ih (get (codes "type") ms) u (cc)) (fields_sound fs qs em))
  fields_sound (cons _ fs) ps h = cc

  module _ (i : ℤ) (ms : Members) (t : Text) (found : at types i ≡ some (object ms)) where
    listed_sound :
        (ks rs : Members) (j : Json)
        → get (codes "kind") ms ≡ object ks
        → has_member (codes "list") ks ≡ false
        → get (codes "record") ks ≡ object rs
        → get (codes "fields") rs ≡ j
        → render_listed R j ≡ ok (some t)
        → Renders types (int i) t
    unfolding render_listed
    listed_sound ks rs (array fs) ek eh er ef h =
        let (o, hf, rest) = >>=-eq-ok (render_fields R fs) (λ ps. ok (record_of ps)) h in
        of o hf rest
      where
        of :
            (o : Option (List Text))
            → render_fields R fs ≡ ok o
            → ok (record_of o) ≡ ok (some t)
            → Renders types (int i) t
        of none hf rest = cc
        of (some ps) hf rest =
            subst (Renders types (int i)) (cc)
              (record_type i ms ks rs fs ps found ek eh er ef (fields_sound fs ps hf))
    listed_sound ks rs null ek eh er ef h = cc
    listed_sound ks rs _ ek eh er ef h = cc

    record_sound :
        (ks : Members) (j : Json)
        → get (codes "kind") ms ≡ object ks
        → has_member (codes "list") ks ≡ false
        → get (codes "record") ks ≡ j
        → render_record R j ≡ ok (some t)
        → Renders types (int i) t
    unfolding render_record
    record_sound ks (object rs) ek eh er h =
        listed_sound ks rs (get (codes "fields") rs) ek eh er refl h
    record_sound ks null ek eh er h = cc
    record_sound ks _ ek eh er h = cc

    kind_sound :
        (k : Json)
        → get (codes "kind") ms ≡ k
        → render_kind R k ≡ ok (some t)
        → Renders types (int i) t
    unfolding render_kind
    kind_sound (text u) ek h =
        let (known, same) = primitive_sound u t (cc) in
        subst (Renders types (int i)) same (alias i ms u found ek known)
    kind_sound (object ks) ek h = elim (Bool-cases (has_member (codes "list") ks)) [
      | inl yes_list ↦
          let (o, hr, rest) =
            >>=-eq-ok (R (get (codes "list") ks)) (λ inner. ok (list_of inner))
              (rw yes_list at h) in
          let (u, eo, et) = list_of_sound o t (cc) in
          subst (Renders types (int i)) (sym et)
            (list i ms ks u found ek yes_list (ih (get (codes "list") ks) u (cc)))
      | inr no_list ↦ record_sound ks (get (codes "record") ks) ek no_list refl (rw no_list at h)
    ]
    kind_sound null ek h = cc
    kind_sound _ ek h = cc

  entry_sound :
      (i : ℤ) (o : Option Json) (t : Text)
      → at types i ≡ o
      → render_entry R o ≡ ok (some t)
      → Renders types (int i) t
  unfolding render_entry
  entry_sound i (some (object ms)) t e h = kind_sound i ms t e (get (codes "kind") ms) refl h
  entry_sound i none t e h = cc
  entry_sound i _ t e h = cc

-- What `_render_ref` returns, if it does not abstain, is the canonical text of the type.
pub render_ref_sound :
    (types : Elements) (f : ℕ) (ref : Json) (t : Text)
    → render_ref f types ref ≡ ok (some t)
    → Renders types ref t
unfolding render_ref
render_ref_sound types zero ref t h = cc
render_ref_sound types (suc f) (int i) t h =
    entry_sound types (λ r. render_ref f types r) (λ r t. render_ref_sound types f r t) i
      (at types i) t refl h
render_ref_sound types (suc f) (text u) t h =
    let (known, same) = primitive_sound u t (cc) in
    subst (Renders types (text u)) same (keyword u known)
render_ref_sound types (suc f) _ t h = cc
