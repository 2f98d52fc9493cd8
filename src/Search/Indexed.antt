-- ===== src/Search/Indexed.antt =====
-- What the documentation's index holds.
use desmata.Prelude.{
  ◌≡◌, refl, ◌∙◌, List, [], ◌∷◌, ◌++◌, map, ap, subst, true, false, Option, none, some, Bool-cases,
  inl, inr, ◌⊎◌, if◌then◌else◌,
}
use desmata.Prelude.Texts.{Text, codes, eq_text}
use desmata.Search.{
  Stage, Engine, plain, separator, configure, add_docs, search_index, search_options,
}

-- What the engine documents of its calls, by what can be seen of an index: its fields, its reference
-- field and its documents. A document stands under its own text at the reference field, `value`, and
-- takes the place of another that stood there.
pub record Observed (E : Engine) : Type 1 where
  pub value : Text → E.Doc → Text
  pub fields : E.Index → List Text
  pub docs : E.Index → Text → Option E.Doc
  pub ref : E.Index → Option Text
  pub fresh_fields : (t : Text) → fields (E.fresh t) ≡ []
  pub fresh_docs : (t k : Text) → docs (E.fresh t) k ≡ none
  pub remove_fields : (s : Stage) (i : E.Index) → fields (E.remove s i) ≡ fields i
  pub remove_docs : (s : Stage) (i : E.Index) (k : Text) → docs (E.remove s i) k ≡ docs i k
  pub add_field_fields : (t : Text) (i : E.Index) → fields (E.add_field t i) ≡ fields i ++ t ∷ []
  pub add_field_docs : (t : Text) (i : E.Index) (k : Text) → docs (E.add_field t i) k ≡ docs i k
  pub set_ref_fields : (t : Text) (i : E.Index) → fields (E.set_ref t i) ≡ fields i
  pub set_ref_docs : (t : Text) (i : E.Index) (k : Text) → docs (E.set_ref t i) k ≡ docs i k
  pub set_ref_ref : (t : Text) (i : E.Index) → ref (E.set_ref t i) ≡ some t
  pub add_doc_fields : (d : E.Doc) (i : E.Index) → fields (E.add_doc d i) ≡ fields i
  pub add_doc_docs :
      (t : Text) (d : E.Doc) (i : E.Index) (k : Text)
      → ref i ≡ some t
      → docs (E.add_doc d i) k ≡ (if eq_text (value t d) k then some d else docs i k)
  pub add_doc_ref : (d : E.Doc) (i : E.Index) → ref (E.add_doc d i) ≡ ref i

module _ (E : Engine) (o : Observed E) where
  -- No document of the list has the text at the field.
  abbrev pub NoneNamed : Text → Text → List E.Doc → Type 0
  NoneNamed t k [] = Unit
  NoneNamed t k (d ∷ ds) = (eq_text (o.value t d) k ≡ false) × NoneNamed t k ds

  -- The document is in the list, has the text at the field, and no later one has it.
  abbrev pub IsLast : Text → Text → List E.Doc → E.Doc → Type 0
  IsLast t k ds d =
      (before after : List E.Doc) × (ds ≡ before ++ d ∷ after)
      × (eq_text (o.value t d) k ≡ true)
      × NoneNamed t k after

  -- What stands under the text: the last document that has it at the field, or none if there is none.
  abbrev pub Stands : Text → Text → List E.Doc → Option E.Doc → Type 0
  Stands t k ds none = NoneNamed t k ds
  Stands t k ds (some d) = IsLast t k ds d

  configure_fields :
      o.fields (configure E (E.fresh separator)) ≡ map (λ b. b.field) search_options.fields
  unfolding configure
  configure_fields = simp (o.set_ref_fields, o.add_field_fields, o.remove_fields, o.fresh_fields)

  configure_docs : (k : Text) → o.docs (configure E (E.fresh separator)) k ≡ none
  unfolding configure
  configure_docs k = simp (o.set_ref_docs, o.add_field_docs, o.remove_docs, o.fresh_docs)

  configure_ref : o.ref (configure E (E.fresh separator)) ≡ some (codes "fullname")
  unfolding configure
  configure_ref = o.set_ref_ref _ _

  add_docs_fields : (ds : List E.Doc) (i : E.Index) → o.fields (add_docs E ds i) ≡ o.fields i
  unfolding add_docs
  add_docs_fields [] i = refl
  add_docs_fields (d ∷ ds) i = add_docs_fields ds (E.add_doc d i) ∙ o.add_doc_fields d i

  add_docs_ref : (ds : List E.Doc) (i : E.Index) → o.ref (add_docs E ds i) ≡ o.ref i
  unfolding add_docs
  add_docs_ref [] i = refl
  add_docs_ref (d ∷ ds) i = add_docs_ref ds (E.add_doc d i) ∙ o.add_doc_ref d i

  -- Either no document of the list has the text, and what stood there stays, or the last that has it
  -- stands there.
  abbrev After : Text → Text → List E.Doc → Option E.Doc → Option E.Doc → Type 0
  After t k ds old new =
      (NoneNamed t k ds × (new ≡ old)) ⊎ ((d : E.Doc) × (new ≡ some d) × IsLast t k ds d)

  After-cons :
      (t k : Text) (d : E.Doc) (ds : List E.Doc) (old new : Option E.Doc)
      → After t k ds (if eq_text (o.value t d) k then some d else old) new
      → After t k (d ∷ ds) old new
  After-cons t k d ds old new (inl (n, q)) = elim (Bool-cases (eq_text (o.value t d) k)) [
    | inl e ↦ inr (d, rw e at q, ([], ds, refl, e, n))
    | inr e ↦ inl ((e, n), rw e at q)
  ]
  After-cons t k d ds old new (inr (c, q, (before, after, p, e, n))) =
      inr (c, q, (d ∷ before, after, ap (λ l. d ∷ l) p, e, n))

  add_docs_docs :
      (t k : Text) (ds : List E.Doc) (i : E.Index)
      → o.ref i ≡ some t
      → After t k ds (o.docs i k) (o.docs (add_docs E ds i) k)
  unfolding add_docs
  add_docs_docs t k [] i r = inl (tt, refl)
  add_docs_docs t k (d ∷ ds) i r = After-cons t k d ds (o.docs i k) _ (
      subst (λ old. After t k ds old (o.docs (add_docs E ds (E.add_doc d i)) k))
        (o.add_doc_docs t d i k r) (add_docs_docs t k ds (E.add_doc d i) (o.add_doc_ref d i ∙ r)))

  After-Stands :
      (t k : Text) (ds : List E.Doc) (new : Option E.Doc)
      → After t k ds none new
      → Stands t k ds new
  After-Stands t k ds new (inl (n, q)) = rw q n
  After-Stands t k ds new (inr (d, q, l)) = rw q l

  -- With an engine whose calls do what they document, an index that the page builds has, under every
  -- text, the last of the documents whose `fullname` it is, and none where no document has it; its
  -- reference field is `fullname`, and its fields are those that a search weighs, in the same order.
  pub search_index_holds :
      (ds : List E.Doc)
      → ((k : Text) → Stands (codes "fullname") k ds (o.docs (search_index E (plain ds)) k))
        × (o.fields (search_index E (plain ds)) ≡ map (λ b. b.field) search_options.fields)
        × (o.ref (search_index E (plain ds)) ≡ some (codes "fullname"))
  unfolding search_index
  search_index_holds ds = (
    λ k. After-Stands (codes "fullname") k ds _ (
        subst
          (λ old.
            After (codes "fullname") k ds old
              (o.docs (add_docs E ds (configure E (E.fresh separator))) k))
          (configure_docs k)
          (add_docs_docs (codes "fullname") k ds (configure E (E.fresh separator)) configure_ref)),
    add_docs_fields ds (configure E (E.fresh separator)) ∙ configure_fields,
    add_docs_ref ds (configure E (E.fresh separator)) ∙ configure_ref,
  )
