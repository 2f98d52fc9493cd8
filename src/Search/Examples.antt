-- ===== src/Search/Examples.antt =====
-- The theorem on the documentation's index at a small engine.
use desmata.Prelude.{◌≡◌, refl, List, [], ◌∷◌, ◌++◌, map, Option, none, some, if◌then◌else◌, ap}
use desmata.Prelude.Texts.{Text, codes, eq_text}
use desmata.Search.{Engine, plain, search_index, search_options}
use desmata.Search.Indexed.{Observed, Stands, search_index_holds}

-- A document by its texts at `fullname` and at every other field.
record Page : Type 0 where
  fullname : Text
  rest : Text

record Table : Type 0 where
  fields : List Text
  docs : Text → Option Page
  ref : Option Text

abbrev value : Text → Page → Text
value t d = if eq_text t (codes "fullname") then d.fullname else d.rest

-- The store after a document, at an index that has a reference field or none.
abbrev stored : Option Text → Page → (Text → Option Page) → Text → Option Page
stored none d docs k = docs k
stored (some t) d docs k = if eq_text (value t d) k then some d else docs k

-- An engine that keeps its documents by their texts at the reference field.
abbrev tables : Engine
tables = record {
  Index = Table;
  Doc = Page;
  Prebuilt = Table;
  Hits = Option Page;
  fresh = λ t. record { fields = []; docs = λ k. none; ref = none };
  remove = λ s i. i;
  add_field = λ t i. record { fields = i.fields ++ t ∷ []; docs = i.docs; ref = i.ref };
  set_ref = λ t i. record { fields = i.fields; docs = i.docs; ref = some t };
  add_doc = λ d i. record { fields = i.fields; docs = stored i.ref d i.docs; ref = i.ref };
  load = λ t p. p;
  search = λ i t o. i.docs t;
}

abbrev observed : Observed tables
observed = record {
  value = value;
  fields = λ i. i.fields;
  docs = λ i. i.docs;
  ref = λ i. i.ref;
  fresh_fields = λ t. refl;
  fresh_docs = λ t k. refl;
  remove_fields = λ s i. refl;
  remove_docs = λ s i k. refl;
  add_field_fields = λ t i. refl;
  add_field_docs = λ t i k. refl;
  set_ref_fields = λ t i. refl;
  set_ref_docs = λ t i k. refl;
  set_ref_ref = λ t i. refl;
  add_doc_fields = λ d i. refl;
  add_doc_docs = λ t d i k r. ap (λ x. stored x d i.docs k) r;
  add_doc_ref = λ d i. refl;
}

abbrev page : Text → Page
page rest = record { fullname = codes "Hash.parse"; rest = rest }

-- Two documents of one name.
abbrev two_docs : List Page
two_docs = page (codes "old") ∷ page (codes "new") ∷ []

search_index_holds_example :
    ((k : Text)
      → Stands tables observed
          (codes "fullname")
          k
          two_docs
          (observed.docs (search_index tables (plain two_docs)) k))
    × (observed.fields (search_index tables (plain two_docs))
        ≡ map (λ b. b.field) search_options.fields)
    × (observed.ref (search_index tables (plain two_docs)) ≡ some (codes "fullname"))
search_index_holds_example = search_index_holds tables observed two_docs
