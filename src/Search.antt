-- ===== src/Search.antt =====
-- docs/search.js: the search box of the generated documentation. The search engine, elasticlunr, is a
-- third party's code, and stands here as a parameter: what it builds and finds is its own affair, and
-- the program decides which calls it makes.
mod Examples
pub mod Indexed
use desmata.Prelude.{ℕ, Bool, true, false, List, [], ◌∷◌}
use desmata.Prelude.Texts.{Text, codes}

pub data Stage : Type 0 where
  trimmer stemmer stop_word_filter : Stage

-- A field of a document with its weight in a search.
pub record Boost : Type 0 where
  pub field : Text
  pub boost : ℕ

pub record Options : Type 0 where
  pub fields : List Boost
  pub expand : Bool

-- The engine's interface. `fresh` is an index under a separator of the tokenizer; `load` reads an
-- index that was built before.
pub record Engine : Type 1 where
  pub Index : Type 0
  pub Doc : Type 0
  pub Prebuilt : Type 0
  pub Hits : Type 0
  pub fresh : Text → Index
  pub remove : Stage → Index → Index
  pub add_field : Text → Index → Index
  pub set_ref : Text → Index → Index
  pub add_doc : Doc → Index → Index
  pub load : Text → Prebuilt → Index
  pub search : Index → Text → Options → Hits

-- The page's data: documents, or an index under `_isPrebuiltIndex`.
pub data Docs (E : Engine) : Type 0 where
  plain : List (E.Doc) → Docs E
  prebuilt : E.Prebuilt → Docs E

-- The regular expression at which texts are split.
abbrev pub separator : Text
separator = codes "[\\s\\-.;&_'\"=,()]+|<[^>]*>"

abbrev pub weight : Text → ℕ → Boost
weight name n = record { field = name; boost = n }

-- The options of each search.
abbrev pub search_options : Options
search_options = record {
  fields =
      weight (codes "qualname") 4
      ∷ weight (codes "fullname") 2
      ∷ weight (codes "annotation") 2
      ∷ weight (codes "default_value") 2
      ∷ weight (codes "signature") 2
      ∷ weight (codes "bases") 2
      ∷ weight (codes "doc") 1
      ∷ [];
  expand = true;
}

module _ (E : Engine) where
  -- The function that configures a fresh index.
  unfoldable pub configure : E.Index → E.Index
  configure index =
      let bare = E.remove stop_word_filter (E.remove stemmer index) in
      let qualname = E.add_field (codes "qualname") bare in
      let fullname = E.add_field (codes "fullname") qualname in
      let annotation = E.add_field (codes "annotation") fullname in
      let default_value = E.add_field (codes "default_value") annotation in
      let signature = E.add_field (codes "signature") default_value in
      let bases = E.add_field (codes "bases") signature in
      let text = E.add_field (codes "doc") bases in E.set_ref (codes "fullname") text

  -- The loop over the documents.
  unfoldable pub add_docs : List E.Doc → E.Index → E.Index
  add_docs [] index = index
  add_docs (d ∷ ds) index = add_docs ds (E.add_doc d index)

  unfoldable pub search_index : Docs E → E.Index
  unfolding configure add_docs
  search_index (prebuilt p) = E.load separator p
  search_index (plain ds) = add_docs ds (configure (E.fresh separator))

  -- window.pdocSearch
  unfoldable pub pdoc_search : Docs E → Text → E.Hits
  unfolding search_index
  pdoc_search docs term = E.search (search_index docs) term search_options
