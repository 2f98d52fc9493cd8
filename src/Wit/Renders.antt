-- ===== src/Wit/Renders.antt =====
-- What the renderer means, as a relation between a type reference and its text.
pub mod Sound
pub mod Ends
pub mod Complete
use Prim.Native.Nat.{max}
use desmata.Prelude.{
  ℕ, zero, suc, ◌+◌, ◌<◌, ◌≤◌, Bool, true, false, Option, none, some, List, [], ◌∷◌, ◌++◌, ◌≡◌, ◌≢◌,
  ◌↔◌, refl, ap, ◌∙◌, sym, arith, Bool-cases, inl, inr, if◌then◌else◌,
}
use desmata.Prelude.Results.{Result, ok, err, out_of_fuel, ◌>>=◌, >>=-eq-ok}
use desmata.Prelude.Texts.{Text, codes, join}
use desmata.Wave.Value.{ℤ, pos, negsuc}
use desmata.Wit.{
  Rendered, primitive, primitives, among, list_of, record_of, part, with_first, and_then,
  render_fields, render_record, render_kind, render_entry, render_ref,
}
use desmata.Wit.Values.{
  Json, Elements, Members, null, bool, int, float, text, array, object, nil, cons, end, member,
  has_member, get, at,
}

module _ (types : Elements) where
  mutual
    -- `Renders ref t`: the type that `ref` stands for has the canonical text `t`.
    pub data Renders : Json → Text → Type 0 where
      keyword : (t : Text) → among t primitives ≡ true → Renders (text t) t
      alias :
          (i : ℤ) (ms : Members) (t : Text)
          → at types i ≡ some (object ms)
          → get (codes "kind") ms ≡ text t
          → among t primitives ≡ true
          → Renders (int i) t
      list :
          (i : ℤ) (ms ks : Members) (t : Text)
          → at types i ≡ some (object ms)
          → get (codes "kind") ms ≡ object ks
          → has_member (codes "list") ks ≡ true
          → Renders (get (codes "list") ks) t
          → Renders (int i) (codes "list<" ++ (t ++ codes ">"))
      record_type :
          (i : ℤ) (ms ks rs : Members) (fs : Elements) (ps : List Text)
          → at types i ≡ some (object ms)
          → get (codes "kind") ms ≡ object ks
          → has_member (codes "list") ks ≡ false
          → get (codes "record") ks ≡ object rs
          → get (codes "fields") rs ≡ array fs
          → RendersFields fs ps
          → Renders (int i) (codes "record { " ++ (join (codes ", ") ps ++ codes " }"))

    pub data RendersFields : Elements → List Text → Type 0 where
      no_fields : RendersFields nil []
      field :
          (ms : Members) (fs : Elements) (n t : Text) (ps : List Text)
          → get (codes "name") ms ≡ text n
          → Renders (get (codes "type") ms) t
          → RendersFields fs ps
          → RendersFields (cons (object ms) fs) ((n ++ (codes ": " ++ t)) ∷ ps)
