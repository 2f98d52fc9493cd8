-- ===== src/Transport/Examples.antt =====
-- Runs of the order, and the theorems on it, at small closures.
use desmata.Prelude.{
  ℕ, ◌<◌, Bool, true, false, List, [], ◌∷◌, ◌≡◌, refl, arith, Bool-cases, ◌⊎◌, inl, inr, sym, ◌∙◌,
}
use desmata.Prelude.Results.{ok}
use desmata.Prelude.Texts.{Text, codes, eq_text, eq_text→eq, eq_text_refl}
use desmata.Wit.{among}
use desmata.Archive.Cell.{sorted}
use desmata.Transport.{Info, topo_order}
use desmata.Transport.Members.{HasPath, EachOnce, topo_order-EachOnce}
use desmata.Transport.Behind.{Refers, HasOneEach, IsBehind, topo_order-IsBehind}
use desmata.Content.{Hash}
use desmata.Transport.Carriage.{
  Linked, Closure, Nix, Bundler, export_closure_to_car, import_car_to_store,
}
use desmata.Transport.Arrival.{Carries, Bundles, Moves, import_car_to_store-export_closure_to_car}

-- The store paths `a` to `c`, where `a` refers to `b`, `b` to `c`, and all to themselves.
chain :
    topo_order (
      record { path = codes "a"; references = codes "a" ∷ codes "b" ∷ [] }
      ∷ record { path = codes "b"; references = codes "c" ∷ codes "b" ∷ [] }
      ∷ record { path = codes "c"; references = codes "c" ∷ [] }
      ∷ [])
    ≡ ok (codes "c" ∷ codes "b" ∷ codes "a" ∷ [])
unfolding topo_order sorted
chain = refl

abbrev cycle : List Info
cycle =
    record { path = codes "b"; references = codes "a" ∷ [] }
    ∷ record { path = codes "a"; references = codes "b" ∷ [] }
    ∷ []

cycle-topo_order : topo_order cycle ≡ ok (codes "a" ∷ codes "b" ∷ [])
unfolding topo_order sorted
cycle-topo_order = refl

topo_order-EachOnce_example : (l : List Text) × (topo_order cycle ≡ ok l) × EachOnce cycle l
topo_order-EachOnce_example = topo_order-EachOnce cycle

abbrev pair : List Info
pair =
    record { path = codes "a"; references = codes "a" ∷ codes "b" ∷ [] }
    ∷ record { path = codes "b"; references = codes "b" ∷ [] }
    ∷ []

-- `a` stands above everything else.
abbrev height : Bool → ℕ
height true = 1
height false = 0

rank : Text → ℕ
rank p = height (eq_text (codes "a") p)

unequal : (s t : Text) → eq_text s t ≡ false → s ≡ t → ⊥
unequal s t h e = let k : eq_text s t ≡ true = rw e (eq_text_refl t) in cc

pair-HasOneEach : HasOneEach pair
unfolding eq_text
pair-HasOneEach = (apart, (λ h. h, tt))
  where
    apart : (codes "b" ≡ codes "a") ⊎ ⊥ → ⊥
    apart (inl e) = unequal (codes "b") (codes "a") refl e
    apart (inr h) = h

falls : (p r : Text) → Refers pair p r → rank r < rank p
unfolding among rank eq_text
falls p r (inl (e, a), other, m) = elim (Bool-cases (eq_text (codes "a") r)) [
  | inl same ↦ absurd (other (sym (eq_text→eq (codes "a") r same) ∙ e))
  | inr apart ↦ rw (← eq_text→eq (codes "b") r (ground (arith)), ← e) (omega arith)
]
falls p r (inr (inl (e, a)), other, m) =
    absurd (other (sym (eq_text→eq (codes "b") r (ground (arith))) ∙ e))
falls p r (inr (inr h), other, m) = absurd h

topo_order-IsBehind_example : (l : List Text) × (topo_order pair ≡ ok l) × IsBehind pair l
topo_order-IsBehind_example = topo_order-IsBehind pair pair-HasOneEach rank falls

-- The one path that is exported.
abbrev first : List Text → Text
first [] = []
first (p ∷ ps) = p

-- A nix whose NAR of a path is the path itself, and whose stores list their paths.
abbrev listing : Nix
listing = record {
  Store = List Text;
  closure_info = λ s path. ok pair;
  export_closure = λ s paths. ok (first paths);
  import_closure = λ nar t. ok (nar ∷ [], nar ∷ t);
}

-- An ipfs whose CID of bytes is these bytes, and whose repository holds one document.
abbrev single : Bundler
single = record {
  Repo = Closure;
  Car = Closure;
  can_handle = λ h. true;
  add = λ b r. (b, r);
  dag_put = λ m r. ([], m);
  dag_export = λ r cid. ok r;
  dag_import = λ car r. ok car;
  dag_get = λ r cid. ok r;
  get = λ r cid. ok cid;
}

kept_links :
    (nar_of : Text → List ℕ) (r q : Closure) (es : List Linked)
    → Carries single nar_of r es
    → Carries single nar_of q es
kept_links nar_of r q [] h = tt
kept_links nar_of r q (e ∷ es) (h, hs) = (h, kept_links nar_of r q es hs)

single-Bundles : Bundles single
single-Bundles = record {
  handles = λ cid. refl;
  get-add = λ b r. refl;
  add_keeps = λ b c cid r h. h;
  dag_get-dag_put = λ m r. refl;
  dag_put_keeps = λ m c cid r h. h;
  travels = λ nar_of r cid m h c. (r, refl, λ q. (r, refl, h, c));
}

abbrev HoldsPath : List Text → Text → Type 0
HoldsPath t p = among p t ≡ true

listing-Moves : Moves listing [] pair (λ p. p) HoldsPath
unfolding among
listing-Moves = record {
  exported = λ p a. refl;
  imported = λ p t m h. (p ∷ t, refl, rw (eq_text_refl p) refl, λ q a. ground arith);
}

import_car_to_store-export_closure_to_car_example :
    (l : List Text) × (manifest : Hash) × (car : Closure) × (r₁ : Closure) × (topo_order pair
      ≡ ok l)
    × (export_closure_to_car listing single [] (codes "a") (record { root = []; paths = [] })
        ≡ ok ((manifest, car), r₁))
    × ((q : Closure) (t : List Text)
        → (q₁ : Closure) × (t₁ : List Text) × (import_car_to_store listing single car manifest q t
            ≡ ok ((l, t₁), q₁))
          × ((p : Text) → HasPath pair p → among p t₁ ≡ true))
import_car_to_store-export_closure_to_car_example =
    import_car_to_store-export_closure_to_car listing single single-Bundles [] pair (λ p. p)
      HoldsPath listing-Moves pair-HasOneEach rank falls (codes "a")
      (record { root = []; paths = [] }) refl
