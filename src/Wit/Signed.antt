-- ===== src/Wit/Signed.antt =====
-- What `canonical_signature` of src/desmata/wit.py returns, by the types' canonical texts.
use desmata.Wit.Texts.{Signs, signature_of-ok, signature_of_complete}
use desmata.Wit.Found.{Exports, Finds, export_ids-Exports, Exports-export_ids}
use desmata.Wit.Sought.{find_function-Finds, find_function_found}
use desmata.Wave.Value.{ℤ}
use desmata.Prelude.{ℕ, Option, none, some, List, ◌≡◌, ◌↔◌, refl, ap, ◌∙◌}
use desmata.Prelude.Results.{ok, ◌>>=◌, >>=-eq-ok, ok_eq, nothing_there}
use desmata.Prelude.Texts.{Text, codes}
use desmata.Wit.{Rendered}
use desmata.Wit.Values.{Json, Elements, Members, null, array, object, get}
use desmata.Wit.Signature.{
  export_ids, find_function, signature_of, found_signature, from_tables, from_parsed,
  canonical_signature,
}

-- What is no list of tables gives no signature.
abstained : {A : Type 0} {a : A} → ◌≡◌ {A = Rendered A} (ok none) (ok (some a)) → ⊥
abstained h = nothing_there (ok_eq h)

from_tables_parts :
    (f : ℕ) (function : Text) (w i s : Json) (x : Text × Text)
    → from_tables f function w i s ≡ ok (some x)
    → (worlds interfaces types : Elements) × (w ≡ array worlds)
      × (i ≡ array interfaces)
      × (s ≡ array types)
      × ((find_function function (export_ids worlds) interfaces >>= found_signature f types)
          ≡ ok (some x))
from_tables_parts f function (array w) (array i) (array s) x h = (w, i, s, refl, refl, refl, h)
from_tables_parts f function (array w) (array i) null x h = absurd (abstained h)
from_tables_parts f function (array w) (array i) _ x h = absurd (abstained h)
from_tables_parts f function (array w) null s x h = absurd (abstained h)
from_tables_parts f function (array w) _ s x h = absurd (abstained h)
from_tables_parts f function null i s x h = absurd (abstained h)
from_tables_parts f function _ i s x h = absurd (abstained h)

found_parts :
    (f : ℕ) (types : Elements) (o : Option (List Json × Json)) (x : Text × Text)
    → found_signature f types o ≡ ok (some x)
    → (params : List Json) × (result : Json) × (o ≡ some (params, result))
      × (signature_of f types (params, result) ≡ ok (some x))
found_parts f types none x h = absurd (abstained h)
found_parts f types (some (params, result)) x h = (params, result, refl, h)

parsed_parts :
    (f : ℕ) (function : Text) (o : Option Json) (x : Text × Text)
    → from_parsed f function o ≡ ok (some x)
    → (wit : Members) × (o ≡ some (object wit))
      × (from_tables f function
            (get (codes "worlds") wit)
            (get (codes "interfaces") wit)
            (get (codes "types") wit)
          ≡ ok (some x))
unfolding from_parsed
parsed_parts f function none x h = absurd (abstained h)
parsed_parts f function (some (object wit)) x h = (wit, refl, h)
parsed_parts f function (some null) x h = absurd (abstained h)
parsed_parts f function (some _) x h = absurd (abstained h)

-- The text parses to an object with a list of worlds, of interfaces and of types, the first interface
-- that the first world exports and that has the function describes it, and its parameters and its
-- result have the two canonical texts.
abbrev pub HasSignature : (Text → Option Json) → Text → Text → Text × Text → Type 0
HasSignature loads json_text function (p, t) =
    (wit : Members) × (worlds interfaces types : Elements) × (loads json_text ≡ some (object wit))
    × (get (codes "worlds") wit ≡ array worlds)
    × (get (codes "interfaces") wit ≡ array interfaces)
    × (get (codes "types") wit ≡ array types)
    × (ids : List ℤ) × (params : List Json) × (result : Json) × Exports worlds ids
    × Finds function interfaces ids params result
    × Signs types params result p t

module _ (loads : Text → Option Json) (json_text function : Text) (x : Text × Text) where
  signature_sound :
      (f : ℕ)
      → canonical_signature loads f json_text function ≡ ok (some x)
      → HasSignature loads json_text function x
  unfolding canonical_signature
  signature_sound f h =
      let (wit, parsed, tables) = parsed_parts f function (loads json_text) x h in
      let (worlds, interfaces, types, ew, ei, et, found) =
        from_tables_parts f function _ _ _ x tables in
      let (o, search, k) =
        >>=-eq-ok (find_function function (export_ids worlds) interfaces) (found_signature f types)
          found in
      let (params, result, eo, signed) = found_parts f types o x k in
      (
        wit,
        worlds,
        interfaces,
        types,
        parsed,
        ew,
        ei,
        et,
        export_ids worlds,
        params,
        result,
        export_ids-Exports worlds,
        find_function-Finds function interfaces _ params result (search ∙ ap ok eo),
        signature_of-ok types f params result (x.0) (x.1) signed,
      )

  signature_complete :
      HasSignature loads json_text function x
      → (f : ℕ) × (canonical_signature loads f json_text function ≡ ok (some x))
  unfolding canonical_signature from_parsed
  signature_complete
        (
          wit, worlds, interfaces, types, parsed, ew, ei, et, ids, params, result, ei', found,
          signs,
        ) =
      let (f, signed) = signature_of_complete types params result (x.0) (x.1) signs in
      let search = find_function_found function interfaces ids params result found in
      let ids' = Exports-export_ids worlds ids ei' in
      (f, rw (parsed, ew, ei, et, ← ids', search) signed)

  -- A signature's two texts are returned, with some fuel, if and only if the text parses to the tables
  -- of a world in which the first exported interface that has the function describes it, and they are
  -- the canonical texts of its parameters, one of them as it is and any other number in parentheses
  -- with commas between, and of its result, an absent one as the empty text.
  pub canonical_signature-eq-ok_iff :
      ((f : ℕ) × (canonical_signature loads f json_text function ≡ ok (some x)))
      ↔ HasSignature loads json_text function x
  canonical_signature-eq-ok_iff = (λ (f, h). signature_sound f h, signature_complete)
