-- ===== src/Wit/Sought.antt =====
-- `_find_function` of src/desmata/wit.py finds the first exported interface's function.
use desmata.Prelude.{
  ◌≡◌, inl, inr, Option, none, some, List, [], ◌∷◌, ◌++◌, true, Bool-cases, refl, ap, sym, ◌∙◌,
}
use desmata.Prelude.Results.{
  ok, >>=-eq-ok, ok_eq, some_eq, nothing_there, Option-cases, raised_returns,
}
use desmata.Prelude.Texts.{Text, codes}
use desmata.Wave.Value.{ℤ}
use desmata.Wit.Values.{
  Json, Elements, Members, null, array, object, text, nil, cons, get, get_or, has_member, at,
}
use desmata.Wit.Signature.{types_of, param_types, describe, in_table, function_in, find_function}
use desmata.Wit.Found.{TypesOf, TypesIn, Described, Offers, NoneOffers, Finds, no_some}

types_of-TypesOf : (ps : Elements) → TypesOf ps (types_of ps)
unfolding types_of
types_of-TypesOf nil = refl
types_of-TypesOf (cons (object p) ps) = (types_of ps, refl, types_of-TypesOf ps)
types_of-TypesOf (cons null ps) = types_of-TypesOf ps
types_of-TypesOf (cons _ ps) = types_of-TypesOf ps

TypesOf-types_of : (ps : Elements) (ts : List Json) → TypesOf ps ts → types_of ps ≡ ts
unfolding types_of
TypesOf-types_of nil ts h = sym h
TypesOf-types_of (cons (object p) ps) ts (rest, e, h) = rw (e, TypesOf-types_of ps rest h) refl
TypesOf-types_of (cons null ps) ts h = TypesOf-types_of ps ts h
TypesOf-types_of (cons _ ps) ts h = TypesOf-types_of ps ts h

param_types-TypesIn : (j : Json) (ts : List Json) → param_types j ≡ ok ts → TypesIn j ts
unfolding param_types
param_types-TypesIn (array ps) ts h = rw (← ok_eq h) (types_of-TypesOf ps)
param_types-TypesIn (object ms) ts h = sym (ok_eq h)
param_types-TypesIn (text t) ts h = sym (ok_eq h)
param_types-TypesIn null ts h = absurd (raised_returns h)
param_types-TypesIn _ ts h = absurd (raised_returns h)

TypesIn-param_types : (j : Json) (ts : List Json) → TypesIn j ts → param_types j ≡ ok ts
unfolding param_types
TypesIn-param_types (array ps) ts h = ap ok (TypesOf-types_of ps ts h)
TypesIn-param_types (object ms) ts h = rw h refl
TypesIn-param_types (text t) ts h = rw h refl
TypesIn-param_types null ts h = absurd h
TypesIn-param_types _ ts h = absurd h

describe-Described :
    (fn : Json) (params : List Json) (result : Json)
    → describe fn ≡ ok (params, result)
    → Described fn params result
unfolding describe
describe-Described (object d) params result h =
    let (ps, p, q) =
      >>=-eq-ok (param_types (get_or (codes "params") d (array nil)))
        (λ params. ok (params, get (codes "result") d)) h in
    (
      d,
      refl,
      param_types-TypesIn _ params (p ∙ ap (λ x. ok (x.0)) (ok_eq q)),
      ap (λ x. x.1) (sym (ok_eq q)),
    )
describe-Described null params result h = absurd (raised_returns h)
describe-Described _ params result h = absurd (raised_returns h)

describe_complete :
    (fn : Json) (params : List Json) (result : Json)
    → Described fn params result
    → describe fn ≡ ok (params, result)
unfolding describe
describe_complete fn params result (d, e, t, r) = rw (e, TypesIn-param_types _ params t, r) refl

in_table-some :
    (function : Text) (j fn : Json)
    → in_table function j ≡ some fn
    → (functions : Members) × (j ≡ object functions)
      × (has_member function functions ≡ true)
      × (get function functions ≡ fn)
in_table-some function (object ms) fn h = elim (Bool-cases (has_member function ms)) [
  | inl e ↦ (ms, refl, e, some_eq (rw e at h))
  | inr e ↦ absurd (nothing_there (rw e at h))
]
in_table-some function null fn h = absurd (nothing_there h)
in_table-some function _ fn h = absurd (nothing_there h)

function_in-some :
    (function : Text) (o : Option Json) (fn : Json)
    → function_in function o ≡ some fn
    → Offers function o fn
unfolding function_in
function_in-some function (some (object iface)) fn h =
    let (ms, p, q, r) = in_table-some function (get (codes "functions") iface) fn h in
    (iface, ms, refl, p, q, r)
function_in-some function none fn h = absurd (nothing_there h)
function_in-some function (some null) fn h = absurd (nothing_there h)
function_in-some function (some _) fn h = absurd (nothing_there h)

function_in-offered :
    (function : Text) (o : Option Json) (fn : Json)
    → Offers function o fn
    → function_in function o ≡ some fn
unfolding function_in
function_in-offered function o fn (iface, ms, p, q, r, s) = rw (p, q, r, s) refl

module _ (function : Text) (interfaces : Elements) where
  pub find_function-Finds :
      (ids : List ℤ) (params : List Json) (result : Json)
      → find_function function ids interfaces ≡ ok (some (params, result))
      → Finds function interfaces ids params result
  unfolding find_function
  find_function-Finds [] params result h = absurd (nothing_there (ok_eq h))
  find_function-Finds (i ∷ ids) params result h =
      elim (Option-cases (function_in function (at interfaces i))) [
        | inl e ↦
            let (before, after, j, fn, p, n, x, d) =
              find_function-Finds ids params result (rw e at h) in
            let lacks : (fn : Json) → Offers function (at interfaces i) fn → ⊥ =
              λ fn x. no_some e (function_in-offered function _ fn x) in
            (i ∷ before, after, j, fn, ap (λ l. i ∷ l) p, (lacks, n), x, d)
        | inr (fn, e) ↦
            let (d, p, q) = >>=-eq-ok (describe fn) (λ d. ok (some d)) (rw e at h) in
            (
              [],
              ids,
              i,
              fn,
              refl,
              tt,
              function_in-some function _ fn e,
              describe-Described fn params result (p ∙ ap ok (some_eq (ok_eq q))),
            )
      ]

  found_behind :
      (before after : List ℤ) (i : ℤ) (fn : Json) (params : List Json) (result : Json)
      → NoneOffers function interfaces before
      → Offers function (at interfaces i) fn
      → Described fn params result
      → find_function function (before ++ i ∷ after) interfaces ≡ ok (some (params, result))
  unfolding find_function
  found_behind [] after i fn params result n x d =
      rw (function_in-offered function _ fn x, describe_complete fn params result d) refl
  found_behind (j ∷ before) after i fn params result (lacks, n) x d =
      elim (Option-cases (function_in function (at interfaces j))) [
        | inl e ↦ rw e (found_behind before after i fn params result n x d)
        | inr (g, e) ↦ absurd (lacks g (function_in-some function _ g e))
      ]

  pub find_function_found :
      (ids : List ℤ) (params : List Json) (result : Json)
      → Finds function interfaces ids params result
      → find_function function ids interfaces ≡ ok (some (params, result))
  find_function_found ids params result (before, after, i, fn, p, n, x, d) =
      rw p (found_behind before after i fn params result n x d)
