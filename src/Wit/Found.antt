-- ===== src/Wit/Found.antt =====
-- Which function `_export_ids` and `_find_function` of src/desmata/wit.py find, in the words of the JSON.
use desmata.Prelude.{
  ◌≡◌, ◌⊎◌, inl, inr, Option, none, some, List, [], ◌∷◌, ◌++◌, true, refl, sym, ◌∙◌,
}
use desmata.Prelude.Results.{nothing_there, Option-cases}
use desmata.Prelude.Texts.{Text, codes}
use desmata.Wave.Value.{ℤ}
use desmata.Wit.Values.{
  Json, Elements, Members, null, text, array, object, nil, cons, end, member, get, get_or,
  has_member, at,
}
use desmata.Wit.Signature.{int_value, id_of, export_id, ids_of, ids_under, export_ids}

-- An entry of a world's exports gives the number: it is an object, its interface is one too, and the
-- number stands there as the id.
abbrev pub IsExported : Json → ℤ → Type 0
IsExported entry i =
    (e iface : Members) × (entry ≡ object e)
    × (get (codes "interface") e ≡ object iface)
    × (int_value (get (codes "id") iface) ≡ some i)

-- The numbers that the entries give, in order; other entries give none.
abbrev pub IdsOf : Members → List ℤ → Type 0
IdsOf end ids = ids ≡ []
IdsOf (member k entry ms) ids =
    ((i : ℤ) × (rest : List ℤ) × IsExported entry i × (ids ≡ i ∷ rest) × IdsOf ms rest)
    ⊎ (((i : ℤ) → IsExported entry i → ⊥) × IdsOf ms ids)

abbrev IdsUnder : Json → List ℤ → Type 0
IdsUnder (object ms) ids = IdsOf ms ids
IdsUnder other ids = ids ≡ []

-- The ids of the interfaces that the first world exports.
abbrev pub Exports : Elements → List ℤ → Type 0
Exports nil ids = ids ≡ []
Exports (cons (object first) ws) ids = IdsUnder (get (codes "exports") first) ids
Exports (cons other ws) ids = ids ≡ []

-- The types of the parameters that are objects.
abbrev pub TypesOf : Elements → List Json → Type 0
TypesOf nil ts = ts ≡ []
TypesOf (cons (object p) ps) ts =
    (rest : List Json) × (ts ≡ get (codes "type") p ∷ rest) × TypesOf ps rest
TypesOf (cons other ps) ts = TypesOf ps ts

-- A text and an object, which Python iterates over too, hold no objects.
abbrev pub TypesIn : Json → List Json → Type 0
TypesIn (array ps) ts = TypesOf ps ts
TypesIn (object ms) ts = ts ≡ []
TypesIn (text t) ts = ts ≡ []
TypesIn other ts = ⊥

-- A function's description has these types of parameters and this result.
abbrev pub Described : Json → List Json → Json → Type 0
Described fn params result =
    (d : Members) × (fn ≡ object d)
    × TypesIn (get_or (codes "params") d (array nil)) params
    × (result ≡ get (codes "result") d)

-- The interface, where there is one, has the function, with this description.
abbrev pub Offers : Text → Option Json → Json → Type 0
Offers function o fn =
    (iface functions : Members) × (o ≡ some (object iface))
    × (get (codes "functions") iface ≡ object functions)
    × (has_member function functions ≡ true)
    × (get function functions ≡ fn)

-- No interface of these ids has the function.
abbrev pub NoneOffers : Text → Elements → List ℤ → Type 0
NoneOffers function interfaces [] = Unit
NoneOffers function interfaces (i ∷ ids) =
    ((fn : Json) → Offers function (at interfaces i) fn → ⊥) × NoneOffers function interfaces ids

-- The first interface of these ids that has the function describes it so.
abbrev pub Finds : Text → Elements → List ℤ → List Json → Json → Type 0
Finds function interfaces ids params result =
    (before after : List ℤ) × (i : ℤ) × (fn : Json) × (ids ≡ before ++ i ∷ after)
    × NoneOffers function interfaces before
    × Offers function (at interfaces i) fn
    × Described fn params result

pub no_some : {A : Type 0} {o : Option A} {a : A} → o ≡ none → o ≡ some a → ⊥
no_some p q = nothing_there (sym p ∙ q)

id_of-some :
    (j : Json) (i : ℤ)
    → id_of j ≡ some i
    → (iface : Members) × (j ≡ object iface) × (int_value (get (codes "id") iface) ≡ some i)
id_of-some (object iface) i h = (iface, refl, h)
id_of-some null i h = absurd (nothing_there h)
id_of-some _ i h = absurd (nothing_there h)

export_id-some : (entry : Json) (i : ℤ) → export_id entry ≡ some i → IsExported entry i
unfolding export_id
export_id-some (object e) i h =
    let (iface, p, q) = id_of-some (get (codes "interface") e) i h in (e, iface, refl, p, q)
export_id-some null i h = absurd (nothing_there h)
export_id-some _ i h = absurd (nothing_there h)

export_id_exported : (entry : Json) (i : ℤ) → IsExported entry i → export_id entry ≡ some i
unfolding export_id
export_id_exported entry i (e, iface, p, q, r) = rw (p, q) r

ids_of-IdsOf : (ms : Members) → IdsOf ms (ids_of ms)
unfolding ids_of
ids_of-IdsOf end = refl
ids_of-IdsOf (member k entry ms) = elim (Option-cases (export_id entry)) [
  | inl p ↦ inr (λ i x. no_some p (export_id_exported entry i x), rw p (ids_of-IdsOf ms))
  | inr (i, p) ↦ inl (i, ids_of ms, export_id-some entry i p, rw p refl, ids_of-IdsOf ms)
]

IdsOf-ids_of : (ms : Members) (ids : List ℤ) → IdsOf ms ids → ids ≡ ids_of ms
unfolding ids_of
IdsOf-ids_of end ids h = h
IdsOf-ids_of (member k entry ms) ids (inl (i, rest, x, p, h)) =
    rw (export_id_exported entry i x, p, IdsOf-ids_of ms rest h) refl
IdsOf-ids_of (member k entry ms) ids (inr (lacks, h)) = elim (Option-cases (export_id entry)) [
  | inl p ↦ rw p (IdsOf-ids_of ms ids h)
  | inr (i, p) ↦ absurd (lacks i (export_id-some entry i p))
]

ids_under-IdsUnder : (j : Json) → IdsUnder j (ids_under j)
ids_under-IdsUnder (object ms) = ids_of-IdsOf ms
ids_under-IdsUnder null = refl
ids_under-IdsUnder _ = refl

IdsUnder-ids_under : (j : Json) (ids : List ℤ) → IdsUnder j ids → ids ≡ ids_under j
IdsUnder-ids_under (object ms) ids h = IdsOf-ids_of ms ids h
IdsUnder-ids_under null ids h = h
IdsUnder-ids_under _ ids h = h

pub export_ids-Exports : (worlds : Elements) → Exports worlds (export_ids worlds)
unfolding export_ids
export_ids-Exports nil = refl
export_ids-Exports (cons (object first) ws) = ids_under-IdsUnder (get (codes "exports") first)
export_ids-Exports (cons null ws) = refl
export_ids-Exports (cons _ ws) = refl

pub Exports-export_ids :
    (worlds : Elements) (ids : List ℤ) → Exports worlds ids → ids ≡ export_ids worlds
unfolding export_ids
Exports-export_ids nil ids h = h
Exports-export_ids (cons (object first) ws) ids h =
    IdsUnder-ids_under (get (codes "exports") first) ids h
Exports-export_ids (cons null ws) ids h = h
Exports-export_ids (cons _ ws) ids h = h
