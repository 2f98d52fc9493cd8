-- ===== src/Wit/Signature.antt =====
-- `canonical_signature` of src/desmata/wit.py and the search for the exported function.
use desmata.Prelude.{ℕ, true, false, Option, none, some, List, [], ◌∷◌, ◌++◌, if◌then◌else◌}
use desmata.Prelude.Results.{Result, ok, err, attribute_error, type_error, ◌>>=◌}
use desmata.Prelude.Texts.{Text, codes, join}
use desmata.Wave.Value.{ℤ, pos}
use desmata.Wit.{Rendered, render_ref, and_then}
use desmata.Wit.Values.{
  Json, Elements, Members, null, bool, int, text, array, object, nil, cons, end, member, has_member,
  get, get_or, at,
}

-- isinstance(value, int), of which `bool` is a subclass
abbrev pub int_value : Json → Option ℤ
int_value (int i) = some i
int_value (bool true) = some (pos 1)
int_value (bool false) = some (pos 0)
int_value other = none

abbrev pub id_of : Json → Option ℤ
id_of (object iface) = int_value (get (codes "id") iface)
id_of other = none

-- One entry of a world's exports.
unfoldable pub export_id : Json → Option ℤ
unfolding get
export_id (object entry) = id_of (get (codes "interface") entry)
export_id other = none

abbrev pub keep {ℓ} : {A : Type ℓ} → Option A → List A → List A
keep none rest = rest
keep (some a) rest = a ∷ rest

-- The loop over the values of the exports.
unfoldable pub ids_of : Members → List ℤ
unfolding export_id
ids_of end = []
ids_of (member k entry ms) = keep (export_id entry) (ids_of ms)

abbrev pub ids_under : Json → List ℤ
ids_under (object exports) = ids_of exports
ids_under other = []

-- _export_ids
unfoldable pub export_ids : Elements → List ℤ
unfolding get ids_of
export_ids nil = []
export_ids (cons (object first) ws) = ids_under (get (codes "exports") first)
export_ids (cons other ws) = []

-- What iterating over `fn.get("params", [])` yields of its objects' types; names of an object's
-- members and characters of a text are no objects.
unfoldable pub types_of : Elements → List Json
unfolding get
types_of nil = []
types_of (cons (object p) ps) = get (codes "type") p ∷ types_of ps
types_of (cons other ps) = types_of ps

unfoldable pub param_types : Json → Result (List Json)
unfolding types_of
param_types (array ps) = ok (types_of ps)
param_types (object ps) = ok []
param_types (text t) = ok []
param_types other = err type_error

-- The parameters' types and the result of a function's description.
unfoldable pub describe : Json → Result (List Json × Json)
unfolding get get_or param_types
describe (object fn) = param_types (get_or (codes "params") fn (array nil)) >>= λ params.
    ok (params, get (codes "result") fn)
describe other = err attribute_error

abbrev pub in_table : Text → Json → Option Json
in_table function (object functions) =
    if has_member function functions then some (get function functions) else none
in_table function other = none

-- The interface's description of a function, if it has one.
unfoldable pub function_in : Text → Option Json → Option Json
unfolding get has_member
function_in function (some (object iface)) = in_table function (get (codes "functions") iface)
function_in function other = none

abbrev pub or_next :
    Option Json → Result (Option (List Json × Json)) → Result (Option (List Json × Json))
or_next none rest = rest
or_next (some fn) rest = describe fn >>= λ d. ok (some d)

-- _find_function; the result is `null` where the program has `_NO_RESULT`.
unfoldable pub find_function : Text → List ℤ → Elements → Result (Option (List Json × Json))
unfolding function_in at describe
find_function function [] interfaces = ok none
find_function function (i ∷ ids) interfaces =
    or_next (function_in function (at interfaces i)) (find_function function ids interfaces)

-- The loop over the parameters.
unfoldable pub render_params : ℕ → Elements → List Json → Rendered (List Text)
unfolding and_then
render_params f types [] = ok (some [])
render_params f types (ref ∷ refs) =
    let rest = render_params f types refs in
    render_ref f types ref >>= λ t. and_then t rest (λ p ps. p ∷ ps)

-- An absent result renders to the empty text.
unfoldable pub render_result : ℕ → Elements → Json → Rendered Text
render_result f types null = ok (some [])
render_result f types ref = render_ref f types ref

-- A single parameter renders as its bare type.
unfoldable pub params_text : List Text → Text
unfolding join
params_text (t ∷ []) = t
params_text ts = codes "(" ++ (join (codes ", ") ts ++ codes ")")

-- The signature's two texts; the result is rendered only behind the parameters.
unfoldable pub signature_of : ℕ → Elements → List Json × Json → Rendered (Text × Text)
unfolding render_params render_result params_text and_then
signature_of f types (params, result) = render_params f types params >>= λ ps.
    and_then ps (render_result f types result) (λ ts t. (params_text ts, t))

abbrev pub found_signature : ℕ → Elements → Option (List Json × Json) → Rendered (Text × Text)
found_signature f types none = ok none
found_signature f types (some found) = signature_of f types found

-- The parsed text's three tables.
abbrev pub from_tables : ℕ → Text → Json → Json → Json → Rendered (Text × Text)
from_tables f function (array worlds) (array interfaces) (array types) =
    find_function function (export_ids worlds) interfaces >>= found_signature f types
from_tables f function worlds interfaces types = ok none

unfoldable pub from_parsed : ℕ → Text → Option Json → Rendered (Text × Text)
unfolding get find_function export_ids signature_of
from_parsed f function (some (object wit)) =
    from_tables f function (get (codes "worlds") wit) (get (codes "interfaces") wit)
      (get (codes "types") wit)
from_parsed f function other = ok none

-- canonical_signature; `loads` is `json.loads`, `none` its exception, and `f` the fuel for the types.
unfoldable pub canonical_signature : (Text → Option Json) → ℕ → Text → Text → Rendered (Text × Text)
unfolding from_parsed
canonical_signature loads f json_text function = from_parsed f function (loads json_text)
