-- ===== src/Wave/Decode.antt =====
-- The recursive part of `_Parser` and `decode`, of src/desmata/wave.py.
use desmata.Prelude.{ℕ, zero, suc, ◌+◌, ◌*◌, true, false, ◌||◌, [], ◌∷◌, ◌==◌, if◌then◌else◌}
use desmata.Prelude.Results.{Result, ok, err, value_error, out_of_fuel, ◌>>=◌}
use desmata.Prelude.Texts.{Text, codes, eq_text, length}
use desmata.Wave.Value.{
  name, Value, Items, Fields, null, bool, str, list, dict, nil, cons, end, field, Runtime,
}
use desmata.Wave.Parser.{
  Parser, skip_ws, peeks, expect, ident, string, char, number, is_digit, float_value, Val,
}

-- fields[name] = value: a name that is there keeps its place.
unfoldable pub assign : {F : Type 0} → Text → Value F → Fields F → Fields F
unfolding eq_text
assign n v end = field (name n) v end
assign n v (field (name m) w fs) =
    if eq_text m n then field (name m) v fs else field (name m) w (assign n v fs)
assign n v (field k w fs) = field k w (assign n v fs)

-- A comma and the white space behind it, if a comma is there.
unfoldable pub skip_comma : Text → Text
unfolding skip_ws
skip_comma [] = []
skip_comma (c ∷ s) = if c == b',' then skip_ws s else c ∷ s

module _ (rt : Runtime) where
  -- The payload of `some(...)`; any other case with a payload is refused.
  unfoldable pub payload : Text → Items rt.Float → Result (Val rt)
  unfolding eq_text
  payload word (cons v nil) = if eq_text word (codes "some") then ok v else err value_error
  payload word vs = err value_error

  -- The last part of `keyword_or_enum`: a case with a payload, or the name of an enum's case.
  unfoldable pub case_or_enum : Parser (Items rt.Float) → Text → Parser (Val rt)
  unfolding peeks expect payload
  case_or_enum args word s =
      if peeks b'(' s
      then (expect b'(' s >>= args >>= λ (vs, u). payload word vs >>= λ v. ok (v, u))
      else ok (str word, s)

  -- What an identifier stands for.
  unfoldable pub keyword : Parser (Items rt.Float) → Text → Parser (Val rt)
  unfolding eq_text float_value skip_ws case_or_enum
  keyword args word s =
      if eq_text word (codes "true")
      then ok (bool true, s)
      else if eq_text word (codes "false")
      then ok (bool false, s)
      else if eq_text word (codes "none")
      then ok (null, s)
      else if eq_text word (codes "inf") || eq_text word (codes "nan")
      then (float_value rt word >>= λ v. ok (v, s))
      else case_or_enum args word (skip_ws s)

  -- `keyword_or_enum`, given how it reads the payload behind an opening parenthesis.
  unfoldable pub keyword_or_enum : Parser (Items rt.Float) → Parser (Val rt)
  unfolding ident keyword
  keyword_or_enum args s = ident s >>= λ (word, r). keyword args word r

  -- `value`, behind white space, given its `sequence` for each closing bracket and its `record`
  -- behind the opening brace.
  unfoldable pub value_at :
      (ℕ → Parser (Items rt.Float)) → Parser (Fields rt.Float) → Parser (Val rt)
  unfolding string char number is_digit keyword_or_enum
  value_at items fields [] = number rt []
  value_at items fields (c ∷ s) =
      if c == b'['
      then (items b']' s >>= λ (vs, r). ok (list vs, r))
      else if c == b'('
      then (items b')' s >>= λ (vs, r). ok (list vs, r))
      else if c == b'{'
      then (fields s >>= λ (fs, r). ok (dict fs, r))
      else if c == b'"'
      then (string rt (c ∷ s) >>= λ (t, r). ok (str t, r))
      else if c == b'\''
      then (char rt (c ∷ s) >>= λ (t, r). ok (str t, r))
      else if is_digit rt c || (c == b'+' || c == b'-')
      then number rt (c ∷ s)
      else keyword_or_enum (items b')') (c ∷ s)

  -- Each call costs a unit of fuel. `items` is the loop of `sequence` with its last `expect`, and
  -- `fields` the loop of `record` with its own, on the fields that it has read.
  unfoldable mutual
    unfolding value_at ident expect peeks skip_ws skip_comma assign

    pub value : ℕ → Parser (Val rt)
    value zero s = err out_of_fuel
    value (suc f) s =
        value_at (λ closing t. items f closing (skip_ws t)) (λ t. fields f end (skip_ws t))
          (skip_ws s)

    pub items : ℕ → ℕ → Parser (Items rt.Float)
    items zero closing s = err out_of_fuel
    items (suc f) closing s =
        let more = value f s >>= λ (v, r).
        items f closing (skip_comma (skip_ws r)) >>= λ (vs, u). ok (cons v vs, u) in
        if peeks closing s then (expect closing s >>= λ r. ok (nil, r)) else more

    pub fields : ℕ → Fields rt.Float → Parser (Fields rt.Float)
    fields zero acc s = err out_of_fuel
    fields (suc f) acc s =
        let more = ident s >>= λ (n, r). expect b':' (skip_ws r) >>= λ t.
        value f t >>= λ (v, u). fields f (assign n v acc) (skip_comma (skip_ws u)) in
        if peeks b'}' s then (expect b'}' s >>= λ r. ok (acc, r)) else more

  -- Only white space may follow the value.
  unfoldable pub finish : Val rt → Text → Result (Val rt)
  finish v [] = ok v
  finish v (c ∷ s) = err value_error

  -- A call of `value` on a text of length n makes calls at most 2 n deep.
  unfoldable pub decode_value : Text → Result (Val rt)
  unfolding value finish
  decode_value s = value (2 * length s + 2) s >>= λ (v, r). finish v (skip_ws r)

  -- decode(text)
  unfoldable pub decode : Text → Result (Val rt)
  unfolding skip_ws decode_value
  decode text = elim (skip_ws text) [ [] ↦ ok null | c ∷ s ↦ decode_value (c ∷ s) ]
