-- ===== src/Wave/Parser.antt =====
-- `decode` of src/desmata/wave.py and its `_Parser`. A parser's state is the text from its position
-- on, so `done` is the empty text, and a method that returns moves to the text it returns.
use desmata.Prelude.{
  ℕ, zero, suc, Bool, false, ◌&&◌, ◌||◌, not, Option, none, some, [], ◌∷◌, ◌++◌, ◌==◌, ltb,
  if◌then◌else◌,
}
use desmata.Prelude.Results.{
  Result, ok, err, value_error, index_error, overflow_error, out_of_fuel, ◌>>=◌,
}
use desmata.Prelude.Texts.{Text, has, length}
use desmata.Wave.Value.{ℤ, pos, negsuc, Value, int, float, Runtime}
use desmata.Wave.Numbers.{int_of, between}
use desmata.Wave.Encode.{is_ident_char}

abbrev pub Parser {ℓ} : Type ℓ → Type ℓ
Parser A = Text → Result (A × Text)

unfoldable pub is_space : ℕ → Bool
is_space c = c == b' ' || (c == b'\t' || (c == b'\r' || c == b'\n'))

unfoldable pub skip_ws : Text → Text
unfolding is_space
skip_ws [] = []
skip_ws (c ∷ s) = let rest = skip_ws s in if is_space c then rest else c ∷ s

-- self.peek() == ch
unfoldable pub peeks : ℕ → Text → Bool
peeks ch [] = false
peeks ch (c ∷ s) = c == ch

unfoldable pub expect : ℕ → Text → Result Text
expect ch [] = err value_error
expect ch (c ∷ s) = if c == ch then ok s else err value_error

-- The longest prefix of identifier characters, and the rest.
unfoldable pub ident_span : Text → Text × Text
unfolding is_ident_char
ident_span [] = ([], [])
ident_span (c ∷ s) = let r = ident_span s in if is_ident_char c then (c ∷ r.0, r.1) else ([], c ∷ s)

abbrev pub not_nothing : Text × Text → Result (Text × Text)
not_nothing ([], s) = err value_error
not_nothing (c ∷ w, s) = ok (c ∷ w, s)

unfoldable pub ident : Parser Text
unfolding ident_span
ident s = not_nothing (ident_span s)

-- _UNESCAPES.get(ch)
unfoldable pub unescape : ℕ → Option ℕ
unescape c =
    if c == b'\\'
    then some b'\\'
    else if c == b'"'
    then some b'"'
    else if c == b'n'
    then some b'\n'
    else if c == b't'
    then some b'\t'
    else if c == b'r'
    then some b'\r'
    else if c == b'\''
    then some b'\''
    else none

-- What stands before the first `}`, and what stands behind it; `str.index` raises a ValueError.
unfoldable pub to_brace : Text → Result (Text × Text)
to_brace [] = err value_error
to_brace (c ∷ s) =
    let rest = to_brace s >>= λ (w, r). ok (c ∷ w, r) in if c == b'}' then ok ([], s) else rest

-- chr(n): the interpreter reads a C int first.
unfoldable pub chr : Option ℤ → Result ℕ
chr none = err value_error
chr (some (negsuc n)) = if ltb n 0x80000000 then err value_error else err overflow_error
chr (some (pos n)) =
    if ltb n 0x110000
    then ok n
    else if ltb n 0x80000000
    then err value_error
    else err overflow_error

module _ (rt : Runtime) where
  -- str.isdigit of one character
  unfoldable pub is_digit : ℕ → Bool
  unfolding between
  is_digit c = if ltb c 128 then between b'0' b'9' c else rt.is_digit_beyond c

  -- One character of a string's body behind a backslash.
  unfoldable pub escaped : Parser ℕ
  unfolding expect to_brace int_of chr unescape
  escaped [] = err index_error
  escaped (esc ∷ s) =
      if esc == b'u'
      then (expect b'{' s >>= to_brace >>= λ (hex, r). chr (int_of rt 16 hex) >>= λ c. ok (c, r))
      else elim (unescape esc) [ some c ↦ ok (c, s) | none ↦ err value_error ]

  -- The loop of `string`; `out` is what it has read so far. Each round reads a character.
  unfoldable pub string_body : ℕ → Text → Parser Text
  unfolding escaped
  string_body zero out s = err out_of_fuel
  string_body (suc f) out [] = err value_error
  string_body (suc f) out (c ∷ s) =
      let plain = string_body f (out ++ c ∷ []) s in
      let special = escaped s >>= λ (d, r). string_body f (out ++ d ∷ []) r in
      if c == b'"' then ok (out, s) else if not (c == b'\\') then plain else special

  unfoldable pub string : Parser Text
  unfolding expect string_body
  string s = expect b'"' s >>= λ r. string_body (suc (length r)) [] r

  -- _UNESCAPES.get(esc, esc)
  abbrev pub or_itself : ℕ → Option ℕ → ℕ
  or_itself c none = c
  or_itself c (some d) = d

  -- The character of `char`, behind the opening quote.
  unfoldable pub char_body : Parser ℕ
  unfolding unescape
  char_body [] = err index_error
  char_body (c ∷ []) = if c == b'\\' then err index_error else ok (c, [])
  char_body (c ∷ d ∷ s) = if c == b'\\' then ok (or_itself d (unescape d), s) else ok (c, d ∷ s)

  unfoldable pub char : Parser Text
  unfolding expect char_body
  char s = expect b'\'' s >>= char_body >>= λ (c, r). expect b'\'' r >>= λ t. ok (c ∷ [], t)

  -- The loop of `number`, `prev` the character before the position.
  unfoldable pub number_tail : ℕ → Text → Text × Text
  unfolding is_digit
  number_tail prev [] = ([], [])
  number_tail prev (c ∷ s) =
      let r = number_tail c s in
      let sign = c == b'+' || c == b'-' in
      if (is_digit c || (sign || (c == b'.' || (c == b'e' || c == b'E'))))
        && not (sign && not (prev == b'e' || prev == b'E'))
      then (c ∷ r.0, r.1)
      else ([], c ∷ s)

  -- The token of `number`: a sign at the start, then the loop.
  unfoldable pub number_token : Text → Text × Text
  unfolding number_tail
  number_token [] = ([], [])
  number_token (c ∷ s) =
      let r = number_tail c s in
      if c == b'+' || c == b'-' then (c ∷ r.0, r.1) else number_tail b' ' (c ∷ s)

  abbrev pub Val : Type 0
  Val = Value rt.Float

  -- float(token)
  unfoldable pub float_value : Text → Result Val
  float_value t = elim (rt.float_of t) [ some x ↦ ok (float x) | none ↦ err value_error ]

  unfoldable pub number_value : Text → Result Val
  unfolding has float_value int_of
  number_value t =
      if has t b'.' || (has t b'e' || has t b'E')
      then float_value t
      else elim (int_of rt 10 t) [ some z ↦ ok (int z) | none ↦ err value_error ]

  unfoldable pub number : Parser Val
  unfolding number_token number_value
  number s = let (t, r) = number_token s in number_value t >>= λ v. ok (v, r)
