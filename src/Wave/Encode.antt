-- ===== src/Wave/Encode.antt =====
-- `encode` and `encode_args` of src/desmata/wave.py.
use desmata.Prelude.{ℕ, Bool, ◌||◌, List, [], ◌∷◌, ◌++◌, map, ◌==◌, if◌then◌else◌}
use desmata.Prelude.Results.{Result, ok, err, value_error, ◌>>=◌, ◌>>◌}
use desmata.Prelude.Texts.{Text, codes, all, join}
use desmata.Wave.Value.{
  Key, name, foreign, Value, Items, Fields, null, bool, int, float, str, bytes, list, tuple, dict,
  object, nil, cons, end, field,
}
use desmata.Wave.Numbers.{show_nat, show_int, between}

-- _ESCAPES.get(ch, ch)
unfoldable pub escape : ℕ → Text
escape c =
    if c == b'\\'
    then b'\\' ∷ b'\\' ∷ []
    else if c == b'"'
    then b'\\' ∷ b'"' ∷ []
    else if c == b'\n'
    then b'\\' ∷ b'n' ∷ []
    else if c == b'\t'
    then b'\\' ∷ b't' ∷ []
    else if c == b'\r'
    then b'\\' ∷ b'r' ∷ []
    else c ∷ []

unfoldable pub escape_all : Text → Text
unfolding escape
escape_all [] = []
escape_all (c ∷ s) = escape c ++ escape_all s

-- _IDENT_CHARS
unfoldable pub is_ident_char : ℕ → Bool
unfolding between
is_ident_char c =
    (between b'a' b'z' c || between b'A' b'Z' c)
    || (between b'0' b'9' c || (c == b'-' || (c == b'_' || c == b'%')))

-- The test on a record field's name, and the name.
unfoldable pub field_name : Key → Result Text
unfolding all is_ident_char
field_name foreign = err value_error
field_name (name []) = err value_error
field_name (name (c ∷ s)) = if all is_ident_char (c ∷ s) then ok (c ∷ s) else err value_error

abbrev pub separator : Text
separator = b',' ∷ b' ' ∷ []

-- f"{k}: {v}"
abbrev pub labelled : Text → Text → Text
labelled k v = k ++ b':' ∷ b' ' ∷ v

abbrev pub enclosed : ℕ → Text → ℕ → Text
enclosed opening body closing = opening ∷ (body ++ closing ∷ [])

module _ {F : Type 0} where
  -- The loop over the keys, before any value is encoded.
  unfoldable pub check_keys : Fields F → Result (Unit {0})
  unfolding field_name
  check_keys end = ok tt
  check_keys (field k v fs) = field_name k >> check_keys fs

unfoldable mutual
  unfolding escape_all show_nat show_int field_name check_keys join

  -- encode(value), given `repr` of floats.
  pub encode : {F : Type 0} → (F → Text) → Value F → Result Text
  encode repr null = ok (codes "none")
  encode repr (bool b) = ok (if b then codes "true" else codes "false")
  encode repr (int z) = ok (show_int z)
  encode repr (float x) = ok (repr x)
  encode repr (str s) = ok (enclosed b'"' (escape_all s) b'"')
  encode repr (bytes bs) = ok (enclosed b'[' (join separator (map show_nat bs)) b']')
  encode repr (list vs) = encode_each repr vs >>= λ ts. ok (enclosed b'[' (join separator ts) b']')
  encode repr (tuple vs) = encode_each repr vs >>= λ ts. ok (enclosed b'[' (join separator ts) b']')
  encode repr (dict fs) =
      check_keys fs >> (encode_fields repr fs >>= λ ts. ok (enclosed b'{' (join separator ts) b'}'))
  encode repr object = err value_error

  -- [encode(v) for v in values]
  pub encode_each : {F : Type 0} → (F → Text) → Items F → Result (List Text)
  encode_each repr nil = ok []
  encode_each repr (cons v vs) = encode repr v >>= λ t. encode_each repr vs >>= λ ts. ok (t ∷ ts)

  -- [f"{k}: {encode(v)}" for k, v in value.items()]
  pub encode_fields : {F : Type 0} → (F → Text) → Fields F → Result (List Text)
  encode_fields repr end = ok []
  encode_fields repr (field k v fs) = field_name k >>= λ n.
      encode repr v >>= λ t. encode_fields repr fs >>= λ ts. ok (labelled n t ∷ ts)

-- encode_args(args)
unfoldable pub encode_args : {F : Type 0} → (F → Text) → Items F → Result Text
unfolding encode_each join
encode_args repr args = encode_each repr args >>= λ ts. ok (join separator ts)
