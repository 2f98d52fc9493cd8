-- ===== src/Dumps.antt =====
-- `json.dumps(obj, separators=(",", ":"), ensure_ascii=False)`, as src/desmata/provenance.py calls it.
-- The number of a `float` is not modelled, and prints as nothing.
pub mod Read
pub mod Cancel
pub mod Injective
use desmata.Prelude.{
  ℕ, ◌+◌, ◌-◌, ◌/◌, ◌%◌, true, false, [], ◌∷◌, ◌++◌, ◌==◌, ltb, if◌then◌else◌, ◌≡◌, refl,
}
use desmata.Prelude.Texts.{Text, codes}
use desmata.Wave.Value.{ℤ, pos, negsuc}
use desmata.Wave.Numbers.{show_int}
use desmata.Wit.Values.{
  Json, Elements, Members, null, bool, int, float, text, array, object, nil, cons, end, member,
}

-- One digit of a `\u` escape.
abbrev pub hex : ℕ → ℕ
hex n = if ltb n 10 then b'0' + n else b'a' + (n - 10)

-- The escape of one character.
unfoldable pub escape_json : ℕ → Text
escape_json c =
    if c == b'"'
    then b'\\' ∷ b'"' ∷ []
    else if c == b'\\'
    then b'\\' ∷ b'\\' ∷ []
    else if c == b'\n'
    then b'\\' ∷ b'n' ∷ []
    else if c == b'\r'
    then b'\\' ∷ b'r' ∷ []
    else if c == b'\t'
    then b'\\' ∷ b't' ∷ []
    else if c == 12
    then b'\\' ∷ b'f' ∷ []
    else if c == 8
    then b'\\' ∷ b'b' ∷ []
    else if ltb c 32
    then b'\\' ∷ b'u' ∷ b'0' ∷ b'0' ∷ (b'0' + c / 16) ∷ hex (c % 16) ∷ []
    else c ∷ []

-- A string's characters and its closing quote, in front of `rest`.
unfoldable pub quote_rest : Text → Text
unfolding escape_json
quote_rest [] = b'"' ∷ []
quote_rest (c ∷ s) = escape_json c ++ quote_rest s

unfoldable pub quote : Text → Text
unfolding quote_rest
quote s = b'"' ∷ quote_rest s

-- A `\u` escape.
abbrev pub unicode_escape : ℕ → Text
unicode_escape n =
    b'\\' ∷ b'u' ∷ hex (n / 4096 % 16) ∷ hex (n / 256 % 16) ∷ hex (n / 16 % 16) ∷ hex (n % 16) ∷ []

-- The escape of one character under `ensure_ascii=True`, outside the basic plane as two surrogates.
unfoldable pub escape_ascii : ℕ → Text
unfolding escape_json
escape_ascii c =
    if ltb c 127
    then escape_json c
    else if ltb c 65536
    then unicode_escape c
    else unicode_escape (55296 + (c - 65536) / 1024 % 1024)
      ++ unicode_escape (56320 + (c - 65536) % 1024)

unfoldable pub quote_ascii_rest : Text → Text
unfolding escape_ascii
quote_ascii_rest [] = b'"' ∷ []
quote_ascii_rest (c ∷ s) = escape_ascii c ++ quote_ascii_rest s

-- json.dumps(s)
unfoldable pub quote_ascii : Text → Text
unfolding quote_ascii_rest
quote_ascii s = b'"' ∷ quote_ascii_rest s

unfoldable mutual
  unfolding quote show_int

  pub dumps : Json → Text
  dumps null = codes "null"
  dumps (bool b) = if b then codes "true" else codes "false"
  dumps (int z) = show_int z
  dumps float = []
  dumps (text t) = quote t
  dumps (array es) = b'[' ∷ dumps_elements es
  dumps (object ms) = b'{' ∷ dumps_members ms

  -- The elements and the closing bracket.
  pub dumps_elements : Elements → Text
  dumps_elements nil = b']' ∷ []
  dumps_elements (cons j es) = dumps j ++ dumps_more es

  -- The elements behind the first one.
  pub dumps_more : Elements → Text
  dumps_more nil = b']' ∷ []
  dumps_more (cons j es) = b',' ∷ (dumps j ++ dumps_more es)

  pub dumps_members : Members → Text
  dumps_members end = b'}' ∷ []
  dumps_members (member n j ms) = quote n ++ b':' ∷ (dumps j ++ dumps_later ms)

  -- The members behind the first one.
  pub dumps_later : Members → Text
  dumps_later end = b'}' ∷ []
  dumps_later (member n j ms) = b',' ∷ (quote n ++ b':' ∷ (dumps j ++ dumps_later ms))

small_object :
    dumps (
      object (
        member
          (codes "a\"")
          (array (cons (int (pos 12)) (cons null nil)))
          (member (codes "b") (text (codes "x\n")) end)))
    ≡ codes "{\"a\\\"\":[12,null],\"b\":\"x\\n\"}"
unfolding dumps
small_object = refl
