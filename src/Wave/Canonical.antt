-- ===== src/Wave/Canonical.antt =====
-- The values that WAVE text carries without loss, and the text that `encode` prints for them, written
-- out as a plain recursion.
use desmata.Prelude.{
  ℕ, Bool, true, false, ◌&&◌, ◌||◌, some, [], ◌∷◌, ◌++◌, ◌==◌, if◌then◌else◌, ◌≡◌,
}
use desmata.Prelude.Texts.{Text, codes, has, all, eq_text}
use desmata.Wave.Value.{
  Key, name, foreign, Value, Items, Fields, null, bool, int, float, str, bytes, list, tuple, dict,
  object, nil, cons, end, field, Runtime,
}
use desmata.Wave.Numbers.{between, show_int}
use desmata.Wave.Encode.{escape_all, is_ident_char, enclosed}

-- Decimal digits, a point, an exponent's mark, or a sign that follows such a mark.
unfoldable pub float_chars : ℕ → Text → Bool
unfolding between
float_chars prev [] = true
float_chars prev (c ∷ s) =
    (between b'0' b'9' c
      || (c == b'.' || (c == b'e' || ((c == b'+' || c == b'-') && prev == b'e'))))
    && float_chars c s

-- What the interpreter documents of a finite float: `repr` prints an optional minus sign, digits,
-- and a point or an exponent, and `float` reads that back.
abbrev pub PrintsAsNumber : (rt : Runtime) → rt.Float → Type 0
PrintsAsNumber rt x =
    (c : ℕ) × (s : Text) × (rt.repr_float x ≡ c ∷ s)
    × ((between b'0' b'9' c || c == b'-') ≡ true)
    × (float_chars c s ≡ true)
    × ((has (c ∷ s) b'.' || (has (c ∷ s) b'e' || has (c ∷ s) b'E')) ≡ true)
    × (rt.float_of (c ∷ s) ≡ some x)

-- Whether a dictionary has a key.
unfoldable pub has_key : {F : Type 0} → Text → Fields F → Bool
unfolding eq_text
has_key n end = false
has_key n (field (name m) v fs) = eq_text m n || has_key n fs
has_key n (field foreign v fs) = has_key n fs

-- A key that is a WIT identifier.
abbrev pub IsIdent : Key → Type 0
IsIdent foreign = ⊥
IsIdent (name []) = ⊥
IsIdent (name (c ∷ s)) = all is_ident_char (c ∷ s) ≡ true

abbrev pub IsFresh : {F : Type 0} → Key → Fields F → Type 0
IsFresh foreign fs = ⊥
IsFresh (name n) fs = has_key n fs ≡ false

-- JSON-shaped values: no bytes and no tuples (they come back as lists), floats of which `P` holds,
-- and dictionaries whose keys are distinct identifiers.
abbrev mutual
  pub IsJson : {F : Type 0} → (F → Type 0) → Value F → Type 0
  IsJson P (float x) = P x
  IsJson P (list vs) = AreJson P vs
  IsJson P (dict fs) = AreFields P fs
  IsJson P (bytes bs) = ⊥
  IsJson P (tuple vs) = ⊥
  IsJson P object = ⊥
  IsJson P _ = Unit

  pub AreJson : {F : Type 0} → (F → Type 0) → Items F → Type 0
  AreJson P nil = Unit
  AreJson P (cons v vs) = IsJson P v × AreJson P vs

  pub AreFields : {F : Type 0} → (F → Type 0) → Fields F → Type 0
  AreFields P end = Unit
  AreFields P (field k v fs) = IsIdent k × IsFresh k fs × IsJson P v × AreFields P fs

abbrev pub IsCanonical : (rt : Runtime) → Value rt.Float → Type 0
IsCanonical rt = IsJson (PrintsAsNumber rt)

abbrev pub key_text : Key → Text
key_text (name n) = n
key_text foreign = []

unfoldable mutual
  unfolding show_int escape_all

  pub render : {F : Type 0} → (F → Text) → Value F → Text
  render repr null = codes "none"
  render repr (bool b) = if b then codes "true" else codes "false"
  render repr (int z) = show_int z
  render repr (float x) = repr x
  render repr (str s) = enclosed b'"' (escape_all s) b'"'
  render repr (list vs) = enclosed b'[' (render_first repr vs) b']'
  render repr (dict fs) = enclosed b'{' (render_field repr fs) b'}'
  render repr _ = []

  pub render_first : {F : Type 0} → (F → Text) → Items F → Text
  render_first repr nil = []
  render_first repr (cons v vs) = render repr v ++ render_more repr vs

  pub render_more : {F : Type 0} → (F → Text) → Items F → Text
  render_more repr nil = []
  render_more repr (cons v vs) = b',' ∷ b' ' ∷ (render repr v ++ render_more repr vs)

  pub render_field : {F : Type 0} → (F → Text) → Fields F → Text
  render_field repr end = []
  render_field repr (field k v fs) =
      key_text k ++ b':' ∷ b' ' ∷ (render repr v ++ render_fields repr fs)

  pub render_fields : {F : Type 0} → (F → Text) → Fields F → Text
  render_fields repr end = []
  render_fields repr (field k v fs) =
      b',' ∷ b' ' ∷ (key_text k ++ b':' ∷ b' ' ∷ (render repr v ++ render_fields repr fs))
