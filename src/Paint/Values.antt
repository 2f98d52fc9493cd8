-- ===== src/Paint/Values.antt =====
-- The bytes behind a result that travels by reference: `result_ref_value` and `deref_arg_value`.
use desmata.Prelude.{ℕ, Bool, true, false, Option, none, some, List, [], ◌∷◌, ltb, if◌then◌else◌}
use desmata.Prelude.Results.{Result, ok, ◌>>=◌}
use desmata.Prelude.Texts.{Text, codes, eq_text}
use desmata.Wave.Value.{pos, negsuc, Value, Items, null, bool, int, str, list, nil, cons, Runtime}
use desmata.Wave.Decode.{decode}
use desmata.Provenance.{Hashing}

abbrev pub string_type : Text
string_type = codes "string"

abbrev pub bytes_type : Text
bytes_type = codes "list<u8>"

-- isinstance(b, int) and 0 <= b < 256, and the byte. A `bool` is an `int`.
unfoldable pub byte_of : {F : Type 0} → Value F → Option ℕ
byte_of (int (pos n)) = if ltb n 256 then some n else none
byte_of (int (negsuc n)) = none
byte_of (bool true) = some 1
byte_of (bool false) = some 0
byte_of null = none
byte_of _ = none

abbrev pub with_byte : Option ℕ → Option (List ℕ) → Option (List ℕ)
with_byte (some b) (some bs) = some (b ∷ bs)
with_byte (some b) none = none
with_byte none o = none

-- bytes(value), where every item is a byte
unfoldable pub bytes_of : {F : Type 0} → Items F → Option (List ℕ)
unfolding byte_of
bytes_of nil = some []
bytes_of (cons v vs) = with_byte (byte_of v) (bytes_of vs)

-- list(data_bytes)
unfoldable pub numbers : {F : Type 0} → List ℕ → Items F
numbers [] = nil
numbers (b ∷ bs) = cons (int (pos b)) (numbers bs)

module _ (H : Hashing) (rt : Runtime) where
  abbrev pub string_bytes : Value rt.Float → Option (List ℕ)
  string_bytes (str t) = some (H.encode t)
  string_bytes null = none
  string_bytes _ = none

  abbrev pub list_bytes : Value rt.Float → Option (List ℕ)
  list_bytes (list vs) = bytes_of vs
  list_bytes null = none
  list_bytes _ = none

  -- result_ref_value
  unfoldable pub result_ref_value : Text → Text → Result (Option (List ℕ))
  unfolding decode bytes_of
  result_ref_value wave_result result_text =
      if eq_text result_text string_type
      then (decode rt wave_result >>= λ v. ok (string_bytes v))
      else if eq_text result_text bytes_type
      then (decode rt wave_result >>= λ v. ok (list_bytes v))
      else ok none

  abbrev pub is_type : Option Text → Text → Bool
  is_type (some r) type_text = eq_text r (H.sha256 type_text)
  is_type none type_text = false

  -- deref_arg_value
  unfoldable pub deref_arg_value : List ℕ → Option Text → Result (Option (Value rt.Float))
  unfolding numbers
  deref_arg_value bytes type_ref =
      if is_type type_ref string_type
      then (H.decode bytes >>= λ t. ok (some (str t)))
      else if is_type type_ref bytes_type
      then ok (some (list (numbers bytes)))
      else ok none
