-- ===== src/Paint/References.antt =====
-- A result that travels by reference, read back.
use desmata.Prelude.{
  ℕ, ◌<◌, true, false, Option, none, some, List, [], ◌∷◌, ◌≡◌, refl, ap, sym, ltb, arith,
  Bool-cases, inl, inr,
}
use desmata.Prelude.Results.{ok, >>=-eq-ok, ok_eq, some_eq, nothing_there}
use desmata.Prelude.Texts.{Text, all, eq_text, eq_text→eq, eq_text_refl}
use desmata.Wave.Value.{pos, negsuc, Value, Items, null, bool, int, str, list, nil, cons, Runtime}
use desmata.Wave.Decode.{decode}
use desmata.Provenance.{Hashing}
use desmata.Paint.Values.{
  string_type, bytes_type, byte_of, with_byte, bytes_of, numbers, string_bytes, list_bytes,
  result_ref_value, deref_arg_value,
}

-- What the standard library documents of UTF-8.
pub record Utf8 (H : Hashing) : Type 0 where
  pub decode_encode : (t : Text) → H.decode (H.encode t) ≡ ok t
  pub encode_ascii : (t : Text) → all (λ c. ltb c 128) t ≡ true → H.encode t ≡ t

-- A value whose truth values are written as numbers, at the top of a list.
abbrev pub as_number : {F : Type 0} → Value F → Value F
as_number (bool true) = int (pos 1)
as_number (bool false) = int (pos 0)
as_number v = v

abbrev pub as_numbers : {F : Type 0} → Items F → Items F
as_numbers nil = nil
as_numbers (cons v vs) = cons (as_number v) (as_numbers vs)

abbrev pub with_numbers : {F : Type 0} → Value F → Value F
with_numbers (list vs) = list (as_numbers vs)
with_numbers v = v

-- Bytes are below 256.
abbrev pub AreBytes : List ℕ → Type 0
AreBytes [] = Unit
AreBytes (b ∷ bs) = (b < 256) × AreBytes bs

small_byte :
    {F : Type 0} (n b : ℕ)
    → n < 256
    → some n ≡ some b
    → (b < 256) × (◌≡◌ {A = Value F} (int (pos n)) (int (pos b)))
small_byte n b l h = let q = some_eq h in (rw (← q) l, ap (λ n. int (pos n)) q)

byte_of_sound :
    {F : Type 0} (v : Value F) (b : ℕ)
    → byte_of v ≡ some b
    → (b < 256) × (as_number v ≡ int (pos b))
unfolding byte_of
byte_of_sound (int (pos n)) b h = elim (Bool-cases (ltb n 256)) [
  | inl e ↦ small_byte n b (ground arith) (rw e at h)
  | inr e ↦ absurd (nothing_there (rw e at h))
]
byte_of_sound (int (negsuc n)) b h = cc
byte_of_sound (bool true) b h = small_byte 1 b (omega arith) h
byte_of_sound (bool false) b h = small_byte 0 b (omega arith) h
byte_of_sound null b h = cc
byte_of_sound _ b h = cc

with_byte_parts :
    (o : Option ℕ) (os : Option (List ℕ)) (bs : List ℕ)
    → with_byte o os ≡ some bs
    → (b : ℕ) × (cs : List ℕ) × (o ≡ some b) × (os ≡ some cs) × (bs ≡ b ∷ cs)
with_byte_parts (some b) (some cs) bs h = (b, cs, refl, refl, sym (some_eq h))
with_byte_parts (some b) none bs h = cc
with_byte_parts none os bs h = cc

-- The bytes of a list are below 256, and as numbers they are its items, truth values written as
-- numbers.
bytes_of_sound :
    {F : Type 0} (vs : Items F) (bs : List ℕ)
    → bytes_of vs ≡ some bs
    → AreBytes bs × (as_numbers vs ≡ numbers bs)
unfolding bytes_of numbers
bytes_of_sound nil bs h = rw (← some_eq h) (tt, refl)
bytes_of_sound (cons v vs) bs h =
    let (b, cs, hb, hc, e) = with_byte_parts (byte_of v) (bytes_of vs) bs h in
    let (small, same) = byte_of_sound v b hb in
    let (are, rest) = bytes_of_sound vs cs hc in rw e ((small, are), rw (same, rest) refl)

module _ (H : Hashing) (rt : Runtime) where
  string_bytes_sound :
      (v : Value rt.Float) (bs : List ℕ)
      → string_bytes H rt v ≡ some bs
      → (t : Text) × (v ≡ str t) × (bs ≡ H.encode t)
  string_bytes_sound (str t) bs h = (t, refl, sym (some_eq h))
  string_bytes_sound null bs h = cc
  string_bytes_sound _ bs h = cc

  list_bytes_sound :
      (v : Value rt.Float) (bs : List ℕ)
      → list_bytes H rt v ≡ some bs
      → AreBytes bs × (with_numbers v ≡ list (numbers bs))
  list_bytes_sound (list vs) bs h = let (are, same) = bytes_of_sound vs bs h in (are, ap list same)
  list_bytes_sound null bs h = cc
  list_bytes_sound _ bs h = cc

  deref_string :
      (u : Utf8 H) (t : Text)
      → deref_arg_value H rt (H.encode t) (some (H.sha256 (H.encode string_type)))
        ≡ ok (some (str t))
  unfolding deref_arg_value
  deref_string u t =
      rw
        (
          u.encode_ascii string_type (unfold all in refl),
          eq_text_refl (H.sha256 string_type),
          u.decode_encode t,
        )
        refl

  deref_bytes :
      (u : Utf8 H) (bs : List ℕ)
      → eq_text (H.sha256 bytes_type) (H.sha256 string_type) ≡ false
      → deref_arg_value H rt bs (some (H.sha256 (H.encode bytes_type)))
        ≡ ok (some (list (numbers bs)))
  unfolding deref_arg_value
  deref_bytes u bs h =
      rw (u.encode_ascii bytes_type (unfold all in refl), h, eq_text_refl (H.sha256 bytes_type))
        refl

  -- Whatever `result_ref_value` makes bytes of, `deref_arg_value` reads back from these bytes under
  -- the hash of the type's text: the decoded result, with truth values in a list as the numbers that
  -- they are in Python. The hashes of the two types' texts differ, and UTF-8 is as documented.
  pub deref_arg_value-result_ref_value :
      (u : Utf8 H)
      → eq_text (H.sha256 bytes_type) (H.sha256 string_type) ≡ false
      → (raw type_text : Text) (bs : List ℕ) → result_ref_value H rt raw type_text ≡ ok (some bs)
      → (v : Value rt.Float) × (decode rt raw ≡ ok v)
        × (deref_arg_value H rt bs (some (H.sha256 (H.encode type_text)))
            ≡ ok (some (with_numbers v)))
  unfolding result_ref_value
  deref_arg_value-result_ref_value u apart raw t bs h = elim (Bool-cases (eq_text t string_type)) [
    | inl e ↦
        let (v, d, q) = >>=-eq-ok (decode rt raw) (λ v. ok (string_bytes H rt v)) (rw e at h) in
        let (s, ev, eb) = string_bytes_sound v bs (ok_eq q) in
        (v, d, rw (eq_text→eq t string_type e, eb, ev) (deref_string u s))
    | inr e ↦ elim (Bool-cases (eq_text t bytes_type)) [
      | inl e' ↦
          let (v, d, q) =
            >>=-eq-ok (decode rt raw) (λ v. ok (list_bytes H rt v)) (rw (e, e') at h) in
          let (are, same) = list_bytes_sound v bs (ok_eq q) in
          (v, d, rw (eq_text→eq t bytes_type e', same) (deref_bytes u bs apart))
      | inr e' ↦ absurd (nothing_there (ok_eq (rw (e, e') at h)))
    ]
  ]
