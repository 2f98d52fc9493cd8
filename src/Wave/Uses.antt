-- ===== src/Wave/Uses.antt =====
-- How much of its input a parser leaves, and when it runs out of fuel.
use desmata.Prelude.{
  ℕ, zero, suc, ◌+◌, ◌<◌, ◌≤◌, Bool, true, false, ◌||◌, not, Option, none, some, [], ◌∷◌, ◌++◌,
  ◌==◌, ltb, if◌then◌else◌, ◌≡◌, ◌≢◌, refl, arith,
}
use desmata.Prelude.Results.{
  Error, Result, ok, err, ◌>>=◌, value_error, index_error, overflow_error, out_of_fuel,
}
use desmata.Prelude.Texts.{Text, has, length}
use desmata.Wave.Value.{ℤ, pos, negsuc, int, float, Runtime}
use desmata.Wave.Numbers.{int_of}
use desmata.Wave.Parser.{
  skip_ws, expect, ident, ident_span, not_nothing, to_brace, chr, unescape, escaped, string_body,
  string, char_body, char, number_tail, number_token, number_value, number, float_value, is_digit,
  Val,
}

-- A result that leaves fewer than `n` characters, or an exception of the program.
pub data Uses {ℓ} {A : Type ℓ} (rest : A → Text) (n : ℕ) : Result A → Type ℓ where
  uses : {a : A} → length (rest a) < n → Uses rest n (ok a)
  raised : {e : Error} → e ≢ out_of_fuel → Uses rest n (err e)

abbrev pub left {ℓ} : {A : Type ℓ} → A × Text → Text
left (a, r) = r

abbrev pub itself : Text → Text
itself r = r

abbrev pub nothing {ℓ} : {A : Type ℓ} → A → Text
nothing a = []

module _ {ℓ} {A : Type ℓ} {rest : A → Text} {n : ℕ} where
  pub Uses-ne-out_of_fuel : {r : Result A} → Uses rest n r → r ≢ err out_of_fuel
  Uses-ne-out_of_fuel (uses h) = cc
  Uses-ne-out_of_fuel (raised h) = λ p. h (cc)

  pub Uses-weaken : {m : ℕ} {r : Result A} → Uses rest n r → n ≤ m → Uses rest m r
  Uses-weaken (uses h) l = uses (omega arith)
  Uses-weaken (raised h) l = raised h

  pub Uses-if :
      (b : Bool) {x y : Result A}
      → (b ≡ true → Uses rest n x)
      → (b ≡ false → Uses rest n y)
      → Uses rest n (if b then x else y)
  Uses-if true hx hy = hx refl
  Uses-if false hx hy = hy refl

  pub Uses-bind {κ} :
      {B : Type κ} {rest' : B → Text} {m : ℕ} {r : Result A} {f : A → Result B}
      → Uses rest n r
      → ((a : A) → length (rest a) < n → Uses rest' m (f a))
      → Uses rest' m (r >>= f)
  Uses-bind (uses {a} h) k = k a h
  Uses-bind (raised h) k = raised h

pub value_error_ne : value_error ≢ out_of_fuel
value_error_ne = cc

index_error_ne : index_error ≢ out_of_fuel
index_error_ne = cc

overflow_error_ne : overflow_error ≢ out_of_fuel
overflow_error_ne = cc

pub length-skip_ws : (s : Text) → length (skip_ws s) ≤ length s
unfolding skip_ws
length-skip_ws [] = omega arith
length-skip_ws (c ∷ s) = ground (arith, length-skip_ws s)

pub expect-Uses : (ch : ℕ) (s : Text) → Uses itself (length s) (expect ch s)
unfolding expect
expect-Uses ch [] = raised value_error_ne
expect-Uses ch (c ∷ s) = Uses-if (c == ch) (λ h. uses (omega arith)) (λ h. raised value_error_ne)

length-ident_span : (s : Text) → length (ident_span s).0 + length (ident_span s).1 ≡ length s
unfolding ident_span
length-ident_span [] = omega arith
length-ident_span (c ∷ s) = ground (arith, length-ident_span s)

not_nothing-Uses : (w r : Text) (n : ℕ) → length w + length r ≡ n → Uses left n (not_nothing (w, r))
not_nothing-Uses [] r n h = raised value_error_ne
not_nothing-Uses (c ∷ w) r n h = uses (omega arith)

pub ident-Uses : (s : Text) → Uses left (length s) (ident s)
unfolding ident
ident-Uses s = not_nothing-Uses (ident_span s).0 (ident_span s).1 (length s) (length-ident_span s)

to_brace-Uses : (s : Text) → Uses left (length s) (to_brace s)
unfolding to_brace
to_brace-Uses [] = raised value_error_ne
to_brace-Uses (c ∷ s) =
    Uses-if (c == b'}') (λ h. uses (omega arith))
      (λ h. Uses-bind (to_brace-Uses s) λ (w, r) l. uses (omega arith))

chr-Uses : (z : Option ℤ) → Uses nothing 1 (chr z)
unfolding chr
chr-Uses none = raised value_error_ne
chr-Uses (some (pos n)) =
    Uses-if (ltb n 0x110000) (λ h. uses (omega arith))
      λ h. Uses-if (ltb n 0x80000000) (λ h. raised value_error_ne) (λ h. raised overflow_error_ne)
chr-Uses (some (negsuc n)) =
    Uses-if (ltb n 0x80000000) (λ h. raised value_error_ne) (λ h. raised overflow_error_ne)

unescape-Uses :
    (o : Option ℕ) (s : Text) (n : ℕ)
    → length s < n
    → Uses left n (elim o [ some c ↦ ok (c, s) | none ↦ err value_error ])
unescape-Uses (some c) s n h = uses h
unescape-Uses none s n h = raised value_error_ne

module _ (rt : Runtime) where
  escaped-Uses : (s : Text) → Uses left (length s) (escaped rt s)
  unfolding escaped
  escaped-Uses [] = raised index_error_ne
  escaped-Uses (esc ∷ s) =
      Uses-if (esc == b'u')
        (λ h.
          Uses-bind
            (Uses-bind {rest' = left} {m = length s} (expect-Uses b'{' s)
              λ r l. Uses-weaken (to_brace-Uses r) (omega arith))
            λ (hex, r) l. Uses-bind (chr-Uses (int_of rt 16 hex)) λ c l'. uses (omega arith))
        (λ h. unescape-Uses (unescape esc) s (suc (length s)) (omega arith))

  string_body-Uses :
      (f : ℕ) (out s : Text) → length s < f → Uses left (suc (length s)) (string_body rt f out s)
  unfolding string_body
  string_body-Uses zero out s h = absurd (omega arith)
  string_body-Uses (suc f) out [] h = raised value_error_ne
  string_body-Uses (suc f) out (c ∷ s) h =
      Uses-if (c == b'"') (λ _. uses (omega arith))
        λ _.
          Uses-if (not (c == b'\\'))
            (λ _. Uses-weaken (string_body-Uses f (out ++ c ∷ []) s (omega arith)) (omega arith))
            (λ _. Uses-bind (escaped-Uses s) λ (d, r) l.
              Uses-weaken (string_body-Uses f (out ++ d ∷ []) r (omega arith)) (omega arith))

  pub string-Uses : (s : Text) → Uses left (length s) (string rt s)
  unfolding string
  string-Uses s =
      Uses-bind (expect-Uses b'"' s)
        λ r l. Uses-weaken (string_body-Uses (suc (length r)) [] r (omega arith)) (omega arith)

  char_body-Uses : (s : Text) → Uses left (length s) (char_body rt s)
  unfolding char_body
  char_body-Uses [] = raised index_error_ne
  char_body-Uses (c ∷ []) =
      Uses-if (c == b'\\') (λ _. raised index_error_ne) (λ _. uses (omega arith))
  char_body-Uses (c ∷ d ∷ s) =
      Uses-if (c == b'\\') (λ _. uses (omega arith)) (λ _. uses (omega arith))

  pub char-Uses : (s : Text) → Uses left (length s) (char rt s)
  unfolding char
  char-Uses s =
      Uses-bind
        (Uses-bind {rest' = left} {m = length s} (expect-Uses b'\'' s)
          λ r l. Uses-weaken (char_body-Uses r) (omega arith))
        λ (c, r) l. Uses-bind (expect-Uses b'\'' r) λ t l'. uses (omega arith)

  pub float_value-Uses : (t : Text) → Uses nothing 1 (float_value rt t)
  unfolding float_value
  float_value-Uses t = of (rt.float_of t)
    where
      of :
          (o : Option rt.Float)
          → Uses nothing 1 (elim o [ some x ↦ ok (float x) | none ↦ err value_error ])
      of none = raised value_error_ne
      of (some x) = uses (omega arith)

  number_value-Uses : (t : Text) → Uses nothing 1 (number_value rt t)
  unfolding number_value
  number_value-Uses t =
      Uses-if (has t b'.' || (has t b'e' || has t b'E')) (λ _. float_value-Uses t)
        (λ _. int-Uses (int_of rt 10 t))
    where
      int-Uses :
          (o : Option ℤ)
          → Uses {A = Val rt} nothing 1 (elim o [ some z ↦ ok (int z) | none ↦ err value_error ])
      int-Uses none = raised value_error_ne
      int-Uses (some z) = uses (omega arith)

  length-number_tail : (p : ℕ) (s : Text) → length (number_tail rt p s).1 ≤ length s
  unfolding number_tail
  length-number_tail p [] = omega arith
  length-number_tail p (c ∷ s) = ground (arith, length-number_tail c s)

  number_token-lt :
      (c : ℕ) (s : Text)
      → (is_digit rt c || (c == b'+' || c == b'-')) ≡ true
      → length (number_token rt (c ∷ s)).1 < suc (length s)
  unfolding number_token number_tail
  number_token-lt c s h = ground (arith, length-number_tail c s)

  number_parts-Uses :
      (t r : Text) (n : ℕ) → length r < n → Uses left n (number_value rt t >>= λ v. ok (v, r))
  number_parts-Uses t r n h = Uses-bind (number_value-Uses t) λ v l. uses h

  pub number-Uses :
      (c : ℕ) (s : Text)
      → (is_digit rt c || (c == b'+' || c == b'-')) ≡ true
      → Uses left (suc (length s)) (number rt (c ∷ s))
  unfolding number
  number-Uses c s h = number_parts-Uses (number_token rt (c ∷ s)).0 _ _ (number_token-lt c s h)

  pub number-nil-Uses : (n : ℕ) → Uses left n (number rt [])
  unfolding number number_value int_of
  number-nil-Uses n = raised value_error_ne
