-- ===== src/Wave/Decimal.antt =====
-- Decimal integers, alone and at the front of a text.
use native.Mathlib.Omega.{arith}
use desmata.Prelude.{
  ℕ, zero, suc, ◌+◌, ◌*◌, ◌/◌, ◌%◌, ◌<◌, Bool, true, false, Bool-cases, ◌∙◌, inl, inr, ◌||◌, some,
  [], ◌∷◌, ◌++◌, map, ◌==◌, ltb, ◌≡◌, refl, ap, &&_both,
}
use desmata.Prelude.Texts.{Text, all}
use desmata.Wave.Value.{ℤ, pos, negsuc, Runtime}
use desmata.Wave.Numbers.{
  digits, show_nat, show_int, between, digit_value, Seen, start, digit, read_digits, skip_blanks,
  skip_prefix, read_sign, signed, finish_int, to_ascii, int_of, read_unsigned,
}
use desmata.Wave.Parser.{number_tail, number_token}

abbrev decimal : ℕ → Bool
decimal c = between b'0' b'9' c

digit_value-decimal : (d : ℕ) → d < 10 → digit_value 10 (b'0' + d) ≡ some d
unfolding digit_value
digit_value-decimal d h = ground arith

read_digit :
    (acc d : ℕ) (seen : Seen) (s : Text)
    → d < 10
    → read_digits 10 acc seen ((b'0' + d) ∷ s) ≡ read_digits 10 (acc * 10 + d) digit s
unfolding read_digits
read_digit acc d seen s h = rw (digit_value-decimal d h, read_digits)

zero_times : (d : ℕ) → 0 * 10 + d ≡ d
zero_times d = omega arith

read_digits-digits :
    (f n : ℕ) (out : Text)
    → n < f
    → read_digits 10 0 start (digits f n out) ≡ read_digits 10 n digit out
unfolding digits
read_digits-digits zero n out h = absurd (omega arith)
read_digits-digits (suc f) n out h = elim (Bool-cases (ltb n 10)) [
  | inl small ↦ rw small (read_digit 0 n start out (ground arith) ∙ rw zero_times)
  | inr large ↦ rw large (
      read_digits-digits f (n / 10) ((b'0' + n % 10) ∷ out) (ground arith)
      ∙ read_digit (n / 10) (n % 10) digit out (omega arith)
      ∙ ap (λ k. read_digits 10 k digit out) (omega arith))
]

all-digits : (f n : ℕ) (out : Text) → all decimal out ≡ true → all decimal (digits f n out) ≡ true
unfolding digits all between
all-digits zero n out h = h
all-digits (suc f) n out h = ground (arith, all-digits f (n / 10) ((b'0' + n % 10) ∷ out))

-- A text that is not empty.
abbrev Filled : Text → Type 0
Filled t = (c : ℕ) × (s : Text) × (t ≡ c ∷ s)

digits-Filled : (f n c : ℕ) (out : Text) → Filled (digits f n (c ∷ out))
unfolding digits
digits-Filled zero n c out = (c, out, refl)
digits-Filled (suc f) n c out = elim (Bool-cases (ltb n 10)) [
  | inl small ↦ (b'0' + n, c ∷ out, rw small)
  | inr large ↦ rw large (digits-Filled f (n / 10) (b'0' + n % 10) (c ∷ out))
]

show_nat-Filled : (n : ℕ) → Filled (show_nat n)
unfolding show_nat
show_nat-Filled n = elim (Bool-cases (ltb n 10)) [
  | inl small ↦ (b'0' + n, [], rw small)
  | inr large ↦ rw large (digits-Filled n (n / 10) (b'0' + n % 10) [])
]

all-show_nat : (n : ℕ) → all decimal (show_nat n) ≡ true
unfolding show_nat all
all-show_nat n = all-digits (suc n) n [] refl

-- A printed number starts with a decimal digit.
abbrev pub IsNumeral : Text → Type 0
IsNumeral t =
    (c : ℕ) × (s : Text) × (t ≡ c ∷ s)
    × (between b'0' b'9' c ≡ true)
    × (all (between b'0' b'9') s ≡ true)

all-cons :
    (c : ℕ) (s : Text) → all decimal (c ∷ s) ≡ true → (decimal c ≡ true) × (all decimal s ≡ true)
unfolding all
all-cons c s h = &&_both (decimal c) (all decimal s) h

cons-all : (c : ℕ) (s : Text) → decimal c ≡ true → all decimal s ≡ true → all decimal (c ∷ s) ≡ true
unfolding all
cons-all c s hc hs = rw (hc, hs)

pub show_nat-IsNumeral : (n : ℕ) → IsNumeral (show_nat n)
show_nat-IsNumeral n =
    let (c, s, e) = show_nat-Filled n in
    let (hc, hs) = all-cons c s (rw e at (all-show_nat n)) in (c, s, e, hc, hs)

-- A character at which a number, and an identifier, ends.
abbrev pub stops : Text → Bool
stops [] = true
stops (c ∷ s) = c == b',' || (c == b']' || c == b'}')

module _ (rt : Runtime) where
  to_ascii-decimal : (c : ℕ) → decimal c ≡ true → to_ascii rt c ≡ c
  unfolding to_ascii between
  to_ascii-decimal c h = ground arith

  map-to_ascii : (s : Text) → all decimal s ≡ true → map (to_ascii rt) s ≡ s
  unfolding all
  map-to_ascii [] h = refl
  map-to_ascii (c ∷ s) h =
      let (hc, hs) = &&_both (decimal c) (all decimal s) h in
      rw (to_ascii-decimal c hc, map-to_ascii s hs)

  skip_blanks-decimal : (c : ℕ) (s : Text) → decimal c ≡ true → skip_blanks (c ∷ s) ≡ c ∷ s
  unfolding skip_blanks between
  skip_blanks-decimal c s h = ground arith

  read_sign-decimal : (c : ℕ) (s : Text) → decimal c ≡ true → read_sign (c ∷ s) ≡ (false, c ∷ s)
  unfolding read_sign between
  read_sign-decimal c s h = ground arith

  skip_prefix-ten : (s : Text) → skip_prefix 10 s ≡ s
  unfolding skip_prefix
  skip_prefix-ten (c ∷ x ∷ u ∷ s) = refl
  skip_prefix-ten (c ∷ x ∷ []) = refl
  skip_prefix-ten _ = refl

  read_digits-show_nat : (n : ℕ) → read_digits 10 0 start (show_nat n) ≡ some (n, [])
  unfolding show_nat
  read_digits-show_nat n =
      read_digits-digits (suc n) n [] (omega arith) ∙ unfold read_digits in refl

  sign-numeral :
      (t : Text) → IsNumeral t → read_sign (skip_blanks (map (to_ascii rt) t)) ≡ (false, t)
  sign-numeral t (c, s, e, hc, hs) =
      rw (e, to_ascii-decimal c hc, map-to_ascii s hs, skip_blanks-decimal c s hc)
        (read_sign-decimal c s hc)

  sign-negative :
      (t : Text) → IsNumeral t → read_sign (skip_blanks (map (to_ascii rt) (b'-' ∷ t))) ≡ (true, t)
  unfolding to_ascii skip_blanks read_sign
  sign-negative t (c, s, e, hc, hs) = rw (e, to_ascii-decimal c hc, map-to_ascii s hs)

  read_unsigned-show_nat :
      (minus : Bool) (n : ℕ) → read_unsigned 10 (minus, show_nat n) ≡ some (signed minus n)
  unfolding read_unsigned finish_int
  read_unsigned-show_nat minus n =
      rw (skip_prefix-ten, read_digits-show_nat n) (unfold skip_blanks in refl)

  -- `int` reads back what `repr` prints of an integer.
  pub int_of-show_int : (z : ℤ) → int_of rt 10 (show_int z) ≡ some z
  unfolding int_of show_int
  int_of-show_int (pos n) =
      rw (sign-numeral (show_nat n) (show_nat-IsNumeral n)) (read_unsigned-show_nat false n)
  int_of-show_int (negsuc n) =
      rw (sign-negative (show_nat (suc n)) (show_nat-IsNumeral (suc n)))
        (read_unsigned-show_nat true (suc n))

  pub number_tail-stops :
      (p : ℕ) (rest : Text) → stops rest ≡ true → number_tail rt p rest ≡ ([], rest)
  unfolding number_tail
  number_tail-stops p [] h = refl
  number_tail-stops p (c ∷ s) h = ground arith

  number_tail-decimal :
      (p : ℕ) (t rest : Text)
      → all decimal t ≡ true
      → stops rest ≡ true
      → number_tail rt p (t ++ rest) ≡ (t, rest)
  unfolding number_tail all
  number_tail-decimal p [] rest h st = number_tail-stops p rest st
  number_tail-decimal p (c ∷ t) rest h st =
      let (hc, ht) = &&_both (decimal c) (all decimal t) h in
      rw (number_tail-decimal c t rest ht st) (ground arith)

  -- A digit at the start is taken by the loop.
  decimal_start :
      (d : ℕ) (u rest : Text)
      → decimal d ≡ true
      → number_tail rt d (u ++ rest) ≡ (u, rest)
      → number_token rt (d ∷ (u ++ rest)) ≡ (d ∷ u, rest)
  unfolding number_token number_tail between
  decimal_start d u rest hd ht = rw ht (ground arith)

  token-numeral :
      (t rest : Text) → IsNumeral t → stops rest ≡ true → number_token rt (t ++ rest) ≡ (t, rest)
  token-numeral t rest (c, s, e, hc, hs) st = rw e (start_of c s hc hs)
    where
      start_of :
          (d : ℕ) (u : Text)
          → decimal d ≡ true
          → all decimal u ≡ true
          → number_token rt (d ∷ (u ++ rest)) ≡ (d ∷ u, rest)
      start_of d u hd hu = decimal_start d u rest hd (number_tail-decimal d u rest hu st)

  token-negative :
      (t rest : Text)
      → IsNumeral t
      → stops rest ≡ true
      → number_token rt (b'-' ∷ (t ++ rest)) ≡ (b'-' ∷ t, rest)
  unfolding number_token
  token-negative t rest (c, s, e, hc, hs) st =
      rw (number_tail-decimal b'-' t rest (rw e (cons-all c s hc hs)) st)

  -- `number` takes a printed integer, and nothing else, off a text.
  pub number_token-show_int :
      (z : ℤ) (rest : Text)
      → stops rest ≡ true
      → number_token rt (show_int z ++ rest) ≡ (show_int z, rest)
  unfolding show_int
  number_token-show_int (pos n) rest st = token-numeral (show_nat n) rest (show_nat-IsNumeral n) st
  number_token-show_int (negsuc n) rest st =
      token-negative (show_nat (suc n)) rest (show_nat-IsNumeral (suc n)) st
