-- ===== src/Wave/Numbers.antt =====
-- `repr` of an integer and `int(text, base)`, as src/desmata/wave.py uses them. The interpreter's
-- limit on the number of decimal digits is not modelled.
use desmata.Prelude.{
  ℕ, zero, suc, ◌+◌, ◌-◌, ◌*◌, ◌/◌, ◌%◌, Bool, true, false, ◌&&◌, ◌||◌, Option, none, some, [], ◌∷◌,
  map, ◌==◌, leb, ltb, if◌then◌else◌,
}
use desmata.Prelude.Texts.{Text}
use desmata.Wave.Value.{ℤ, pos, negsuc, Runtime}

-- The decimal digits of `n` in front of `out`; each round divides by ten.
unfoldable pub digits : ℕ → ℕ → Text → Text
digits zero n out = out
digits (suc f) n out =
    let more = digits f (n / 10) ((b'0' + n % 10) ∷ out) in
    if ltb n 10 then (b'0' + n) ∷ out else more

-- `n` has fewer than `n + 1` digits, so the rounds suffice.
unfoldable pub show_nat : ℕ → Text
unfolding digits
show_nat n = digits (suc n) n []

-- repr(n)
unfoldable pub show_int : ℤ → Text
unfolding show_nat
show_int (pos n) = show_nat n
show_int (negsuc n) = b'-' ∷ show_nat (suc n)

unfoldable pub between : ℕ → ℕ → ℕ → Bool
between lo hi c = leb lo c && leb c hi

-- The value of an ASCII digit or letter, if it is below the base.
unfoldable pub digit_value : ℕ → ℕ → Option ℕ
unfolding between
digit_value base c =
    let v =
      if between b'0' b'9' c
      then c - b'0'
      else if between b'a' b'z' c
      then c - b'a' + 10
      else if between b'A' b'Z' c
      then c - b'A' + 10
      else base in
    if ltb v base then some v else none

-- What was read last: nothing yet, a digit, or an underscore.
pub data Seen : Type 0 where
  start digit underscore : Seen

abbrev pub after_digit : Seen → Bool
after_digit digit = true
after_digit start = false
after_digit underscore = false

-- A run of digits, single underscores between them, with what follows it.
unfoldable pub read_digits : ℕ → ℕ → Seen → Text → Option (ℕ × Text)
read_digits base acc seen [] = if after_digit seen then some (acc, []) else none
read_digits base acc seen (c ∷ s) = elim (digit_value base c) [
  | some d ↦ read_digits base (acc * base + d) digit s
  | none ↦ elim (c == b'_' && after_digit seen) [
    | true ↦ read_digits base acc underscore s
    | false ↦ if after_digit seen then some (acc, c ∷ s) else none
  ]
]

-- The white space that `int` skips.
unfoldable pub skip_blanks : Text → Text
skip_blanks [] = []
skip_blanks (c ∷ s) =
    let rest = skip_blanks s in if leb 9 c && leb c 13 || c == b' ' then rest else c ∷ s

-- `0x` or `0X`, and one underscore behind it, in base 16.
unfoldable pub skip_prefix : ℕ → Text → Text
skip_prefix base (c ∷ x ∷ u ∷ s) =
    if (base == 16 && c == b'0') && (x == b'x' || x == b'X')
    then (if u == b'_' then s else u ∷ s)
    else c ∷ x ∷ u ∷ s
skip_prefix base (c ∷ x ∷ []) =
    if (base == 16 && c == b'0') && (x == b'x' || x == b'X') then [] else c ∷ x ∷ []
skip_prefix base s = s

-- The sign, and what follows it.
unfoldable pub read_sign : Text → Bool × Text
read_sign [] = (false, [])
read_sign (c ∷ s) =
    if c == b'-' then (true, s) else if c == b'+' then (false, s) else (false, c ∷ s)

-- minus the number, for a negative sign
unfoldable pub signed : Bool → ℕ → ℤ
signed false n = pos n
signed true zero = pos 0
signed true (suc n) = negsuc n

-- Nothing but white space may follow the digits.
unfoldable pub finish_int : Bool → Option (ℕ × Text) → Option ℤ
unfolding skip_blanks signed
finish_int minus none = none
finish_int minus (some (n, rest)) = elim (skip_blanks rest) [
  | [] ↦ some (signed minus n)
  | c ∷ s ↦ none
]

-- The interpreter first replaces each character beyond ASCII: white space by a blank, a decimal
-- digit by the ASCII digit, any other by `?`.
unfoldable pub to_ascii : Runtime → ℕ → ℕ
to_ascii rt c =
    if ltb c 128
    then c
    else if rt.is_space_beyond c
    then b' '
    else elim (rt.decimal_beyond c) [ some d ↦ b'0' + d | none ↦ b'?' ]

-- The number behind a sign.
unfoldable pub read_unsigned : ℕ → Bool × Text → Option ℤ
unfolding skip_prefix read_digits digit_value finish_int
read_unsigned base (minus, s) = finish_int minus (read_digits base 0 start (skip_prefix base s))

-- int(text, base); `none` is a ValueError.
unfoldable pub int_of : Runtime → ℕ → Text → Option ℤ
unfolding to_ascii skip_blanks read_sign read_unsigned
int_of rt base text = read_unsigned base (read_sign (skip_blanks (map (to_ascii rt) text)))
