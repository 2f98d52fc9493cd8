-- ===== src/Wave/Tokens.antt =====
-- Strings, identifiers and number tokens at the front of a text.
use desmata.Prelude.{
  ℕ, zero, suc, ◌<◌, ◌≤◌, Bool, true, false, not, [], ◌∷◌, ◌++◌, ◌==◌, ◌≡◌, refl, ap, ◌∙◌,
  append-nil, append_assoc, &&_both, arith,
}
use desmata.Prelude.Results.{ok, ◌>>=◌}
use desmata.Prelude.Texts.{Text, has, all, length, length-append}
use desmata.Wave.Value.{ℤ, pos, negsuc, int, Runtime}
use desmata.Wave.Numbers.{show_nat, show_int, between}
use desmata.Wave.Encode.{escape, escape_all, is_ident_char}
use desmata.Wave.Parser.{
  string_body, escaped, unescape, string, expect, ident, ident_span, not_nothing, number,
  number_token, number_value,
}
use desmata.Wave.Decimal.{stops, show_nat-IsNumeral, number_token-show_int, int_of-show_int}

escape_all-cons : (c : ℕ) (s : Text) → escape_all (c ∷ s) ≡ escape c ++ escape_all s
unfolding escape_all
escape_all-cons c s = refl

module _ (rt : Runtime) where
  -- One round of `string` undoes one round of the escaping.
  string_body-escape :
      (f c : ℕ) (out t : Text)
      → string_body rt (suc f) out (escape c ++ t) ≡ string_body rt f (out ++ c ∷ []) t
  unfolding string_body escaped unescape escape
  string_body-escape f c out t = ground arith

  string_body-escape_all :
      (f : ℕ) (s out rest : Text)
      → length s < f
      → string_body rt f out (escape_all s ++ b'"' ∷ rest) ≡ ok (out ++ s, rest)
  string_body-escape_all zero s out rest h = elim h [ ]
  string_body-escape_all (suc f) [] out rest h = unfold string_body escape_all in rw append-nil
  string_body-escape_all (suc f) (c ∷ s) out rest h =
      rw
        (
          escape_all-cons c s,
          append_assoc (escape c) (escape_all s) (b'"' ∷ rest),
          string_body-escape f c out (escape_all s ++ b'"' ∷ rest),
        )
        (string_body-escape_all f s (out ++ c ∷ []) rest (omega arith)
          ∙ ap (λ t. ok (t, rest)) (append_assoc out (c ∷ []) s))

  length-escape : (c : ℕ) → 1 ≤ length (escape c)
  unfolding escape
  length-escape c = ground arith

  le-length-escape_all : (s : Text) → length s ≤ length (escape_all s)
  unfolding escape_all
  le-length-escape_all [] = omega arith
  le-length-escape_all (c ∷ s) =
      omega
        (arith, length-append (escape c) (escape_all s), length-escape c, le-length-escape_all s)

  -- `string` reads back what was escaped between quotes.
  pub string-escape_all :
      (s rest : Text) → string rt (b'"' ∷ ((escape_all s ++ b'"' ∷ []) ++ rest)) ≡ ok (s, rest)
  unfolding string expect
  string-escape_all s rest = rw (append_assoc (escape_all s) (b'"' ∷ []) rest) (
      string_body-escape_all (suc (length (escape_all s ++ b'"' ∷ rest))) s [] rest
        (omega (arith, length-append (escape_all s) (b'"' ∷ rest), le-length-escape_all s)))

  -- A printed integer holds no character by which `number` tells a float.
  plain-numeral :
      (s : Text) (x : ℕ)
      → all (between b'0' b'9') s ≡ true
      → between b'0' b'9' x ≡ false
      → has s x ≡ false
  unfolding has all between
  plain-numeral [] x hs hx = refl
  plain-numeral (c ∷ s) x hs hx = ground (arith, plain-numeral s x)

  plain-show_nat : (n x : ℕ) → between b'0' b'9' x ≡ false → has (show_nat n) x ≡ false
  plain-show_nat n x hx =
      let (c, s, e, hc, hs) = show_nat-IsNumeral n in
      rw e (plain-numeral (c ∷ s) x (unfold all in rw (hc, hs)) hx)

  minus_differs :
      (n x : ℕ)
      → (x == b'-') ≡ false
      → has (show_nat (suc n)) x ≡ false
      → has (show_int (negsuc n)) x ≡ false
  unfolding show_int has
  minus_differs n x hm h = rw h (ground arith)

  plain-show_int :
      (z : ℤ) (x : ℕ)
      → between b'0' b'9' x ≡ false
      → (x == b'-') ≡ false
      → has (show_int z) x ≡ false
  plain-show_int (pos n) x hx hm = unfold show_int in plain-show_nat n x hx
  plain-show_int (negsuc n) x hx hm = minus_differs n x hm (plain-show_nat (suc n) x hx)

  number_value-show_int : (z : ℤ) → number_value rt (show_int z) ≡ ok (int z)
  unfolding number_value
  number_value-show_int z = rw (
    plain-show_int z b'.' (unfold between in refl) refl,
    plain-show_int z b'e' (unfold between in refl) refl,
    plain-show_int z b'E' (unfold between in refl) refl,
    int_of-show_int rt z,
  )

  pub number_parts :
      (s t r : Text)
      → number_token rt s ≡ (t, r)
      → number rt s ≡ (number_value rt t >>= λ v. ok (v, r))
  unfolding number
  number_parts s t r h = ap (λ p. number_value rt p.0 >>= λ v. ok (v, p.1)) h

  -- `number` reads a printed integer back.
  pub number-show_int :
      (z : ℤ) (rest : Text) → stops rest ≡ true → number rt (show_int z ++ rest) ≡ ok (int z, rest)
  number-show_int z rest st =
      number_parts _ _ _ (number_token-show_int rt z rest st) ∙ rw (number_value-show_int z)

-- An identifier ends at the end of the text, and where a character follows that is none of its own.
abbrev pub ident_ends : Text → Bool
ident_ends [] = true
ident_ends (c ∷ s) = not (is_ident_char c)

ident_span-ends : (rest : Text) → ident_ends rest ≡ true → ident_span rest ≡ ([], rest)
unfolding ident_span
ident_span-ends [] h = refl
ident_span-ends (c ∷ s) h = ground arith

span_cons :
    (d : ℕ) (t w rest : Text)
    → is_ident_char d ≡ true
    → ident_span t ≡ (w, rest)
    → ident_span (d ∷ t) ≡ (d ∷ w, rest)
unfolding ident_span
span_cons d t w rest hd h = rw (h, hd)

all_cons :
    (d : ℕ) (w : Text)
    → all is_ident_char (d ∷ w) ≡ true
    → (is_ident_char d ≡ true) × (all is_ident_char w ≡ true)
unfolding all
all_cons d w h = &&_both (is_ident_char d) (all is_ident_char w) h

ident_span-append :
    (w rest : Text)
    → all is_ident_char w ≡ true
    → ident_ends rest ≡ true
    → ident_span (w ++ rest) ≡ (w, rest)
ident_span-append [] rest hw hc = ident_span-ends rest hc
ident_span-append (d ∷ w) rest hw hc =
    let (hd, ht) = all_cons d w hw in
    span_cons d (w ++ rest) w rest hd (ident_span-append w rest ht hc)

-- `ident` takes a whole identifier off a text.
pub ident-append :
    (w : Text) (d : ℕ) (rest : Text)
    → all is_ident_char (d ∷ w) ≡ true
    → ident_ends rest ≡ true
    → ident (d ∷ (w ++ rest)) ≡ ok (d ∷ w, rest)
unfolding ident
ident-append w d rest hw hc = ap not_nothing (ident_span-append (d ∷ w) rest hw hc)

pub ident_ends-stops : (rest : Text) → stops rest ≡ true → ident_ends rest ≡ true
unfolding is_ident_char between
ident_ends-stops [] h = refl
ident_ends-stops (c ∷ s) h = ground arith
