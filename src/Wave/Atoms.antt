-- ===== src/Wave/Atoms.antt =====
-- Values with no parts, and how a rendering starts.
use desmata.Prelude.{
  ℕ, suc, Bool, true, false, ◌&&◌, ◌||◌, not, some, [], ◌∷◌, ◌++◌, ◌==◌, ◌≡◌, refl, ap, ◌∙◌, sym,
  arith, &&_both,
}
use desmata.Prelude.Results.{ok, ◌>>=◌}
use desmata.Prelude.Texts.{Text, codes, has, all}
use desmata.Wave.Value.{
  ℤ, pos, negsuc, Value, Items, Fields, null, bool, int, float, str, bytes, list, tuple, dict,
  object, Runtime,
}
use desmata.Wave.Numbers.{between, show_nat, show_int}
use desmata.Wave.Encode.{escape_all, is_ident_char, enclosed}
use desmata.Wave.Parser.{
  Parser, is_space, is_digit, number, number_tail, number_token, number_value, float_value,
}
use desmata.Wave.Decode.{value_at, keyword_or_enum, keyword}
use desmata.Wave.Decimal.{stops, show_nat-IsNumeral, number_tail-stops}
use desmata.Wave.Tokens.{
  number-show_int, number_parts, string-escape_all, ident-append, ident_ends-stops,
}
use desmata.Wave.Canonical.{float_chars, PrintsAsNumber, IsCanonical, render}

-- A character at which `value` starts to read, and no loop stops.
unfoldable pub opens : ℕ → Bool
unfolding is_space
opens c = not (is_space c || (c == b',' || (c == b']' || (c == b'}' || c == b')'))))

-- A text that starts as a value does.
abbrev pub Opens : Text → Type 0
Opens t = (c : ℕ) × (s : Text) × (t ≡ c ∷ s) × (opens c ≡ true)

abbrev numeric : ℕ → Bool
numeric c = between b'0' b'9' c || c == b'-'

opens-numeric : (c : ℕ) → numeric c ≡ true → opens c ≡ true
unfolding opens between
opens-numeric c h = ground arith

-- A printed integer starts with a digit or a minus sign.
show_int_head : (z : ℤ) → (c : ℕ) × (s : Text) × (show_int z ≡ c ∷ s) × (numeric c ≡ true)
show_int_head (pos n) =
    let (c, s, e, hc, hs) = show_nat-IsNumeral n in (c, s, unfold show_int in e, rw hc)
show_int_head (negsuc n) = (b'-', show_nat (suc n), unfold show_int in refl, unfold between in refl)

pub render-Opens :
    (rt : Runtime) (v : Value rt.Float) → IsCanonical rt v → Opens (render rt.repr_float v)
unfolding render
render-Opens rt null h = (b'n', codes "one", refl, unfold opens in refl)
render-Opens rt (bool true) h = (b't', codes "rue", refl, unfold opens in refl)
render-Opens rt (bool false) h = (b'f', codes "alse", refl, unfold opens in refl)
render-Opens rt (int z) h = let (c, s, e, hc) = show_int_head z in (c, s, e, opens-numeric c hc)
render-Opens rt (float x) (c, s, e, hc, _, _, _) = (c, s, e, opens-numeric c hc)
render-Opens rt (str t) h = (b'"', escape_all t ++ b'"' ∷ [], refl, unfold opens in refl)
render-Opens rt (list vs) h = (b'[', _, refl, unfold opens in refl)
render-Opens rt (dict fs) h = (b'{', _, refl, unfold opens in refl)
render-Opens rt (bytes bs) h = absurd h
render-Opens rt (tuple vs) h = absurd h
render-Opens rt object h = absurd h

float_char : ℕ → ℕ → Bool
float_char prev c =
    between b'0' b'9' c || (c == b'.' || (c == b'e' || ((c == b'+' || c == b'-') && prev == b'e')))

float_chars_cons :
    (p c : ℕ) (s : Text)
    → float_chars p (c ∷ s) ≡ true
    → (float_char p c ≡ true) × (float_chars c s ≡ true)
unfolding float_chars float_char
float_chars_cons p c s h = &&_both (float_char p c) (float_chars c s) h

number_step :
    (rt : Runtime) (p c : ℕ) (s rest : Text)
    → float_char p c ≡ true
    → number_tail rt c (s ++ rest) ≡ (s, rest)
    → number_tail rt p (c ∷ (s ++ rest)) ≡ (c ∷ s, rest)
unfolding number_tail is_digit float_char between
number_step rt p c s rest h e = rw e (ground arith)

float_token :
    (rt : Runtime) (c : ℕ) (s rest : Text)
    → numeric c ≡ true
    → number_tail rt c (s ++ rest) ≡ (s, rest)
    → number_token rt (c ∷ (s ++ rest)) ≡ (c ∷ s, rest)
unfolding number_token number_tail is_digit between
float_token rt c s rest h e = rw e (ground arith)

float_read :
    (rt : Runtime) (t : Text) (x : rt.Float)
    → (has t b'.' || (has t b'e' || has t b'E')) ≡ true
    → rt.float_of t ≡ some x
    → number_value rt t ≡ ok (float x)
unfolding number_value float_value
float_read rt t x point reads = rw (point, float_value, reads)

module _ (rt : Runtime) where
  number_tail-float_chars :
      (p : ℕ) (s rest : Text)
      → float_chars p s ≡ true
      → stops rest ≡ true
      → number_tail rt p (s ++ rest) ≡ (s, rest)
  number_tail-float_chars p [] rest h st = number_tail-stops rt p rest st
  number_tail-float_chars p (c ∷ s) rest h st =
      let (hc, hs) = float_chars_cons p c s h in
      number_step rt p c s rest hc (number_tail-float_chars c s rest hs st)

module _ (rt : Runtime) (items : ℕ → Parser (Items rt.Float))
    (fields : Parser (Fields rt.Float)) where
  value_at-numeric :
      (c : ℕ) (s : Text) → numeric c ≡ true → value_at rt items fields (c ∷ s) ≡ number rt (c ∷ s)
  unfolding value_at is_digit between
  value_at-numeric c s h = ground arith

  pub value_at-int :
      (z : ℤ) (rest : Text)
      → stops rest ≡ true
      → value_at rt items fields (show_int z ++ rest) ≡ ok (int z, rest)
  value_at-int z rest st =
      let (c, s, e, hc) = show_int_head z in
      ap (λ t. value_at rt items fields (t ++ rest)) e
      ∙ value_at-numeric c (s ++ rest) hc
      ∙ ap (λ t. number rt (t ++ rest)) (sym e)
      ∙ number-show_int rt z rest st

  pub value_at-str :
      (t rest : Text)
      → value_at rt items fields (enclosed b'"' (escape_all t) b'"' ++ rest) ≡ ok (str t, rest)
  unfolding value_at
  value_at-str t rest = ap (λ r. r >>= λ (u, v). ok (str u, v)) (string-escape_all rt t rest)

  keyword_at :
      (w : Text) (d : ℕ) (rest : Text)
      → all is_ident_char (d ∷ w) ≡ true
      → stops rest ≡ true
      → keyword_or_enum rt (items b')') (d ∷ (w ++ rest)) ≡ keyword rt (items b')') (d ∷ w) rest
  unfolding keyword_or_enum
  keyword_at w d rest h st =
      ap (λ r. r >>= λ (u, v). keyword rt (items b')') u v)
        (ident-append w d rest h (ident_ends-stops rest st))

  pub value_at-null :
      (rest : Text)
      → stops rest ≡ true
      → value_at rt items fields (codes "none" ++ rest) ≡ ok (null, rest)
  unfolding value_at
  value_at-null rest st =
      keyword_at (codes "one") b'n' rest (unfold all is_ident_char in refl) st
      ∙ unfold keyword in refl

  pub value_at-true :
      (rest : Text)
      → stops rest ≡ true
      → value_at rt items fields (codes "true" ++ rest) ≡ ok (bool true, rest)
  unfolding value_at
  value_at-true rest st =
      keyword_at (codes "rue") b't' rest (unfold all is_ident_char in refl) st
      ∙ unfold keyword in refl

  pub value_at-false :
      (rest : Text)
      → stops rest ≡ true
      → value_at rt items fields (codes "false" ++ rest) ≡ ok (bool false, rest)
  unfolding value_at
  value_at-false rest st =
      keyword_at (codes "alse") b'f' rest (unfold all is_ident_char in refl) st
      ∙ unfold keyword in refl

  pub value_at-float :
      (x : rt.Float) (rest : Text)
      → PrintsAsNumber rt x
      → stops rest ≡ true
      → value_at rt items fields (rt.repr_float x ++ rest) ≡ ok (float x, rest)
  value_at-float x rest (c, s, e, hc, hs, point, reads) st =
      ap (λ t. value_at rt items fields (t ++ rest)) e
      ∙ value_at-numeric c (s ++ rest) hc
      ∙ number_parts rt _ _ _
          (float_token rt c s rest hc (number_tail-float_chars rt c s rest hs st))
      ∙ ap (λ v. v >>= λ v. ok (v, rest)) (float_read rt (c ∷ s) x point reads)
