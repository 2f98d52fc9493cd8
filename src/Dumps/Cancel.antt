-- ===== src/Dumps/Cancel.antt =====
-- How printed JSON starts, and where its numbers and strings end.
use desmata.Prelude.{
  ℕ, true, false, none, [], ◌∷◌, ◌++◌, ◌==◌, if◌then◌else◌, ◌≡◌, refl, ap, sym, ◌∙◌, arith,
  append_assoc,
}
use desmata.Prelude.Results.{Result, ok}
use desmata.Prelude.Texts.{Text}
use desmata.Wave.Value.{ℤ, pos, negsuc, Runtime, Value, int as int_value}
use desmata.Wave.Numbers.{show_int, show_nat, between}
use desmata.Wave.Decimal.{stops, show_nat-IsNumeral}
use desmata.Wave.Parser.{number}
use desmata.Wave.Tokens.{number-show_int}
use desmata.Wit.Values.{
  Json, Elements, Members, null, bool, int, float, text, array, object, nil, cons, end, member,
}
use desmata.Dumps.{quote, dumps, dumps_more, dumps_later}
use desmata.Dumps.Read.{quote_rest-cancel}

-- No float stands in the value.
abbrev mutual
  pub IsExact : Json → Type 0
  IsExact float = ⊥
  IsExact (array es) = AreExact es
  IsExact (object ms) = HasExact ms
  IsExact _ = Unit

  pub AreExact : Elements → Type 0
  AreExact nil = Unit
  AreExact (cons j es) = IsExact j × AreExact es

  pub HasExact : Members → Type 0
  HasExact end = Unit
  HasExact (member n j ms) = IsExact j × HasExact ms

abbrev pub kind : Json → ℕ
kind null = 0
kind (bool true) = 1
kind (bool false) = 8
kind (int z) = 2
kind (text t) = 3
kind (array es) = 4
kind (object ms) = 5
kind float = 6

-- The kind of a value by the first character of its text.
abbrev kind_of : Text → ℕ
kind_of [] = 6
kind_of (c ∷ s) =
    if c == b'n'
    then 0
    else if c == b't'
    then 1
    else if c == b'f'
    then 8
    else if c == b'"'
    then 3
    else if c == b'['
    then 4
    else if c == b'{'
    then 5
    else if c == b']'
    then 7
    else 2

digit_kind : (c : ℕ) (s : Text) → between b'0' b'9' c ≡ true → kind_of (c ∷ s) ≡ 2
unfolding between
digit_kind c s h = ground arith

kind_of-show_nat : (n : ℕ) (r : Text) → kind_of (show_nat n ++ r) ≡ 2
kind_of-show_nat n r = let (c, s, e, h, k) = show_nat-IsNumeral n in rw e (digit_kind c (s ++ r) h)

pub kind_of-dumps : (j : Json) (r : Text) → IsExact j → kind_of (dumps j ++ r) ≡ kind j
unfolding dumps show_int quote
kind_of-dumps null r x = refl
kind_of-dumps (bool true) r x = refl
kind_of-dumps (bool false) r x = refl
kind_of-dumps (int (pos n)) r x = kind_of-show_nat n r
kind_of-dumps (int (negsuc n)) r x = refl
kind_of-dumps float r x = absurd x
kind_of-dumps (text t) r x = refl
kind_of-dumps (array es) r x = refl
kind_of-dumps (object ms) r x = refl

pub same_kind :
    (j k : Json) (r s : Text)
    → IsExact j
    → IsExact k
    → dumps j ++ r ≡ dumps k ++ s
    → kind j ≡ kind k
same_kind j k r s x y h = sym (kind_of-dumps j r x) ∙ ap kind_of h ∙ kind_of-dumps k s y

-- A runtime with no floats.
abbrev no_floats : Runtime
no_floats = record {
  Float = Unit;
  repr_float = λ x. [];
  float_of = λ t. none;
  is_digit_beyond = λ c. false;
  decimal_beyond = λ c. none;
  is_space_beyond = λ c. false;
}

number_parts :
    {z w : ℤ} {r s : Text}
    → ◌≡◌ {A = Result (Value (Unit {0}) × Text)} (ok (int_value z, r)) (ok (int_value w, s))
    → (z ≡ w) × (r ≡ s)
number_parts p = (cc, cc)

pub show_int-cancel :
    (z w : ℤ) (r s : Text)
    → stops r ≡ true
    → stops s ≡ true
    → show_int z ++ r ≡ show_int w ++ s
    → (z ≡ w) × (r ≡ s)
show_int-cancel z w r s hr hs h = number_parts (
    sym (number-show_int no_floats z r hr)
    ∙ ap (number no_floats) h
    ∙ number-show_int no_floats w s hs)

pub quote-cancel : (s t r q : Text) → quote s ++ r ≡ quote t ++ q → (s ≡ t) × (r ≡ q)
unfolding quote
quote-cancel s t r q h = quote_rest-cancel s t r q cc

-- What follows an element or a member.
pub stops-more : (es : Elements) (r : Text) → stops (dumps_more es ++ r) ≡ true
unfolding dumps
stops-more nil r = refl
stops-more (cons j es) r = refl

pub stops-later : (ms : Members) (r : Text) → stops (dumps_later ms ++ r) ≡ true
unfolding dumps
stops-later end r = refl
stops-later (member n j ms) r = refl

pub more-cons :
    (j : Json) (es : Elements) (r : Text)
    → (dumps j ++ dumps_more es) ++ r ≡ dumps j ++ (dumps_more es ++ r)
more-cons j es r = append_assoc (dumps j) (dumps_more es) r

pub member-cons :
    (n : Text) (j : Json) (ms : Members) (r : Text)
    → (quote n ++ b':' ∷ (dumps j ++ dumps_later ms)) ++ r
      ≡ quote n ++ b':' ∷ (dumps j ++ (dumps_later ms ++ r))
member-cons n j ms r =
    append_assoc (quote n) (b':' ∷ (dumps j ++ dumps_later ms)) r
    ∙ ap (λ t. quote n ++ b':' ∷ t) (append_assoc (dumps j) (dumps_later ms) r)

pub behind : {c : ℕ} {s t : Text} → ◌≡◌ {A = Text} (c ∷ s) (c ∷ t) → s ≡ t
behind p = cc

pub not_closed : (j : Json) (s r : Text) → IsExact j → ◌≡◌ {A = Text} (b']' ∷ s) (dumps j ++ r) → ⊥
not_closed j s r x h = elsewhere j (ap kind_of h ∙ kind_of-dumps j r x)
  where
    elsewhere : (j : Json) → 7 ≡ kind j → ⊥
    elsewhere null e = cc
    elsewhere (bool true) e = cc
    elsewhere (bool false) e = cc
    elsewhere _ e = cc
