-- ===== src/Dumps/Read.antt =====
-- Reading back the characters of a printed string.
use desmata.Prelude.{
  ℕ, ◌+◌, ◌-◌, ◌*◌, ◌/◌, ◌%◌, ◌<◌, Option, none, some, [], ◌∷◌, ◌++◌, ◌==◌, ltb, if◌then◌else◌, ◌≡◌,
  refl, ap, sym, ◌∙◌, arith, append_assoc,
}
use desmata.Prelude.Texts.{Text}
use desmata.Dumps.{hex, escape_json, quote_rest}

abbrev digit_of : ℕ → ℕ
digit_of d = if ltb d b'a' then d - b'0' else (d - b'a') + 10

-- What a backslash and a character stand for, but for `\u`.
abbrev plain_escape : ℕ → ℕ
plain_escape e =
    if e == b'n'
    then b'\n'
    else if e == b'r'
    then b'\r'
    else if e == b't'
    then b'\t'
    else if e == b'f'
    then 12
    else if e == b'b'
    then 8
    else e

abbrev read_hex : Text → Option (ℕ × Text)
read_hex (z ∷ y ∷ h ∷ l ∷ r) = some ((h - b'0') * 16 + digit_of l, r)
read_hex _ = none

abbrev read_escape : Text → Option (ℕ × Text)
read_escape (e ∷ r) = if e == b'u' then read_hex r else some (plain_escape e, r)
read_escape [] = none

-- The first character of a string's body, `none` at its end.
abbrev pub read_char : Text → Option (ℕ × Text)
read_char [] = none
read_char (c ∷ r) = if c == b'\\' then read_escape r else if c == b'"' then none else some (c, r)

digit_of-hex : (n : ℕ) → n < 16 → digit_of (hex n) ≡ n
digit_of-hex n h = ground arith

control : (c : ℕ) → ((b'0' + c / 16) - b'0') * 16 + digit_of (hex (c % 16)) ≡ c
control c = rw (digit_of-hex (c % 16) (omega arith)) (omega arith)

pub read_char-escape_json : (c : ℕ) (r : Text) → read_char (escape_json c ++ r) ≡ some (c, r)
unfolding escape_json
read_char-escape_json c r = ground (arith, control c)

pub quote_rest-cons :
    (c : ℕ) (s r : Text) → quote_rest (c ∷ s) ++ r ≡ escape_json c ++ (quote_rest s ++ r)
unfolding quote_rest
quote_rest-cons c s r = append_assoc (escape_json c) (quote_rest s) r

read_end : (r : Text) → read_char (quote_rest [] ++ r) ≡ none
unfolding quote_rest
read_end r = refl

some_pair :
    {c d : ℕ} {r s : Text}
    → ◌≡◌ {A = Option (ℕ × Text)} (some (c, r)) (some (d, s))
    → (c ≡ d) × (r ≡ s)
some_pair p = (cc, cc)

first_char :
    (c : ℕ) (s r : Text) → read_char (quote_rest (c ∷ s) ++ r) ≡ some (c, quote_rest s ++ r)
first_char c s r =
    ap read_char (quote_rest-cons c s r) ∙ read_char-escape_json c (quote_rest s ++ r)

apart : {x : ℕ × Text} → ◌≡◌ {A = Option (ℕ × Text)} none (some x) → ⊥
apart p = cc

-- A printed body determines the string and what follows it.
pub quote_rest-cancel : (s t r q : Text) → quote_rest s ++ r ≡ quote_rest t ++ q → (s ≡ t) × (r ≡ q)
quote_rest-cancel [] [] r q h = (refl, unfold quote_rest in cc)
quote_rest-cancel [] (d ∷ t) r q h =
    absurd (apart (sym (read_end r) ∙ ap read_char h ∙ first_char d t q))
quote_rest-cancel (c ∷ s) [] r q h =
    absurd (apart (sym (read_end q) ∙ ap read_char (sym h) ∙ first_char c s r))
quote_rest-cancel (c ∷ s) (d ∷ t) r q h =
    let (e, rest) = some_pair (sym (first_char c s r) ∙ ap read_char h ∙ first_char d t q) in
    let (es, er) = quote_rest-cancel s t r q rest in (cc, er)
