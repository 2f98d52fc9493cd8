-- ===== src/Wave/Examples.antt =====
-- Runs of `encode` and `decode`, and the theorems on them at sample values.
use desmata.Prelude.{false, true, none, some, ◌≡◌, ◌≢◌, refl}
use desmata.Prelude.Results.{ok, err, value_error, index_error, out_of_fuel, ◌>>=◌}
use desmata.Prelude.Texts.{Text, codes, all, has}
use desmata.Wave.Value.{
  pos, negsuc, name, Value, null, bool, int, float, str, list, dict, nil, cons, end, field, Runtime,
}
use desmata.Wave.Encode.{encode}
use desmata.Wave.Decode.{decode}
use desmata.Wave.Encode.{is_ident_char}
use desmata.Wave.Canonical.{IsCanonical, PrintsAsNumber, float_chars, has_key}
use desmata.Wave.RoundTrip.{decode-encode}
use desmata.Wave.Fuel.{decode-ne-out_of_fuel}

-- A runtime whose floats are natural numbers of tenths, one of which prints as a token.
abbrev plain : Runtime
plain = record {
  Float = Text;
  repr_float = λ t. t;
  float_of = λ t. some t;
  is_digit_beyond = λ c. false;
  decimal_beyond = λ c. none;
  is_space_beyond = λ c. false;
}

decode_record :
    decode plain (codes " {a: 1, b-c: [-20, true], d: \"x\\u{41}\\n\", e: some(1.5), f: 'q' }")
    ≡ ok (
        dict (
          field (name (codes "a")) (int (pos 1)) (
            field (name (codes "b-c")) (list (cons (int (negsuc 19)) (cons (bool true) nil))) (
              field (name (codes "d")) (str (codes "xA\n")) (
                field
                  (name (codes "e"))
                  (float (codes "1.5"))
                  (field (name (codes "f")) (str (codes "q")) end))))))
unfolding decode
decode_record = refl

decode_sloppy :
    decode plain (codes "[1 2,]") ≡ ok (list (cons (int (pos 1)) (cons (int (pos 2)) nil)))
unfolding decode
decode_sloppy = refl

decode_index : decode plain (codes "\"\\") ≡ err index_error
unfolding decode
decode_index = refl

decode_minus_inf : decode plain (codes "-inf") ≡ err value_error
unfolding decode
decode_minus_inf = refl

-- {count: -20, "items": [1.5, "a\"b"], deep: {x: none}}
abbrev sample : Value Text
sample = dict (
    field (name (codes "count")) (int (negsuc 19)) (
      field (name (codes "items"))
        (list (cons (float (codes "1.5")) (cons (str (codes "a\"b\n")) nil)))
        (field (name (codes "deep")) (dict (field (name (codes "x")) null end)) end)))

one_half-PrintsAsNumber : PrintsAsNumber plain (codes "1.5")
unfolding float_chars has
one_half-PrintsAsNumber = (b'1', codes ".5", refl, refl, refl, refl, refl)

sample-IsCanonical : IsCanonical plain sample
unfolding all is_ident_char has_key
sample-IsCanonical = (
  refl,
  refl,
  tt,
  (refl, refl, (one_half-PrintsAsNumber, (tt, tt)), (refl, refl, (refl, refl, tt, tt), tt)),
)

decode-encode_example : (encode plain.repr_float sample >>= decode plain) ≡ ok sample
decode-encode_example = decode-encode plain sample sample-IsCanonical

decode-ne-out_of_fuel_example : decode plain (codes "[some({a: 1e5, b") ≢ err out_of_fuel
decode-ne-out_of_fuel_example = decode-ne-out_of_fuel plain (codes "[some({a: 1e5, b")
