-- ===== src/Paint/Examples.antt =====
-- Runs of src/desmata/paint.py, and the theorems on it at sample calls.
use desmata.Prelude.{
  ℕ, Option, List, [], ◌∷◌, none, some, false, map, ◌≡◌, ◌↔◌, ◌⊎◌, if◌then◌else◌, refl, arith,
}
use desmata.Prelude.Results.{Result, ok}
use desmata.Prelude.Texts.{Text, codes, eq_text, has, length}
use desmata.Wave.Value.{pos, Value, str, nil, Runtime}
use desmata.Wave.Encode.{encode_args}
use desmata.Wave.Decode.{decode}
use desmata.Provenance.{Brushstroke, Hashing}
use desmata.Provenance.Wire.{to_dict}
use desmata.Provenance.Ledger.{write, file_name, load_brushstrokes}
use desmata.Provenance.Kept.{copies}
use desmata.Paint.Values.{result_ref_value, deref_arg_value, bytes_type, string_type}
use desmata.Paint.Desk.{Desk}
use desmata.Paint.Node.{Node, is_name, ids, publish_strokes, ship_blobs, fetch_data_ref_bytes}
use desmata.Paint.Witness.{evaluates_to, witnessed_call}
use desmata.Paint.References.{Utf8, with_numbers, deref_arg_value-result_ref_value}
use desmata.Paint.Outbox.{IsSound, start, further, call, Reach-IsSound}
use desmata.Paint.Blobs.{fetch_data_ref_bytes_sound}
use desmata.Paint.Published.{as_published, PlacesAsExpected, publish_strokes-ok_iff}
use desmata.Paint.Called.{IsThere, IsX, Claims, Recorded, witnessed_call-returns}

-- A runtime whose floats are texts.
abbrev textual : Runtime
textual = record {
  Float = Text;
  repr_float = λ t. t;
  float_of = λ t. some t;
  is_digit_beyond = λ c. false;
  decimal_beyond = λ c. none;
  is_space_beyond = λ c. false;
}

-- UTF-8 on ASCII texts, and a hash that is a text itself.
abbrev plain_hashing : Hashing
plain_hashing = record { encode = λ t. t; decode = λ bs. ok bs; sha256 = λ bs. bs }

plain-Utf8 : Utf8 plain_hashing
plain-Utf8 = record { decode_encode = λ t. refl; encode_ascii = λ t h. refl }

deref_arg_value-result_ref_value_example :
    (v : Value Text) × (decode textual (codes "[7, true]") ≡ ok v)
    × (deref_arg_value plain_hashing textual (7 ∷ 1 ∷ []) (some bytes_type)
        ≡ ok (some (with_numbers v)))
unfolding result_ref_value
deref_arg_value-result_ref_value_example =
    deref_arg_value-result_ref_value plain_hashing textual plain-Utf8 (unfold eq_text in refl)
      (codes "[7, true]") bytes_type (7 ∷ 1 ∷ []) refl

abbrev empty : Desk
empty = record { ledger = []; outbox = [] }

-- A component that greets.
abbrev greeting : Text → Text → Result Text
greeting function args_wave = ok (codes "\"hi\"")

abbrev greeted : Desk
greeted =
    (witnessed_call plain_hashing textual greeting (pos 1) (9 ∷ []) (codes "greet") nil
      (some (string_type, codes "t")) none empty).1

greeted_blobs : greeted.outbox ≡ (9 ∷ [], 9 ∷ []) ∷ (codes "hi", codes "hi") ∷ []
unfolding witnessed_call
greeted_blobs = refl

empty-IsSound : IsSound plain_hashing empty
unfolding copies
empty-IsSound = ((tt, λ k. ground arith), (tt, λ k. ground arith))

Reach-IsSound_example : IsSound plain_hashing greeted
Reach-IsSound_example =
    Reach-IsSound plain_hashing {rt = textual} {s = empty} {t = greeted} empty-IsSound (
      further start (
        call empty greeting (pos 1) (9 ∷ []) (codes "greet") nil (some (string_type, codes "t"))
          none))

-- The claim that the greeting makes.
abbrev greeting_claim : Brushstroke
greeting_claim =
    evaluates_to plain_hashing textual (9 ∷ []) (codes "greet") []
      (codes "{\"hash\":\"hi\",\"suite\":\"sha256\",\"type_ref\":\"t\"}") (pos 1)

witnessed_call-returns_example :
    (args_wave raw x y : Text) × (encode_args textual.repr_float nil ≡ ok args_wave)
    × (greeting (codes "greet") args_wave ≡ ok raw)
    × (decode textual raw ≡ ok (str (codes "hi")))
    × (Recorded plain_hashing textual raw (some (string_type, codes "t")) greeted.outbox y)
    × IsX none args_wave x
    × Claims (9 ∷ []) (codes "greet") x y (pos 1) greeting_claim
    × (greeted.ledger
        ≡ write (file_name plain_hashing greeting_claim) (to_dict greeting_claim) empty.ledger)
    × IsThere (9 ∷ []) greeted.outbox
    × ((k : Text) → IsThere k empty.outbox → IsThere k greeted.outbox)
unfolding witnessed_call
witnessed_call-returns_example =
    witnessed_call-returns plain_hashing textual greeting (pos 1) (9 ∷ []) (codes "greet") nil
      (some (string_type, codes "t")) none empty greeted (str (codes "hi")) greeting_claim refl

-- A node that answers with what it is sent, and has a blob to give.
abbrev honest : Node
honest = record {
  publish = λ strokes. ok (ids plain_hashing strokes);
  put_data = λ bytes. ok (record { hash = bytes; size = some (length bytes) });
  fetch = λ digest. ok (some digest);
}

-- A disk with one file outside the outbox.
abbrev beside : Text → Result (Option (List ℕ))
beside t = if eq_text t (codes "../key") then ok (some (codes "secret")) else ok none

fetch_data_ref_bytes_sound_example :
    (plain_hashing.sha256 (codes "hi") ≡ codes "hi")
    ⊎ ((is_name (codes "hi") ≡ false) × (beside (codes "hi") ≡ ok (some (codes "hi"))))
unfolding fetch_data_ref_bytes eq_text has
fetch_data_ref_bytes_sound_example =
    fetch_data_ref_bytes_sound plain_hashing beside (some honest) ((9 ∷ [], 9 ∷ []) ∷ [])
      (codes "hi") (codes "hi") (refl, tt) refl

-- A reference whose hash leads out of the outbox gives that file's bytes.
outside :
    fetch_data_ref_bytes plain_hashing beside none [] (codes "../key") ≡ ok (some (codes "secret"))
unfolding fetch_data_ref_bytes eq_text has
outside = refl

shipped :
    ship_blobs honest ((codes "hi", codes "hi") ∷ (9 ∷ [], 9 ∷ []) ∷ [])
    ≡ ok ((9 ∷ []) ∷ codes "hi" ∷ [])
unfolding ship_blobs
shipped = refl

publish_strokes-ok_iff_example :
    (publish_strokes plain_hashing honest (codes "me") (λ m. m) greeted.ledger
      ≡ ok (as_published plain_hashing honest (codes "me") (λ m. m) greeting_claim ∷ []))
    ↔ ((bs : List Brushstroke) × (load_brushstrokes greeted.ledger ≡ ok bs)
        × (PlacesAsExpected plain_hashing honest (codes "me") (λ m. m) bs
            × ((as_published plain_hashing honest (codes "me") (λ m. m) greeting_claim ∷ [])
                ≡ map (as_published plain_hashing honest (codes "me") (λ m. m)) bs)))
publish_strokes-ok_iff_example =
    publish_strokes-ok_iff plain_hashing honest (codes "me") (λ m. m) greeted.ledger
      (as_published plain_hashing honest (codes "me") (λ m. m) greeting_claim ∷ [])
