-- ===== src/Wave/Dicts.antt =====
-- Dictionaries that are built by assigning fresh names.
use desmata.Prelude.{Bool, false, ◌||◌, [], ◌∷◌, ◌≡◌, refl, ap, arith}
use desmata.Prelude.Texts.{Text, eq_text}
use desmata.Wave.Value.{Key, name, foreign, Value, Fields, end, field}
use desmata.Wave.Decode.{assign}
use desmata.Wave.Canonical.{AreFields, IsFresh, has_key}

or_false : (a b : Bool) → (a || b) ≡ false → (a ≡ false) × (b ≡ false)
or_false a b h = ground arith

eq_text_comm : (m n : Text) → eq_text m n ≡ false → eq_text n m ≡ false
unfolding eq_text
eq_text_comm [] [] h = h
eq_text_comm [] (d ∷ n) h = refl
eq_text_comm (c ∷ m) [] h = refl
eq_text_comm (c ∷ m) (d ∷ n) h = ground (arith, eq_text_comm m n)

module _ {F : Type 0} where
  unfoldable pub append_fields : Fields F → Fields F → Fields F
  append_fields end gs = gs
  append_fields (field k v fs) gs = field k v (append_fields fs gs)

  append_fields_assoc :
      (gs hs is : Fields F)
      → append_fields (append_fields gs hs) is ≡ append_fields gs (append_fields hs is)
  unfolding append_fields
  append_fields_assoc end hs is = refl
  append_fields_assoc (field k v gs) hs is = ap (field k v) (append_fields_assoc gs hs is)

  pub append_fields-end : (gs : Fields F) → append_fields gs end ≡ gs
  unfolding append_fields
  append_fields-end end = refl
  append_fields-end (field k v gs) = ap (field k v) (append_fields-end gs)

  pub append_fields-snoc :
      (gs fs : Fields F) (k : Key) (v : Value F)
      → append_fields (append_fields gs (field k v end)) fs ≡ append_fields gs (field k v fs)
  unfolding append_fields
  append_fields-snoc gs fs k v = append_fields_assoc gs (field k v end) fs

  -- Assigning a name that is not there appends it.
  pub assign-fresh :
      (n : Text) (v : Value F) (acc : Fields F)
      → has_key n acc ≡ false
      → assign n v acc ≡ append_fields acc (field (name n) v end)
  unfolding assign has_key append_fields
  assign-fresh n v end h = refl
  assign-fresh n v (field (name m) w fs) h = ground (arith, assign-fresh n v fs)
  assign-fresh n v (field foreign w fs) h = ap (field foreign w) (assign-fresh n v fs h)

  -- No key of the second dictionary is in the first.
  abbrev pub Apart : Fields F → Fields F → Type 0
  Apart acc end = Unit
  Apart acc (field k v fs) = IsFresh k acc × Apart acc fs

  has_key-append :
      (m n : Text) (v : Value F) (acc : Fields F)
      → has_key m acc ≡ false
      → eq_text n m ≡ false
      → has_key m (append_fields acc (field (name n) v end)) ≡ false
  unfolding has_key append_fields
  has_key-append m n v end h e = rw e
  has_key-append m n v (field (name k) w fs) h e = ground (arith, has_key-append m n v fs)
  has_key-append m n v (field foreign w fs) h e = has_key-append m n v fs h e

  pub Apart-snoc :
      (n : Text) (v : Value F) (acc fs : Fields F)
      → Apart acc fs
      → has_key n fs ≡ false
      → Apart (append_fields acc (field (name n) v end)) fs
  unfolding has_key
  Apart-snoc n v acc end h e = tt
  Apart-snoc n v acc (field foreign w fs) (h, hs) e = absurd h
  Apart-snoc n v acc (field (name m) w fs) (h, hs) e =
      let (em, es) = or_false (eq_text m n) (has_key n fs) e in
      (has_key-append m n v acc h (eq_text_comm m n em), Apart-snoc n v acc fs hs es)

  pub Apart-end : (P : F → Type 0) (fs : Fields F) → AreFields P fs → Apart end fs
  unfolding has_key
  Apart-end P end h = tt
  Apart-end P (field (name n) v fs) (hk, hf, hv, hs) = (refl, Apart-end P fs hs)
  Apart-end P (field foreign v fs) (hk, hf, hv, hs) = absurd hk
