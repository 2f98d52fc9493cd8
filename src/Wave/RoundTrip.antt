-- ===== src/Wave/RoundTrip.antt =====
-- `decode` on what `encode` prints.
use desmata.Prelude.{
  ℕ, zero, suc, ◌+◌, ◌*◌, ◌<◌, true, false, List, [], ◌∷◌, ◌++◌, ◌≡◌, refl, ap, ◌∙◌, append-nil,
  append_assoc, arith,
}
use desmata.Prelude.Results.{Result, ok, err, ◌>>=◌}
use desmata.Prelude.Texts.{Text, join, length, length-append}
use desmata.Wave.Value.{
  Key, name, foreign, Value, Items, Fields, null, bool, int, float, str, bytes, list, tuple, dict,
  object, nil, cons, end, field, Runtime,
}
use desmata.Wave.Encode.{encode, encode_each, encode_args, separator, is_ident_char, enclosed}
use desmata.Wave.Parser.{Parser, skip_ws, expect}
use desmata.Wave.Decode.{value_at, value, items, fields, skip_comma, finish, decode, decode_value}
use desmata.Wave.Decimal.{stops}
use desmata.Wave.Tokens.{ident-append}
use desmata.Wave.Canonical.{
  AreJson, AreFields, IsCanonical, PrintsAsNumber, render, render_first, render_more, render_field,
  render_fields,
}
use desmata.Wave.Dicts.{
  append_fields, append_fields-snoc, append_fields-end, assign-fresh, Apart, Apart-snoc, Apart-end,
}
use desmata.Wave.Render.{encode-render}
use desmata.Wave.Atoms.{
  opens, Opens, render-Opens, value_at-int, value_at-str, value_at-null, value_at-true,
  value_at-false, value_at-float,
}
use desmata.Wave.Steps.{
  value_step, items_step, fields_step, value_blank, stops-more, stops-fields, next_item, next_field,
  length-first, length-field, skip_ws-Opens, peeks-Opens, ident_Opens, regroup, length-Opens,
}

module _ (rt : Runtime) where
  abbrev repr : rt.Float → Text
  repr = rt.repr_float

  abbrev ReadsValue : Value rt.Float → Type 0
  ReadsValue v =
      IsCanonical rt v
      → (rest : Text) (f : ℕ) → 2 * length (render repr v) < f
      → stops rest ≡ true
      → value rt f (render repr v ++ rest) ≡ ok (v, rest)

  abbrev ReadsItems : Items rt.Float → Type 0
  ReadsItems vs =
      AreJson (PrintsAsNumber rt) vs
      → (rest : Text) (f : ℕ) → suc (2 * length (render_first repr vs)) < f
      → items rt f b']' (skip_ws (render_first repr vs ++ b']' ∷ rest)) ≡ ok (vs, rest)

  abbrev ReadsFields : Fields rt.Float → Type 0
  ReadsFields fs =
      AreFields (PrintsAsNumber rt) fs
      → (acc : Fields rt.Float) (rest : Text) (f : ℕ) → Apart acc fs
      → suc (2 * length (render_field repr fs)) < f
      → fields rt f acc (skip_ws (render_field repr fs ++ b'}' ∷ rest))
        ≡ ok (append_fields acc fs, rest)

  -- A value with no parts is read in one step.
  atom_Reads :
      (v : Value rt.Float)
      → (IsCanonical rt v
          → (rest : Text) (f : ℕ) → stops rest ≡ true
          → value_at rt
              (λ closing t. items rt f closing (skip_ws t))
              (λ t. fields rt f end (skip_ws t))
              (render repr v ++ rest)
            ≡ ok (v, rest))
      → ReadsValue v
  atom_Reads v step h rest zero lt st = absurd (omega arith)
  atom_Reads v step h rest (suc f) lt st =
      value_step rt f (render repr v) rest (render-Opens rt v h) ∙ step h rest f st

  nil_Reads : ReadsItems nil
  nil_Reads h rest zero lt = absurd (omega arith)
  nil_Reads h rest (suc f) lt = unfold items render skip_ws in refl

  end_Reads : ReadsFields end
  end_Reads h acc rest zero apart lt = absurd (omega arith)
  end_Reads h acc rest (suc f) apart lt =
      rw (append_fields-end acc) (unfold fields render skip_ws in refl)

  cons_Reads :
      (v : Value rt.Float) (vs : Items rt.Float)
      → ReadsValue v
      → ReadsItems vs
      → ReadsItems (cons v vs)
  unfolding render
  cons_Reads v vs ih ihs h rest zero lt = absurd (omega arith)
  cons_Reads v vs ih ihs (hv, hs) rest (suc f) lt =
      let t = render repr v in
      let more = render_more repr vs in
      let op = render-Opens rt v hv in
      let sizes = length-append t more in
      ap (λ s. items rt (suc f) b']' (skip_ws s)) (append_assoc t more (b']' ∷ rest))
      ∙ ap (items rt (suc f) b']') (skip_ws-Opens t (more ++ b']' ∷ rest) op)
      ∙ items_step rt f b']' (t ++ (more ++ b']' ∷ rest)) (more ++ b']' ∷ rest) rest v vs
          (peeks-Opens b']' t (more ++ b']' ∷ rest) op (unfold opens in refl))
          (ih hv (more ++ b']' ∷ rest) f (omega (arith, length-Opens t op)) (stops-more rt vs rest))
          (ap (items rt f b']') (next_item rt vs rest)
            ∙ ihs hs rest f (omega (arith, length-first rt vs, length-Opens t op)))

  field_Reads :
      (k : Key) (v : Value rt.Float) (fs : Fields rt.Float)
      → ReadsValue v
      → ReadsFields fs
      → ReadsFields (field k v fs)
  unfolding render
  field_Reads k v fs ih ihs h acc rest zero apart lt = absurd (omega arith)
  field_Reads foreign v fs ih ihs (hk, hf, hv, hs) acc rest (suc f) apart lt = absurd hk
  field_Reads (name []) v fs ih ihs (hk, hf, hv, hs) acc rest (suc f) apart lt = absurd hk
  field_Reads (name (c ∷ w)) v fs ih ihs (hk, hf, hv, hs) acc rest (suc f) (fresh, apart) lt =
      let n = c ∷ w in
      let t = render repr v in
      let more = render_fields repr fs in
      let after = more ++ b'}' ∷ rest in
      let op = render-Opens rt v hv in
      let sizes = length-append n (b':' ∷ b' ' ∷ (t ++ more)) in
      let sizes' = length-append t more in
      ap (λ s. fields rt (suc f) acc (skip_ws s)) (regroup n t more (b'}' ∷ rest))
      ∙ ap (fields rt (suc f) acc)
          (skip_ws-Opens n (b':' ∷ b' ' ∷ (t ++ after)) (ident_Opens c w hk))
      ∙ fields_step rt f acc (n ++ b':' ∷ b' ' ∷ (t ++ after)) n (b':' ∷ b' ' ∷ (t ++ after))
          (b' ' ∷ (t ++ after)) after v (ok (append_fields acc (field (name n) v fs), rest))
          (peeks-Opens b'}' n (b':' ∷ b' ' ∷ (t ++ after)) (ident_Opens c w hk)
            (unfold opens in refl))
          (ident-append w c (b':' ∷ b' ' ∷ (t ++ after)) hk (unfold is_ident_char in refl))
          (unfold expect skip_ws in refl)
          (value_blank rt f (t ++ after) ∙ ih hv after f (omega arith) (stops-fields rt fs rest))
          (ap (λ r. fields rt f r (skip_comma (skip_ws after))) (assign-fresh n v acc fresh)
            ∙ ap (fields rt f (append_fields acc (field (name n) v end))) (next_field rt fs rest)
            ∙ ihs hs (append_fields acc (field (name n) v end)) rest f
                (Apart-snoc n v acc fs apart hf) (omega (arith, length-field rt fs))
            ∙ ap (λ r. ok (r, rest)) (append_fields-snoc acc fs (name n) v))

  list_at :
      (is : ℕ → Parser (Items rt.Float)) (fs : Parser (Fields rt.Float)) (vs : Items rt.Float)
      (rest : Text)
      → is b']' ((render_first repr vs ++ b']' ∷ []) ++ rest) ≡ ok (vs, rest)
      → value_at rt is fs (render repr (list vs) ++ rest) ≡ ok (list vs, rest)
  unfolding render value_at
  list_at is fs vs rest h = ap (λ r. r >>= λ (vs, r). ok (list vs, r)) h

  dict_at :
      (is : ℕ → Parser (Items rt.Float)) (fs : Parser (Fields rt.Float)) (gs : Fields rt.Float)
      (rest : Text)
      → fs ((render_field repr gs ++ b'}' ∷ []) ++ rest) ≡ ok (gs, rest)
      → value_at rt is fs (render repr (dict gs) ++ rest) ≡ ok (dict gs, rest)
  unfolding render value_at
  dict_at is fs gs rest h = ap (λ r. r >>= λ (vs, r). ok (dict vs, r)) h

  list_fuel :
      (f : ℕ) (vs : Items rt.Float)
      → 2 * length (render repr (list vs)) < suc f
      → suc (2 * length (render_first repr vs)) < f
  unfolding render
  list_fuel f vs lt = omega (arith, length-append (render_first repr vs) (b']' ∷ []))

  dict_fuel :
      (f : ℕ) (fs : Fields rt.Float)
      → 2 * length (render repr (dict fs)) < suc f
      → suc (2 * length (render_field repr fs)) < f
  unfolding render
  dict_fuel f fs lt = omega (arith, length-append (render_field repr fs) (b'}' ∷ []))

  list_Reads : (vs : Items rt.Float) → ReadsItems vs → ReadsValue (list vs)
  list_Reads vs ih h rest zero lt st = absurd (omega arith)
  list_Reads vs ih h rest (suc f) lt st =
      value_step rt f (render repr (list vs)) rest (render-Opens rt (list vs) h)
      ∙ list_at (λ closing t. items rt f closing (skip_ws t)) (λ t. fields rt f end (skip_ws t)) vs
          rest
          (ap (λ s. items rt f b']' (skip_ws s))
              (append_assoc (render_first repr vs) (b']' ∷ []) rest)
            ∙ ih h rest f (list_fuel f vs lt))

  dict_Reads : (fs : Fields rt.Float) → ReadsFields fs → ReadsValue (dict fs)
  dict_Reads fs ih h rest zero lt st = absurd (omega arith)
  dict_Reads fs ih h rest (suc f) lt st =
      value_step rt f (render repr (dict fs)) rest (render-Opens rt (dict fs) h)
      ∙ dict_at (λ closing t. items rt f closing (skip_ws t)) (λ t. fields rt f end (skip_ws t)) fs
          rest
          (ap (λ s. fields rt f end (skip_ws s))
              (append_assoc (render_field repr fs) (b'}' ∷ []) rest)
            ∙ ih h end rest f (Apart-end _ fs h) (dict_fuel f fs lt)
            ∙ unfold append_fields in refl)

  reads_all : (v : Value rt.Float) → ReadsValue v
  unfolding render
  reads_all v = elim v as ReadsValue ReadsItems ReadsFields [
    | null ↦ atom_Reads null λ h rest f st. value_at-null rt _ _ rest st
    | bool true ↦ atom_Reads (bool true) λ h rest f st. value_at-true rt _ _ rest st
    | bool false ↦ atom_Reads (bool false) λ h rest f st. value_at-false rt _ _ rest st
    | int z ↦ atom_Reads (int z) λ h rest f st. value_at-int rt _ _ z rest st
    | float x ↦ atom_Reads (float x) λ h rest f st. value_at-float rt _ _ x rest h st
    | str t ↦ atom_Reads (str t) λ h rest f st. value_at-str rt _ _ t rest
    | bytes bs ↦ λ h. absurd h
    | tuple vs ↦ λ h. absurd h
    | object ↦ λ h. absurd h
    | nil ↦ nil_Reads
    | end ↦ end_Reads
    | list (vs → ih) ↦ list_Reads vs ih
    | dict (fs → ih) ↦ dict_Reads fs ih
    | cons (w → ih) (vs → ihs) ↦ cons_Reads w vs ih ihs
    | field k (w → ih) (fs → ihs) ↦ field_Reads k w fs ih ihs
  ]

  decode_value-render :
      (v : Value rt.Float) → IsCanonical rt v → decode_value rt (render repr v) ≡ ok v
  unfolding decode_value
  decode_value-render v h =
      let t = render repr v in
      let whole = reads_all v h [] (2 * length t + 2) (omega arith) refl in
      ap (λ r. r >>= λ (v, r). finish rt v (skip_ws r)) (rw (append-nil t) at whole)
      ∙ unfold finish skip_ws in refl

  decode-Opens : (t : Text) → Opens t → decode rt t ≡ decode_value rt t
  unfolding decode opens
  decode-Opens t (c, s, e, h) = rw e (ground arith)

  -- Decoding what `encode` prints of a JSON-shaped value gives that value. Its dictionaries have
  -- distinct keys that are WIT identifiers, and its floats print as the interpreter documents.
  pub decode-encode :
      (v : Value rt.Float) → IsCanonical rt v → (encode rt.repr_float v >>= decode rt) ≡ ok v
  decode-encode v h =
      ap (λ r. r >>= decode rt) (encode-render repr (PrintsAsNumber rt) v h)
      ∙ decode-Opens (render repr v) (render-Opens rt v h)
      ∙ decode_value-render v h

  -- The argument list that `encode_args` prints, between brackets, decodes to the list of the
  -- arguments, where these are JSON-shaped.
  decode-encode_args :
      (vs : Items rt.Float)
      → AreJson (PrintsAsNumber rt) vs
      → (encode_args rt.repr_float vs >>= λ t. decode rt (enclosed b'[' t b']')) ≡ ok (list vs)
  unfolding encode encode_args
  decode-encode_args vs h = encode_args_list vs ∙ decode-encode (list vs) h
    where
      reassoc :
          (r : Result (List Text))
          → ((r >>= λ ts. ok (join separator ts)) >>= λ t. decode rt (enclosed b'[' t b']'))
            ≡ ((r >>= λ ts. ok (enclosed b'[' (join separator ts) b']')) >>= decode rt)
      reassoc (ok ts) = refl
      reassoc (err e) = refl

      encode_args_list :
          (vs : Items rt.Float)
          → (encode_args rt.repr_float vs >>= λ t. decode rt (enclosed b'[' t b']'))
            ≡ (encode rt.repr_float (list vs) >>= decode rt)
      encode_args_list vs = reassoc (encode_each rt.repr_float vs)
