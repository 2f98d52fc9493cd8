-- ===== src/Wave/Fuel.antt =====
-- The fuel that `decode` hands out.
use desmata.Prelude.{ℕ, zero, suc, ◌+◌, ◌*◌, ◌<◌, ◌≤◌, ◌||◌, [], ◌∷◌, ◌==◌, ◌≢◌, arith}
use desmata.Prelude.Results.{ok, err, out_of_fuel}
use desmata.Prelude.Texts.{Text, codes, eq_text, length}
use desmata.Wave.Value.{Items, Fields, null, nil, cons, end, Runtime}
use desmata.Wave.Parser.{Parser, skip_ws, peeks, is_digit, Val}
use desmata.Wave.Decode.{
  payload, case_or_enum, keyword, keyword_or_enum, value_at, value, items, fields, finish, assign,
  decode, decode_value, skip_comma,
}
use desmata.Wave.Uses.{
  Uses, uses, raised, left, nothing, Uses-ne-out_of_fuel, Uses-weaken, Uses-if, Uses-bind,
  value_error_ne, length-skip_ws, expect-Uses, ident-Uses, string-Uses, char-Uses, float_value-Uses,
  number-Uses, number-nil-Uses,
}

length-skip_comma : (s : Text) → length (skip_comma s) ≤ length s
unfolding skip_comma
length-skip_comma [] = omega arith
length-skip_comma (c ∷ s) = ground (arith, length-skip_ws s)

module _ (rt : Runtime) where
  payload-Uses : (word : Text) (vs : Items rt.Float) → Uses nothing 1 (payload rt word vs)
  unfolding payload
  payload-Uses word (cons v nil) =
      Uses-if (eq_text word (codes "some")) (λ _. uses (omega arith)) (λ _. raised value_error_ne)
  payload-Uses word _ = raised value_error_ne

  -- A parser that lengthens no text of fewer than `n` characters.
  abbrev Shortens {ℓ} : {A : Type ℓ} → ℕ → Parser A → Type ℓ
  Shortens n p = (s : Text) → length s < n → Uses left (suc (length s)) (p s)

  case_or_enum-Uses :
      (args : Parser (Items rt.Float)) (word s : Text) (n : ℕ)
      → length s ≤ n
      → Shortens n args
      → Uses left (suc (length s)) (case_or_enum rt args word s)
  unfolding case_or_enum
  case_or_enum-Uses args word s n h ha =
      Uses-if (peeks b'(' s)
        (λ _.
          Uses-bind
            (Uses-bind {rest' = left} {m = suc (length s)} (expect-Uses b'(' s)
              λ r l. Uses-weaken (ha r (omega arith)) (omega arith))
            λ (vs, u) l. Uses-bind (payload-Uses word vs) λ v l'. uses l)
        (λ _. uses (omega arith))

  keyword-Uses :
      (args : Parser (Items rt.Float)) (word s : Text) (n : ℕ)
      → length s ≤ n
      → Shortens n args
      → Uses left (suc (length s)) (keyword rt args word s)
  unfolding keyword
  keyword-Uses args word s n h ha =
      Uses-if (eq_text word (codes "true")) (λ _. uses (omega arith))
        λ _.
          Uses-if (eq_text word (codes "false")) (λ _. uses (omega arith))
            λ _.
              Uses-if (eq_text word (codes "none")) (λ _. uses (omega arith))
                λ _.
                  Uses-if (eq_text word (codes "inf") || eq_text word (codes "nan"))
                    (λ _. Uses-bind (float_value-Uses rt word) λ v l. uses (omega arith))
                    (λ _.
                      Uses-weaken
                        (case_or_enum-Uses args word (skip_ws s) n (omega (arith, length-skip_ws s))
                          ha)
                        (omega (arith, length-skip_ws s)))

  keyword_or_enum-Uses :
      (args : Parser (Items rt.Float)) (s : Text) (n : ℕ)
      → length s ≤ n
      → Shortens n args
      → Uses left (length s) (keyword_or_enum rt args s)
  unfolding keyword_or_enum
  keyword_or_enum-Uses args s n h ha =
      Uses-bind (ident-Uses s)
        λ (word, r) l. Uses-weaken (keyword-Uses args word r n (omega arith) ha) (omega arith)

  value_at-Uses :
      (is : ℕ → Parser (Items rt.Float)) (fs : Parser (Fields rt.Float)) (s : Text)
      → ((closing : ℕ) → Shortens (length s) (is closing))
      → Shortens (length s) fs
      → Uses left (length s) (value_at rt is fs s)
  unfolding value_at
  value_at-Uses is fs [] hi hf = number-nil-Uses rt 0
  value_at-Uses is fs (c ∷ s) hi hf =
      Uses-if (c == b'[') (λ _. Uses-bind (hi b']' s (omega arith)) λ (vs, r) l. uses l)
        λ _.
          Uses-if (c == b'(') (λ _. Uses-bind (hi b')' s (omega arith)) λ (vs, r) l. uses l)
            λ _.
              Uses-if (c == b'{') (λ _. Uses-bind (hf s (omega arith)) λ (gs, r) l. uses l)
                λ _.
                  Uses-if (c == b'"') (λ _. Uses-bind (string-Uses rt (c ∷ s)) λ (t, r) l. uses l)
                    λ _.
                      Uses-if (c == b'\'')
                        (λ _. Uses-bind (char-Uses rt (c ∷ s)) λ (t, r) l. uses l)
                        λ _.
                          Uses-if (is_digit rt c || (c == b'+' || c == b'-'))
                            (λ d. number-Uses rt c s d)
                            (λ _.
                              keyword_or_enum-Uses (is b')') (c ∷ s) (suc (length s)) (omega arith)
                                (hi b')'))

  -- A value takes two units for each character, the loops two more.
  mutual
    unfolding value

    value-Uses : (f : ℕ) (s : Text) → 2 * length s < f → Uses left (length s) (value rt f s)
    value-Uses zero s h = absurd (omega arith)
    value-Uses (suc f) s h =
        Uses-weaken
          (value_at-Uses (λ closing t. items rt f closing (skip_ws t))
            (λ t. fields rt f end (skip_ws t)) (skip_ws s)
            (λ closing t l.
              Uses-weaken
                (items-Uses f closing (skip_ws t)
                  (omega (arith, length-skip_ws s, length-skip_ws t)))
                (omega (arith, length-skip_ws t)))
            (λ t l.
              Uses-weaken
                (fields-Uses f end (skip_ws t) (omega (arith, length-skip_ws s, length-skip_ws t)))
                (omega (arith, length-skip_ws t))))
          (length-skip_ws s)

    items-Uses :
        (f closing : ℕ) (s : Text)
        → 2 * length s + 1 < f
        → Uses left (length s) (items rt f closing s)
    items-Uses zero closing s h = absurd (omega arith)
    items-Uses (suc f) closing s h =
        Uses-if (peeks closing s) (λ _. Uses-bind (expect-Uses closing s) λ r l. uses l)
          λ _. Uses-bind (value-Uses f s (omega arith)) λ (v, r) l.
            Uses-bind
              (items-Uses f closing (skip_comma (skip_ws r))
                (omega (arith, length-skip_ws r, length-skip_comma (skip_ws r))))
              λ (vs, u) l'. uses (omega (arith, length-skip_ws r, length-skip_comma (skip_ws r)))

    fields-Uses :
        (f : ℕ) (acc : Fields rt.Float) (s : Text)
        → 2 * length s + 1 < f
        → Uses left (length s) (fields rt f acc s)
    fields-Uses zero acc s h = absurd (omega arith)
    fields-Uses (suc f) acc s h =
        Uses-if (peeks b'}' s) (λ _. Uses-bind (expect-Uses b'}' s) λ r l. uses l)
          λ _. Uses-bind (ident-Uses s) λ (n, r) l. Uses-bind (expect-Uses b':' (skip_ws r)) λ t lt.
            Uses-bind (value-Uses f t (omega (arith, length-skip_ws r))) λ (v, u) lu.
              Uses-weaken
                (fields-Uses f (assign n v acc) (skip_comma (skip_ws u)) (
                  omega (arith, length-skip_ws r, length-skip_ws u, length-skip_comma (skip_ws u))))
                (omega (arith, length-skip_ws r, length-skip_ws u, length-skip_comma (skip_ws u)))

  finish-Uses : (v : Val rt) (s : Text) → Uses nothing 1 (finish rt v s)
  unfolding finish
  finish-Uses v [] = uses (omega arith)
  finish-Uses v (c ∷ s) = raised value_error_ne

  decode_value-Uses : (s : Text) → Uses nothing 1 (decode_value rt s)
  unfolding decode_value
  decode_value-Uses s =
      Uses-bind (value-Uses (2 * length s + 2) s (omega arith))
        λ (v, r) l. finish-Uses v (skip_ws r)

  decode-Uses : (s : Text) → Uses nothing 1 (decode rt s)
  unfolding decode
  decode-Uses s = of (skip_ws s)
    where
      of : (t : Text) → Uses nothing 1 (elim t [ [] ↦ ok null | c ∷ s ↦ decode_value rt (c ∷ s) ])
      of [] = uses (omega arith)
      of (c ∷ s) = decode_value-Uses (c ∷ s)

  -- `decode` ends on every text, with a value or with an exception of the program: the model's fuel
  -- never runs out.
  pub decode-ne-out_of_fuel : (s : Text) → decode rt s ≢ err out_of_fuel
  decode-ne-out_of_fuel s = Uses-ne-out_of_fuel (decode-Uses s)
