-- ===== src/Wave/Render.antt =====
-- `encode` against the plain rendering of JSON-shaped values.
use desmata.Prelude.{List, [], ◌∷◌, ◌++◌, ◌≡◌, refl, ap, ◌∙◌, append-nil, append_assoc}
use desmata.Prelude.Results.{ok}
use desmata.Prelude.Texts.{Text, join}
use desmata.Wave.Value.{
  Key, name, foreign, Value, Items, Fields, bytes, list, tuple, dict, object, nil, cons, end, field,
}
use desmata.Wave.Encode.{
  encode, encode_each, encode_fields, check_keys, field_name, separator, labelled,
}
use desmata.Wave.Canonical.{
  IsIdent, IsJson, AreJson, AreFields, key_text, render, render_first, render_more, render_field,
  render_fields,
}

module _ {F : Type 0} (repr : F → Text) where
  texts : Items F → List Text
  texts nil = []
  texts (cons v vs) = render repr v ∷ texts vs

  field_texts : Fields F → List Text
  field_texts end = []
  field_texts (field k v fs) = labelled (key_text k) (render repr v) ∷ field_texts fs

  join-texts :
      (v : Value F) (vs : Items F)
      → join separator (render repr v ∷ texts vs) ≡ render repr v ++ render_more repr vs
  unfolding join texts render
  join-texts v nil = rw append-nil
  join-texts v (cons w vs) = ap (λ t. render repr v ++ b',' ∷ b' ' ∷ t) (join-texts w vs)

  join-field_texts :
      (k : Key) (v : Value F) (fs : Fields F)
      → join separator (labelled (key_text k) (render repr v) ∷ field_texts fs)
        ≡ key_text k ++ b':' ∷ b' ' ∷ (render repr v ++ render_fields repr fs)
  unfolding join field_texts render
  join-field_texts k v end = rw append-nil
  join-field_texts k v (field k' w fs) =
      append_assoc (key_text k) (b':' ∷ b' ' ∷ render repr v) _
      ∙ ap (λ t. key_text k ++ b':' ∷ b' ' ∷ (render repr v ++ b',' ∷ b' ' ∷ t))
          (join-field_texts k' w fs)

  field_name-key_text : (k : Key) → IsIdent k → field_name k ≡ ok (key_text k)
  unfolding field_name
  field_name-key_text foreign h = absurd h
  field_name-key_text (name []) h = absurd h
  field_name-key_text (name (c ∷ s)) h = rw h

  check_keys-AreFields : (P : F → Type 0) (fs : Fields F) → AreFields P fs → check_keys fs ≡ ok tt
  unfolding check_keys
  check_keys-AreFields P end h = refl
  check_keys-AreFields P (field k v fs) (hk, fresh, hv, hs) =
      rw (field_name-key_text k hk) (check_keys-AreFields P fs hs)

  join-first : (vs : Items F) → join separator (texts vs) ≡ render_first repr vs
  unfolding texts render
  join-first nil = unfold join in refl
  join-first (cons v vs) = join-texts v vs

  join-field : (fs : Fields F) → join separator (field_texts fs) ≡ render_field repr fs
  unfolding field_texts render
  join-field end = unfold join in refl
  join-field (field k v fs) = join-field_texts k v fs

  cons_ok :
      (v : Value F) (vs : Items F)
      → encode repr v ≡ ok (render repr v)
      → encode_each repr vs ≡ ok (texts vs)
      → encode_each repr (cons v vs) ≡ ok (texts (cons v vs))
  unfolding encode_each texts
  cons_ok v vs h hs = rw (h, hs)

  field_ok :
      (k : Key) (v : Value F) (fs : Fields F)
      → IsIdent k
      → encode repr v ≡ ok (render repr v)
      → encode_fields repr fs ≡ ok (field_texts fs)
      → encode_fields repr (field k v fs) ≡ ok (field_texts (field k v fs))
  unfolding encode_fields field_texts
  field_ok k v fs hk h hs = rw (field_name-key_text k hk, h, hs)

  list_ok :
      (vs : Items F)
      → encode_each repr vs ≡ ok (texts vs)
      → encode repr (list vs) ≡ ok (render repr (list vs))
  unfolding encode render
  list_ok vs h = rw h (ap (λ t. ok (b'[' ∷ (t ++ b']' ∷ []))) (join-first vs))

  dict_ok :
      (P : F → Type 0) (fs : Fields F)
      → AreFields P fs
      → encode_fields repr fs ≡ ok (field_texts fs)
      → encode repr (dict fs) ≡ ok (render repr (dict fs))
  unfolding encode render
  dict_ok P fs hf h =
      rw (check_keys-AreFields P fs hf, h) (ap (λ t. ok (b'{' ∷ (t ++ b'}' ∷ []))) (join-field fs))

  pub encode-render :
      (P : F → Type 0) (v : Value F) → IsJson P v → encode repr v ≡ ok (render repr v)
  unfolding encode render texts field_texts
  encode-render P v =
      elim v
        as (λ v. IsJson P v → encode repr v ≡ ok (render repr v)) (λ vs.
          AreJson P vs → encode_each repr vs ≡ ok (texts vs)) (λ fs.
            AreFields P fs → encode_fields repr fs ≡ ok (field_texts fs)) [
              | bytes bs ↦ λ h. absurd h
              | tuple vs ↦ λ h. absurd h
              | object ↦ λ h. absurd h
              | list (vs → ih) ↦ λ h. list_ok vs (ih h)
              | dict (fs → ih) ↦ λ h. dict_ok P fs h (ih h)
              | nil ↦ λ h. refl
              | cons (w → ih) (vs → ihs) ↦ λ (h, hs). cons_ok w vs (ih h) (ihs hs)
              | end ↦ λ h. refl
              | field k (w → ih) (fs → ihs) ↦
                  λ (hk, fresh, h, hs). field_ok k w fs hk (ih h) (ihs hs)
              | _ ↦ λ h. refl
            ]
