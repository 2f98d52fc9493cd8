-- ===== src/Paint/Called.antt =====
-- What a witnessed call that returns has done: `witnessed_call` of src/desmata/paint.py.
use desmata.Prelude.{
  ℕ, Option, none, some, List, [], ◌∷◌, ◌++◌, ◌≡◌, refl, ap, sym, ◌∙◌, Bool-cases, inl, inr, subst,
}
use desmata.Prelude.Results.{Result, ok, err, >>=-eq-ok, ok_eq, raised_returns}
use desmata.Prelude.Texts.{Text, codes, eq_text, eq_text_refl}
use desmata.Wave.Value.{ℤ, Value, Items, Runtime}
use desmata.Wave.Encode.{encode_args}
use desmata.Wave.Decode.{decode}
use desmata.Dumps.{quote_ascii}
use desmata.Provenance.{Brushstroke, Hashing}
use desmata.Provenance.Wire.{to_dict}
use desmata.Provenance.Ledger.{Dir, write, file_at, file_name, save_brushstrokes}
use desmata.Provenance.Kept.{file_at-write}
use desmata.Paint.Values.{result_ref_value}
use desmata.Paint.Desk.{Desk, Action, run_next, ◌then_do◌, stash, stash_at, stash_blob, lift, keep}
use desmata.Paint.Witness.{
  data_ref, x_or, evaluates_to, stash_result, recorded_result, conclude, witnessed_call,
}

returned :
    {A : Type 0} {r q : Result A} {s t : Desk}
    → ◌≡◌ {A = Result A × Desk} (r, s) (q, t)
    → (r ≡ q) × (s ≡ t)
returned h = (ap (λ x. x.0) h, ap (λ x. x.1) h)

-- Where a call and what follows it return, the call returns.
run_next-ok :
    {A B : Type 0} (k : A → Action B) (x : Result A × Desk) (b : B) (t : Desk)
    → run_next k x ≡ (ok b, t)
    → (a : A) × (s : Desk) × (x ≡ (ok a, s)) × (k a s ≡ (ok b, t))
run_next-ok k (ok a, s) b t h = (a, s, refl, h)
run_next-ok k (err e, s) b t h = absurd (raised_returns (returned h).0)

-- A file of the name is there.
abbrev pub IsThere : {V : Type 0} → Text → Dir V → Type 0
IsThere {V} name d = (v : V) × (file_at name d ≡ some v)

-- A claim's X: the given text, or the arguments where none is given.
abbrev pub IsX : Option Text → Text → Text → Type 0
IsX none args_wave x = x ≡ args_wave
IsX (some given) args_wave x = x ≡ given

x_or-IsX : (o : Option Text) (args_wave : Text) → IsX o args_wave (x_or o args_wave)
x_or-IsX none args_wave = refl
x_or-IsX (some given) args_wave = refl

-- The unsigned stroke `evaluates_to(component, function, x, y)` of the palette of reproducibility.
abbrev pub Claims : Text → Text → Text → Text → ℤ → Brushstroke → Type 0
Claims component function x y now b =
    (b.color ≡ codes "evaluates_to")
    × (b.palette ≡ codes "5a4d754697968af6ea3c0d957a7c06bc9fbea2f202afd9ae457fdab90dc59dd2")
    × (b.args ≡ component ∷ function ∷ x ∷ y ∷ [])
    × (b.created_at ≡ now)
    × (b.signer ≡ [])
    × (b.suite ≡ [])
    × (b.sig ≡ [])
    × (b.arg_versions ≡ none)

module _ (H : Hashing) where
  stash_at-IsThere :
      (bytes : List ℕ) (d : Dir (List ℕ)) (o : Option (List ℕ))
      → file_at (H.sha256 bytes) d ≡ o
      → IsThere (H.sha256 bytes) (stash_at H o bytes d)
  stash_at-IsThere bytes d (some w) e = (w, e)
  stash_at-IsThere bytes d none e = (
    bytes,
    file_at-write (H.sha256 bytes) (H.sha256 bytes) bytes d
        ∙ rw (eq_text_refl (H.sha256 bytes)) refl,
  )

  stash_at-keeps :
      (k : Text) (bytes : List ℕ) (d : Dir (List ℕ)) (o : Option (List ℕ))
      → IsThere k d
      → IsThere k (stash_at H o bytes d)
  stash_at-keeps k bytes d (some w) h = h
  stash_at-keeps k bytes d none (v, e) = elim (Bool-cases (eq_text (H.sha256 bytes) k)) [
    | inl q ↦ (bytes, file_at-write k (H.sha256 bytes) bytes d ∙ rw q refl)
    | inr q ↦ (v, file_at-write k (H.sha256 bytes) bytes d ∙ rw q e)
  ]

  stash-IsThere : (bytes : List ℕ) (d : Dir (List ℕ)) → IsThere (H.sha256 bytes) (stash H bytes d)
  unfolding stash
  stash-IsThere bytes d = stash_at-IsThere bytes d (file_at (H.sha256 bytes) d) refl

  stash-keeps :
      (k : Text) (bytes : List ℕ) (d : Dir (List ℕ)) → IsThere k d → IsThere k (stash H bytes d)
  unfolding stash
  stash-keeps k bytes d h = stash_at-keeps k bytes d (file_at (H.sha256 bytes) d) h

  -- A claim's result, for the bytes that stand for it: the engine's own text, or a reference to the
  -- bytes, which are then in the outbox.
  abbrev pub AsRecorded : Text → Text → Dir (List ℕ) → Text → Option (List ℕ) → Type 0
  AsRecorded raw type_ref box y none = y ≡ raw
  AsRecorded raw type_ref box y (some bytes) =
      (y
        ≡ codes "{\"hash\":"
          ++ quote_ascii (H.sha256 bytes)
          ++ codes ",\"suite\":\"sha256\",\"type_ref\":"
          ++ quote_ascii type_ref
          ++ codes "}")
      × IsThere (H.sha256 bytes) box

  -- From one desk to another, the ledger is the same and no blob is lost.
  abbrev pub OnlyAdds : Desk → Desk → Type 0
  OnlyAdds s t = (t.ledger ≡ s.ledger) × ((k : Text) → IsThere k s.outbox → IsThere k t.outbox)

  same_desk : {s t : Desk} → s ≡ t → OnlyAdds s t
  same_desk {s} p = subst (λ t. OnlyAdds s t) p (refl, λ k h. h)

  module _ (rt : Runtime) where
    -- A claim's result, where the call may travel by reference.
    abbrev pub Recorded : Text → Option (Text × Text) → Dir (List ℕ) → Text → Type 0
    Recorded raw none box y = y ≡ raw
    Recorded raw (some (result_text, type_ref)) box y =
        (o : Option (List ℕ)) × (result_ref_value H rt raw result_text ≡ ok o)
        × AsRecorded raw type_ref box y o

    stash_result-ok :
        (raw type_ref : Text) (o : Option (List ℕ)) (s t : Desk) (y : Text)
        → stash_result H rt raw type_ref o s ≡ (ok y, t)
        → AsRecorded raw type_ref t.outbox y o × OnlyAdds s t
    unfolding stash_result stash_blob data_ref
    stash_result-ok raw type_ref none s t y h =
        let (p, q) = returned h in (sym (ok_eq p), same_desk q)
    stash_result-ok raw type_ref (some bytes) s t y h =
        let (p, q) = returned h in
        (
          (
            sym (ok_eq p),
            subst (λ t. IsThere (H.sha256 bytes) t.outbox) q (stash-IsThere bytes s.outbox),
          ),
          subst (λ t. OnlyAdds s t) q (refl, λ k. stash-keeps k bytes s.outbox),
        )

    recorded_result-ok :
        (raw : Text) (o : Option (Text × Text)) (s t : Desk) (y : Text)
        → recorded_result H rt raw o s ≡ (ok y, t)
        → Recorded raw o t.outbox y × OnlyAdds s t
    unfolding recorded_result
    recorded_result-ok raw none s t y h = let (p, q) = returned h in (sym (ok_eq p), same_desk q)
    recorded_result-ok raw (some (result_text, type_ref)) s t y h =
        let (o, u, p, q) = run_next-ok (stash_result H rt raw type_ref) _ y t h in
        let (e, same) = returned p in
        let (r, adds) = stash_result-ok raw type_ref o u t y q in
        ((o, e, r), subst (λ s. OnlyAdds s t) (sym same) adds)

    conclude-ok :
        (raw : Text) (b c : Brushstroke) (s t : Desk) (v : Value rt.Float)
        → conclude H rt raw b s ≡ (ok (v, c), t)
        → (decode rt raw ≡ ok v)
          × (c ≡ b)
          × (t.ledger ≡ write (file_name H c) (to_dict c) s.ledger)
          × (t.outbox ≡ s.outbox)
    unfolding conclude keep save_brushstrokes
    conclude-ok raw b c s t v h =
        let (p, q) = returned h in
        let (w, d, e) = >>=-eq-ok (decode rt raw) (λ v. ok (v, b)) p in
        (
          d ∙ ap (λ x. ok (x.0)) (ok_eq e),
          ap (λ x. x.1) (sym (ok_eq e)),
          ap (λ t. t.ledger) (sym q)
              ∙ ap (λ x. write (file_name H (x.1)) (to_dict (x.1)) s.ledger) (ok_eq e),
          ap (λ t. t.outbox) (sym q),
        )

    lift-ok :
        {A B : Type 0} (r : Result A) (k : A → Action B) (s t : Desk) (b : B)
        → run_next k (lift r s) ≡ (ok b, t)
        → (a : A) × (r ≡ ok a) × (k a s ≡ (ok b, t))
    lift-ok (ok a) k s t b h = (a, refl, h)
    lift-ok (err e) k s t b h = absurd (raised_returns (returned h).0)

    module _ (invoke : Text → Text → Result Text) (now : ℤ) (component : List ℕ) (function : Text)
        (args : Items rt.Float) (result_ref : Option (Text × Text))
        (witnessed_x : Option Text) where
      -- The claim, for the arguments and the recorded result.
      abbrev claimed : Text → Text → Brushstroke
      claimed args_wave y =
          evaluates_to H rt (H.sha256 component) function (x_or witnessed_x args_wave) y now

      -- What follows the engine's answer.
      abbrev answered : Text → Text → Action (Value rt.Float × Brushstroke)
      answered args_wave raw =
          recorded_result H rt raw result_ref then_do λ y. conclude H rt raw (claimed args_wave y)

      -- What follows the arguments' encoding.
      abbrev encoded : Text → Action (Value rt.Float × Brushstroke)
      encoded args_wave = lift (invoke function args_wave) then_do answered args_wave

      -- A witnessed call that returns a value and a stroke has encoded its arguments, and the engine has
      -- given a text for them that decodes to this value. The stroke is unsigned and has the color
      -- `evaluates_to`, the palette of reproducibility, the given time, and as its arguments the hash
      -- of the component's bytes, the function, the arguments' text or the given X in its place, and
      -- the recorded result. It is in the ledger under the name of its claim, nothing else of the
      -- ledger has changed, and the outbox has lost no blob and has one under the component's hash.
      pub witnessed_call-returns :
          (s t : Desk) (v : Value rt.Float) (b : Brushstroke)
          → witnessed_call H rt invoke now component function args result_ref witnessed_x s
            ≡ (ok (v, b), t)
          → (args_wave raw x y : Text) × (encode_args rt.repr_float args ≡ ok args_wave)
            × (invoke function args_wave ≡ ok raw)
            × (decode rt raw ≡ ok v)
            × (Recorded raw result_ref t.outbox y)
            × IsX witnessed_x args_wave x
            × Claims (H.sha256 component) function x y now b
            × (t.ledger ≡ write (file_name H b) (to_dict b) s.ledger)
            × IsThere (H.sha256 component) t.outbox
            × ((k : Text) → IsThere k s.outbox → IsThere k t.outbox)
      unfolding witnessed_call stash_blob
      witnessed_call-returns s t v b h =
          let u : Desk = record s { outbox = stash H component s.outbox } in
          let (args_wave, e1, h1) = lift-ok (encode_args rt.repr_float args) encoded u t (v, b) h in
          let (raw, e2, h2) =
            lift-ok (invoke function args_wave) (answered args_wave) u t (v, b) h1 in
          let (y, w, p, h3) =
            run_next-ok (λ y. conclude H rt raw (claimed args_wave y))
              (recorded_result H rt raw result_ref u) (v, b) t h2 in
          let (r, (same, adds)) = recorded_result-ok raw result_ref u w y p in
          let (d, eb, l, o) = conclude-ok raw (claimed args_wave y) b w t v h3 in
          let keeps : (k : Text) → IsThere k u.outbox → IsThere k t.outbox =
            λ k there. subst (λ box. IsThere k box) (sym o) (adds k there) in
          (
            args_wave,
            raw,
            x_or witnessed_x args_wave,
            y,
            e1,
            e2,
            d,
            subst (λ box. Recorded raw result_ref box y) (sym o) r,
            x_or-IsX witnessed_x args_wave,
            rw eb (refl, refl, refl, refl, refl, refl, refl, refl),
            l ∙ ap (write (file_name H b) (to_dict b)) same,
            keeps (H.sha256 component) (stash-IsThere component s.outbox),
            λ k there. keeps k (stash-keeps k component s.outbox there),
          )
