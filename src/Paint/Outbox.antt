-- ===== src/Paint/Outbox.antt =====
-- What every call of src/desmata/paint.py keeps of the desk, whether it returns or raises.
use desmata.Prelude.{ℕ, Option, none, some, List, [], ◌∷◌, ◌≡◌, refl, Bool-cases, inl, inr}
use desmata.Prelude.Results.{Result, ok, err, ◌>>=◌}
use desmata.Prelude.Texts.{Text, eq_text, eq_text→eq}
use desmata.Wave.Value.{ℤ, Items, Runtime}
use desmata.Wit.{Rendered}
use desmata.Provenance.{Brushstroke, Hashing}
use desmata.Provenance.Ledger.{Dir, write, file_at}
use desmata.Provenance.Kept.{
  IsDistinct, IsLedger, save_brushstrokes-IsLedger, save_brushstrokes-IsDistinct, write-IsDistinct,
}
use desmata.Paint.Desk.{Desk, Action, lift, run_next, ◌then_do◌, stash, stash_at, stash_blob, keep}
use desmata.Paint.Witness.{
  data_ref, x_or, evaluates_to, stash_result, recorded_result, conclude, witnessed_call,
  witness_world, witness_interface, interface_strokes,
}
use desmata.Paint.Values.{result_ref_value}
use desmata.Wave.Encode.{encode_args}
use desmata.Wave.Decode.{decode}

-- Each blob stands under its hash.
abbrev pub IsAddressed : Hashing → Dir (List ℕ) → Type 0
IsAddressed H [] = Unit
IsAddressed H ((n, bytes) ∷ d) = (n ≡ H.sha256 bytes) × IsAddressed H d

-- The desk as it should be: the outbox is addressed by content, the ledger holds a stroke under the
-- name of its claim in each file, and no name stands twice.
abbrev pub IsSound : Hashing → Desk → Type 0
IsSound H s =
    (IsAddressed H s.outbox × IsDistinct s.outbox) × (IsLedger H s.ledger × IsDistinct s.ledger)

module _ (H : Hashing) where
  write-IsAddressed :
      (bytes : List ℕ) (d : Dir (List ℕ))
      → IsAddressed H d
      → IsAddressed H (write (H.sha256 bytes) bytes d)
  unfolding write
  write-IsAddressed bytes [] h = (refl, tt)
  write-IsAddressed bytes ((m, w) ∷ d) (e, h) = elim (Bool-cases (eq_text m (H.sha256 bytes))) [
    | inl q ↦ rw q (eq_text→eq m (H.sha256 bytes) q, h)
    | inr q ↦ rw q (e, write-IsAddressed bytes d h)
  ]

  stash_at-IsAddressed :
      (o : Option (List ℕ)) (bytes : List ℕ) (d : Dir (List ℕ))
      → IsAddressed H d
      → IsAddressed H (stash_at H o bytes d)
  stash_at-IsAddressed (some old) bytes d h = h
  stash_at-IsAddressed none bytes d h = write-IsAddressed bytes d h

  stash_at-IsDistinct :
      (o : Option (List ℕ)) (bytes : List ℕ) (d : Dir (List ℕ))
      → IsDistinct d
      → IsDistinct (stash_at H o bytes d)
  stash_at-IsDistinct (some old) bytes d h = h
  stash_at-IsDistinct none bytes d h = write-IsDistinct (H.sha256 bytes) bytes d h

  -- On every outcome, a sound desk is left sound.
  pub record Preserves {A : Type 0} (m : Action A) : Type 0 where
    pub keeps : (s : Desk) → IsSound H s → IsSound H (m s).1

  run_next-IsSound :
      {A B : Type 0} (k : A → Action B) (x : Result A × Desk)
      → ((a : A) → Preserves (k a))
      → IsSound H x.1
      → IsSound H (run_next k x).1
  run_next-IsSound k (ok a, s) h sound = (h a).keeps s sound
  run_next-IsSound k (err e, s) h sound = sound

  then_do-Preserves :
      {A B : Type 0} (m : Action A) (k : A → Action B)
      → Preserves m
      → ((a : A) → Preserves (k a))
      → Preserves (m then_do k)
  then_do-Preserves m k h g = record {
    keeps = λ s sound. run_next-IsSound k (m s) g (h.keeps s sound);
  }

  lift-Preserves : {A : Type 0} (r : Result A) → Preserves (lift r)
  lift-Preserves r = record { keeps = λ s h. h }

  stash_blob-Preserves : (bytes : List ℕ) → Preserves (stash_blob H bytes)
  unfolding stash_blob stash
  stash_blob-Preserves bytes = record {
    keeps = λ s ((a, d), l).
        let o = file_at (H.sha256 bytes) s.outbox in
        ((stash_at-IsAddressed o bytes s.outbox a, stash_at-IsDistinct o bytes s.outbox d), l);
  }

  keep-Preserves : (bs : List Brushstroke) → Preserves (keep H bs)
  unfolding keep
  keep-Preserves bs = record {
    keeps = λ s (o, (l, d)). (
      o,
      (save_brushstrokes-IsLedger H bs s.ledger l, save_brushstrokes-IsDistinct H bs s.ledger d),
    );
  }

  module _ (rt : Runtime) where
    stash_result-Preserves :
        (raw t : Text) (o : Option (List ℕ)) → Preserves (stash_result H rt raw t o)
    unfolding stash_result
    stash_result-Preserves raw t none = lift-Preserves _
    stash_result-Preserves raw t (some bytes) =
        then_do-Preserves (stash_blob H bytes) _ (stash_blob-Preserves bytes)
          (λ digest. lift-Preserves (ok (data_ref digest t)))

    recorded_result-Preserves :
        (raw : Text) (o : Option (Text × Text)) → Preserves (recorded_result H rt raw o)
    unfolding recorded_result
    recorded_result-Preserves raw none = lift-Preserves _
    recorded_result-Preserves raw (some (result_text, type_ref)) =
        then_do-Preserves (lift (result_ref_value H rt raw result_text)) _ (lift-Preserves _)
          (stash_result-Preserves raw type_ref)

    conclude-Preserves : (raw : Text) (b : Brushstroke) → Preserves (conclude H rt raw b)
    unfolding conclude
    conclude-Preserves raw b =
        then_do-Preserves (keep H (b ∷ [])) _ (keep-Preserves (b ∷ []))
          (λ t. lift-Preserves (decode rt raw >>= λ v. ok (v, b)))

    witnessed_call-Preserves :
        (invoke : Text → Text → Result Text) (now : ℤ) (bytes : List ℕ) (function : Text)
        (args : Items rt.Float) (result_ref : Option (Text × Text)) (witnessed_x : Option Text)
        → Preserves (witnessed_call H rt invoke now bytes function args result_ref witnessed_x)
    unfolding witnessed_call
    witnessed_call-Preserves invoke now bytes function args result_ref witnessed_x =
        then_do-Preserves (stash_blob H bytes) _ (stash_blob-Preserves bytes) λ component.
          then_do-Preserves (lift (encode_args rt.repr_float args)) _ (lift-Preserves _)
            λ args_wave.
              then_do-Preserves (lift (invoke function args_wave)) _ (lift-Preserves _) λ raw.
                then_do-Preserves (recorded_result H rt raw result_ref) _
                  (recorded_result-Preserves raw result_ref)
                  λ y.
                    conclude-Preserves raw
                      (evaluates_to H rt component function (x_or witnessed_x args_wave) y now)

    witness_world-Preserves :
        (signature : Text → Text → Rendered (Text × Text)) (now : ℤ) (component function : Text)
        (extracted : Option Text)
        → Preserves (witness_world H rt signature now component function extracted)
    unfolding witness_world
    witness_world-Preserves signature now component function none = lift-Preserves _
    witness_world-Preserves signature now component function (some wit_json) =
        then_do-Preserves (lift (interface_strokes H rt signature now component function wit_json))
          _ (lift-Preserves _)
          λ strokes.
            then_do-Preserves (keep H strokes) _ (keep-Preserves strokes)
              (λ t. lift-Preserves (ok strokes))

    witness_interface-Preserves :
        (signature : Text → Text → Rendered (Text × Text)) (now : ℤ) (bytes : List ℕ)
        (extracted : Option Text) (function : Text)
        → Preserves (witness_interface H rt signature now bytes extracted function)
    unfolding witness_interface
    witness_interface-Preserves signature now bytes extracted function =
        then_do-Preserves (stash_blob H bytes) _ (stash_blob-Preserves bytes)
          λ component. witness_world-Preserves signature now component function extracted

  -- What moves a desk: a witnessed call, a witnessed interface, or strokes that another part of the
  -- program saves. The outcome of the call is forgotten.
  pub data Step (rt : Runtime) : Desk → Desk → Type 0 where
    call :
        (s : Desk) (invoke : Text → Text → Result Text) (now : ℤ) (component : List ℕ)
        (function : Text) (args : Items rt.Float) (result_ref : Option (Text × Text))
        (witnessed_x : Option Text)
        → Step rt s
            (witnessed_call H rt invoke now component function args result_ref witnessed_x s).1
    interface :
        (s : Desk) (signature : Text → Text → Rendered (Text × Text)) (now : ℤ) (component : List ℕ)
        (extracted : Option Text) (function : Text)
        → Step rt s (witness_interface H rt signature now component extracted function s).1
    save : (s : Desk) (bs : List Brushstroke) → Step rt s (keep H bs s).1

  pub data Reach (rt : Runtime) (s : Desk) : Desk → Type 0 where
    start : Reach rt s s
    further : {t u : Desk} → Reach rt s t → Step rt t u → Reach rt s u

  Step-IsSound : {rt : Runtime} {s t : Desk} → Step rt s t → IsSound H s → IsSound H t
  Step-IsSound (call s invoke now component function args result_ref x) h =
      (witnessed_call-Preserves _ invoke now component function args result_ref x).keeps s h
  Step-IsSound (interface s signature now component extracted function) h =
      (witness_interface-Preserves _ signature now component extracted function).keeps s h
  Step-IsSound (save s bs) h = (keep-Preserves bs).keeps s h

  -- Whatever is witnessed from a sound desk on, in whatever order, and whether each call returns or
  -- raises, the desk stays sound: each blob of the outbox stands under its own hash, each file of the
  -- ledger holds a stroke under the name of its claim, and no name stands twice.
  pub Reach-IsSound : {rt : Runtime} {s t : Desk} → IsSound H s → Reach rt s t → IsSound H t
  Reach-IsSound h start = h
  Reach-IsSound h (further r x) = Step-IsSound x (Reach-IsSound h r)
