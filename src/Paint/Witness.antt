-- ===== src/Paint/Witness.antt =====
-- Witnessing: `witnessed_call`, `interface_strokes`, `witness_interface` and `result_type_ref`.
use desmata.Prelude.{ℕ, Bool, false, ◌&&◌, Option, none, some, List, [], ◌∷◌, ◌++◌}
use desmata.Prelude.Results.{Result, ok, ◌>>=◌}
use desmata.Prelude.Texts.{Text, codes}
use desmata.Wave.Value.{ℤ, Value, Items, Runtime}
use desmata.Wave.Encode.{encode_args}
use desmata.Wave.Decode.{decode}
use desmata.Wit.Values.{Json, null, object, has_member}
use desmata.Wit.{Rendered}
use desmata.Dumps.{quote_ascii}
use desmata.Provenance.{Brushstroke, Hashing, mint, reproducibility_palette, interface_palette}
use desmata.Paint.Values.{result_ref_value}
use desmata.Paint.Desk.{Action, done, lift, ◌then_do◌, stash_blob, keep}

-- looks_like_data_ref, of a call argument as `json.loads` returns it
unfoldable pub looks_like_data_ref : Json → Bool
unfolding has_member
looks_like_data_ref (object ms) = has_member (codes "hash") ms && has_member (codes "suite") ms
looks_like_data_ref null = false
looks_like_data_ref _ = false

-- The reference that stands for a result: its keys are sorted.
unfoldable pub data_ref : Text → Text → Text
unfolding quote_ascii
data_ref digest type_ref =
    codes "{\"hash\":"
    ++ quote_ascii digest
    ++ codes ",\"suite\":\"sha256\",\"type_ref\":"
    ++ quote_ascii type_ref
    ++ codes "}"

-- witnessed_x, or the arguments
abbrev pub x_or : Option Text → Text → Text
x_or none args_wave = args_wave
x_or (some x) args_wave = x

module _ (H : Hashing) (rt : Runtime) where
  -- The claim that a call of `function` on `x` gave `y`.
  abbrev pub evaluates_to : Text → Text → Text → Text → ℤ → Brushstroke
  evaluates_to component function x y now =
      mint (codes "evaluates_to") reproducibility_palette (component ∷ function ∷ x ∷ y ∷ []) now

  -- y, behind the bytes of `result_ref_value`
  unfoldable pub stash_result : Text → Text → Option (List ℕ) → Action Text
  unfolding stash_blob data_ref
  stash_result raw type_ref none = done raw
  stash_result raw type_ref (some bytes) =
      stash_blob H bytes then_do λ digest. done (data_ref digest type_ref)

  unfoldable pub recorded_result : Text → Option (Text × Text) → Action Text
  unfolding result_ref_value stash_result
  recorded_result raw none = done raw
  recorded_result raw (some (result_text, type_ref)) =
      lift (result_ref_value H rt raw result_text) then_do stash_result raw type_ref

  -- The stroke is saved, and the result decoded.
  unfoldable pub conclude : Text → Brushstroke → Action (Value rt.Float × Brushstroke)
  unfolding keep decode
  conclude raw stroke =
      keep H (stroke ∷ []) then_do λ t. lift (decode rt raw >>= λ v. ok (v, stroke))

  -- witnessed_call, of the component with the bytes `data`; `invoke` is `invoker.invoke_raw` of it.
  unfoldable pub witnessed_call :
      (Text → Text → Result Text)
      → ℤ
      → List ℕ
      → Text
      → Items rt.Float
      → Option (Text × Text)
      → Option Text
      → Action (Value rt.Float × Brushstroke)
  unfolding stash_blob encode_args recorded_result conclude
  witnessed_call invoke now bytes function args result_ref witnessed_x =
      stash_blob H bytes then_do λ component.
      lift (encode_args rt.repr_float args) then_do λ args_wave.
      lift (invoke function args_wave) then_do λ raw. recorded_result raw result_ref then_do λ y.
      conclude raw (evaluates_to component function (x_or witnessed_x args_wave) y now)

  abbrev pub hash_text : Text → Text
  hash_text t = H.sha256 (H.encode t)

  -- type_def, the claim that a digest is that of a type's text
  abbrev pub type_def : Text → ℤ → Brushstroke
  type_def t now = mint (codes "type_def") interface_palette (hash_text t ∷ t ∷ []) now

  abbrev pub exports : Text → Text → Text → Text → ℤ → Brushstroke
  exports component function params result now =
      mint (codes "exports") interface_palette
        (component ∷ function ∷ hash_text params ∷ hash_text result ∷ []) now

  abbrev pub of_signature : Text → Text → ℤ → Option (Text × Text) → List Brushstroke
  of_signature component function now none = []
  of_signature component function now (some (params, result)) =
      type_def params now ∷ type_def result now ∷ exports component function params result now ∷ []

  -- interface_strokes; `signature` is `wit.canonical_signature`.
  unfoldable pub interface_strokes :
      (Text → Text → Rendered (Text × Text)) → ℤ → Text → Text → Text → Result (List Brushstroke)
  interface_strokes signature now component function wit_json =
      signature wit_json function >>= λ o. ok (of_signature component function now o)

  -- What follows the extraction; `none` is WitUnavailable.
  unfoldable pub witness_world :
      (Text → Text → Rendered (Text × Text))
      → ℤ
      → Text
      → Text
      → Option Text
      → Action (List Brushstroke)
  unfolding interface_strokes keep
  witness_world signature now component function none = done []
  witness_world signature now component function (some wit_json) =
      lift (interface_strokes signature now component function wit_json) then_do λ strokes.
      keep H strokes then_do λ t. done strokes

  -- witness_interface, with what the extractor gives for the component
  unfoldable pub witness_interface :
      (Text → Text → Rendered (Text × Text))
      → ℤ
      → List ℕ
      → Option Text
      → Text
      → Action (List Brushstroke)
  unfolding stash_blob witness_world
  witness_interface signature now bytes extracted function = stash_blob H bytes then_do λ component.
      witness_world signature now component function extracted

  -- The result's text and its hash, of a signature.
  abbrev pub ref_of : Option (Text × Text) → Option (Text × Text)
  ref_of none = none
  ref_of (some (params, result)) = some (result, hash_text result)

  -- result_type_ref, with what the extractor gives for the component
  unfoldable pub result_type_ref :
      (Text → Text → Rendered (Text × Text)) → Option Text → Text → Rendered (Text × Text)
  result_type_ref signature none function = ok none
  result_type_ref signature (some wit_json) function =
      signature wit_json function >>= λ o. ok (ref_of o)
