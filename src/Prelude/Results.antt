-- ===== src/Prelude/Results.antt =====
-- Python's exceptions as values. `out_of_fuel` has no counterpart in the program: it marks a model
-- run that used up its fuel. Nor has `ill_typed`: it marks a run that leaves the model, where the
-- program goes on with a value of a type that it does not declare.
use mathlib.Core.Path.{◌≡◌, refl}
use mathlib.Core.Option.{Option, none, some}
use mathlib.Core.Logic.{◌⊎◌, inl, inr}

pub data Error : Type 0 where
  value_error index_error key_error type_error overflow_error attribute_error timed_out : Error
  unknown_backend invalid_cell artifact_pin_mismatch cell_unavailable publish_mismatch os_error :
      Error
  daemon_failed keyboard_interrupt : Error
  out_of_fuel ill_typed : Error

-- What a call comes to: it returns, or it raises.
pub data Result {ℓ} (Returned : Type ℓ) : Type ℓ where
  ok : Returned → Result Returned
  err : Error → Result Returned

infixl 5 ◌>>=◌
-- A call, and what follows if it returns.
abbrev pub ◌>>=◌ {ℓ κ} : {R : Type ℓ} {S : Type κ} → Result R → (R → Result S) → Result S
ok r >>= next = next r
err raised >>= next = err raised

infixl 5 ◌>>◌
abbrev pub ◌>>◌ {ℓ κ} : {R : Type ℓ} {S : Type κ} → Result R → Result S → Result S
call >> following = call >>= λ _. following

-- Where a sequence of two calls returns, both return.
pub >>=-eq-ok {ℓ κ} :
    {R : Type ℓ} {S : Type κ} (call : Result R) (next : R → Result S) {s : S}
    → (call >>= next) ≡ ok s
    → (r : R) × (call ≡ ok r) × (next r ≡ ok s)
>>=-eq-ok (err raised) next returns = cc
>>=-eq-ok (ok r) next returns = (r, refl, returns)

pub ok_eq {ℓ} : {R : Type ℓ} {r s : R} → ◌≡◌ {A = Result R} (ok r) (ok s) → r ≡ s
ok_eq same = cc

-- A call that raises does not return.
pub raised_returns {ℓ} : {R : Type ℓ} {e : Error} {r : R} → ◌≡◌ {A = Result R} (err e) (ok r) → ⊥
raised_returns same = cc

pub some_eq {ℓ} : {R : Type ℓ} {r s : R} → ◌≡◌ {A = Option R} (some r) (some s) → r ≡ s
some_eq same = cc

pub nothing_there {ℓ} : {R : Type ℓ} {r : R} → ◌≡◌ {A = Option R} none (some r) → ⊥
nothing_there same = cc

pub Option-cases : {A : Type 0} (o : Option A) → (o ≡ none) ⊎ ((a : A) × (o ≡ some a))
Option-cases none = inl refl
Option-cases (some a) = inr (a, refl)
