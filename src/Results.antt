-- ===== src/Results.antt =====
-- The result values of src/spidercheck/results.py, and what Python's attribute access on them does.
-- A method returns a value or raises; `Outcome` keeps the two apart.
use spidercheck.Prelude.{
  ◌≡◌, refl, Bool, true, false, Option, none, some, ◌++◌, Text, codes, not, ◌↔◌, ◌⊎◌, inl, inr,
  arith,
}

-- The exceptions that the program raises or lets through.
pub data Exc : Type 0 where
  value_error type_error attribute_error key_error : Exc
  integrity_error assertion_error regex_error overflow_error command_error does_not_exist
        name_error :
      Exc

pub data Outcome {ℓ} (A : Type ℓ) : Type ℓ where
  returned : A → Outcome A
  raised : Exc → Outcome A

pub Outcome-cases {ℓ} :
    {A : Type ℓ} (o : Outcome A) → ((a : A) × (o ≡ returned a)) ⊎ ((e : Exc) × (o ≡ raised e))
Outcome-cases (returned a) = inl (a, refl)
Outcome-cases (raised e) = inr (e, refl)

-- Go on with the value, or let the exception through.
abbrev pub chain {ℓ κ} : {A : Type ℓ} {B : Type κ} → Outcome A → (A → Outcome B) → Outcome B
chain (returned a) f = f a
chain (raised e) f = raised e

pub chain-eq-returned {ℓ κ} :
    {A : Type ℓ} {B : Type κ} (o : Outcome A) (f : A → Outcome B) {b : B}
    → chain o f ≡ returned b
    → (a : A) × (o ≡ returned a) × (f a ≡ returned b)
chain-eq-returned (returned a) f h = (a, refl, h)
chain-eq-returned (raised e) f h = cc

-- `Success(value)` and `Failure(error_message, code)`; `code` is `none` for Python's `None`.
pub data Result {ℓ κ} (A : Type ℓ) (C : Type κ) : Type (ℓ ⊔ κ) where
  success : A → Result A C
  failure : Text → Option C → Result A C

module _ {ℓ κ} {A : Type ℓ} {C : Type κ} where
  abbrev pub is_success : Result A C → Bool
  is_success (success value) = true
  is_success (failure message code) = false

  abbrev pub is_failure : Result A C → Bool
  is_failure (success value) = false
  is_failure (failure message code) = true

  -- `__bool__`
  abbrev pub truth : Result A C → Bool
  truth (success value) = true
  truth (failure message code) = false

  -- The attribute `value`: a property that raises on a failure.
  abbrev pub value : Result A C → Outcome A
  value (success a) = returned a
  value (failure message code) = raised value_error

  -- The attribute `error_message`: a property that raises on a success.
  abbrev pub error_message : Result A C → Outcome Text
  error_message (success a) = raised value_error
  error_message (failure message code) = returned message

  -- For every `Success` and `Failure`: `is_failure` is the negation of `is_success`, truth is
  -- `is_success`, `value` raises `ValueError` exactly on a failure and `error_message` exactly on
  -- a success.
  pub Result-laws :
      (r : Result A C)
      → (truth r ≡ is_success r)
        × (is_failure r ≡ not (is_success r))
        × ((value r ≡ raised value_error) ↔ (is_failure r ≡ true))
        × ((error_message r ≡ raised value_error) ↔ (is_success r ≡ true))
  Result-laws (success a) = (refl, refl, ground arith, ground arith)
  Result-laws (failure message code) = (refl, refl, ground arith, ground arith)

-- `__str__` of a failure, with `str` of its code.
unfoldable pub failure_str {ℓ} : {C : Type ℓ} → (C → Text) → Text → Option C → Text
failure_str str message none = message
failure_str str message (some code) = str code ++ codes ": " ++ message
