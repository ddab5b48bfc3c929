-- ===== src/Prelude/Faults.antt =====
-- What a function of the source can do: return, throw one of its exceptions, or run into
-- behaviour that the C++ standard leaves undefined (a pointer out of bounds, signed overflow).

pub data Error : Type 0 where
  empty_text : Error
  invalid_extra : Error
  invalid_version : Error
  negative_number : Error
  zero_version : Error
  out_of_range : Error
  wrong_order : Error
  empty_pair : Error
  extra_on_zero : Error
  unexpected_token : Error
  not_initialized : Error
  too_much_data : Error
  incorrect_length : Error
  length_error : Error
  rejected : Error
  bad_function_call : Error
  no_source : Error
  many_sources : Error
  bad_source : Error
  empty_module : Error
  bad_url : Error
  empty_tag : Error
  bad_document : Error
  bad_path : Error
  failed_call : Error
  -- No exception of the code: its loop has not ended in the steps that the model has.
  out_of_steps : Error

pub data Outcome {ℓ} (A : Type ℓ) : Type ℓ where
  ok : A → Outcome A
  throw : Error → Outcome A
  undefined : Outcome A

infixl 5 ◌>>=◌ ◌>>◌
abbrev pub ◌>>=◌ {ℓ κ} : {A : Type ℓ} {B : Type κ} → Outcome A → (A → Outcome B) → Outcome B
undefined >>= next = undefined
throw e >>= next = throw e
ok a >>= next = next a

abbrev pub ◌>>◌ {ℓ} : {B : Type ℓ} → Outcome (Unit {0}) → Outcome B → Outcome B
first >> second = first >>= λ _. second
