-- ===== src/Common/Result.antt =====
-- What a call that may raise gives back. The exceptions are those that the modelled code lets out.
pub data Raised : Type 0 where
  -- an unhashable dict key
  type_error : Raised
  -- pydantic refuses a field
  validation_error : Raised
  -- `raise ValueError`
  value_error : Raised
  -- a method that the value does not have
  attribute_error : Raised

pub data Result {ℓ} (A : Type ℓ) : Type ℓ where
  ok : A → Result A
  raise : Raised → Result A
