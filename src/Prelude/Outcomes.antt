-- ===== src/Prelude/Outcomes.antt =====
-- How a run of the code ends: it returns, the processor traps on a division by zero, or the loop is
-- still running when the fuel is used up.
pub data Outcome {ℓ} (A : Type ℓ) : Type ℓ where
  returns : A → Outcome A
  divide_error : Outcome A
  out_of_fuel : Outcome A

abbrev pub map_outcome {ℓ κ} : {A : Type ℓ} {B : Type κ} → (A → B) → Outcome A → Outcome B
map_outcome f (returns a) = returns (f a)
map_outcome f divide_error = divide_error
map_outcome f out_of_fuel = out_of_fuel
