-- ===== src/Base/Faults.antt =====
-- What a call of the source can end in besides a value.

-- `assertion`: a failed `assert`. `out_of_range`: `std::out_of_range`. `runtime_error`: a
-- `std::runtime_error`, and so on for `domain_error`, `invalid_argument` and `cmd_line_parse_error`.
-- `division_by_zero`: the operator `%` by 0.
-- `null_this`: a member function called on a null
-- `this` reads or writes a member. `out_of_fuel` is the model's own: a loop did not end within its fuel.
pub data Fault : Type 0 where
  assertion out_of_range runtime_error division_by_zero null_this out_of_fuel : Fault
  domain_error invalid_argument bad_optional_access cmd_line_parse_error : Fault

pub data Result {ℓ} (A : Type ℓ) : Type ℓ where
  ok : A → Result A
  err : Fault → Result A

infixl 5 ◌>>=◌
abbrev pub ◌>>=◌ {ℓ κ} : {A : Type ℓ} {B : Type κ} → Result A → (A → Result B) → Result B
ok a >>= f = f a
err e >>= f = err e
