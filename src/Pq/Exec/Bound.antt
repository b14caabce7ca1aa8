-- ===== src/Pq/Exec/Bound.antt =====
-- The parameter values that the server gets from a call, by the documentation of `PQexecParams`.
use pg_cmd_queue.Base.{
  ℕ, zero, suc, ℤ, pos, ◌≡◌, Option, none, some, List, [], ◌∷◌, Bytes, Result, ok, err,
  out_of_range, ◌>>=◌, length,
}
use pg_cmd_queue.Text.Scan.{c_str}
use pg_cmd_queue.Pq.Exec.{RawValue, null_pointer, points_to, Call}

-- The element of an array, with 0 where the array is a null pointer.
abbrev pub first_or_zero : Option (List ℕ) → ℕ
first_or_zero (some (n ∷ ns)) = n
first_or_zero _ = 0

abbrev pub first_length : Option (List ℤ) → ℤ
first_length (some (n ∷ ns)) = n
first_length _ = pos 0

abbrev pub others {ℓ} : {A : Type ℓ} → Option (List A) → Option (List A)
others none = none
others (some []) = some []
others (some (n ∷ ns)) = some ns

-- What libpq reads of a buffer, by its format and its length: the text up to the zero for a text,
-- whatever the length, and as many bytes as the length says for a binary value.
pub record Reads (read : ℕ → ℤ → Bytes → Bytes) : Type 0 where
  pub text : (n : ℤ) (value : Bytes) → read 0 n value ≡ c_str value
  pub binary : (value : Bytes) → read 1 (pos (length value)) value ≡ value

module _ (read : ℕ → ℤ → Bytes → Bytes) where
  abbrev pub bound_value : ℕ → ℤ → RawValue → Option Bytes
  bound_value format n null_pointer = none
  bound_value format n (points_to value) = some (read format n value)

  -- Reading behind the array of values is not defined.
  abbrev pub bound_values :
      ℕ → List RawValue → Option (List ℤ) → Option (List ℕ) → Result (List (Option Bytes))
  bound_values zero values lengths formats = ok []
  bound_values (suc n) [] lengths formats = err out_of_range
  bound_values (suc n) (v ∷ values) lengths formats =
      bound_values n values (others lengths) (others formats) >>= λ rest.
      ok (bound_value (first_or_zero formats) (first_length lengths) v ∷ rest)

  abbrev pub bound : Call → Result (List (Option Bytes))
  bound call = bound_values call.n_params call.values call.lengths call.formats
