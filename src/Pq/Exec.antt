-- ===== src/Pq/Exec.antt =====
-- `execParams` and `execPrepared` of pg_cmdqd/pq-raii/libpq-raii.hpp: the arguments that libpq is
-- called with.
pub mod Bound
use pg_cmd_queue.Base.{ℕ, ℤ, Option, none, some, List, [], ◌∷◌, map, Bytes}
use pg_cmd_queue.Text.Scan.{c_str}

-- A `char *`: null, or the bytes that it points to, with a zero behind them.
pub data RawValue : Type 0 where
  null_pointer : RawValue
  points_to : Bytes → RawValue

abbrev pub raw_value : Option Bytes → RawValue
raw_value none = null_pointer
raw_value (some value) = points_to value

-- `vector.data()`: null for a vector that has no storage.
abbrev pub data_of {ℓ} : {A : Type ℓ} → List A → Option (List A)
data_of [] = none
data_of (x ∷ xs) = some (x ∷ xs)

abbrev pub array_of {ℓ} : {A : Type ℓ} → Option (List A) → Option (List A)
array_of none = none
array_of (some xs) = data_of xs

-- What libpq is given: the statement's name or its text, and the arrays of the parameters.
pub record Call : Type 0 where
  pub statement : Bytes
  pub n_params : ℕ
  pub param_types : Option (List ℕ)
  pub values : List RawValue
  pub lengths : Option (List ℤ)
  pub formats : Option (List ℕ)
  pub result_format : ℕ

unfoldable pub exec_params :
    Bytes → ℕ → Option (List ℕ) → List (Option Bytes) → Option (List ℤ) → Option (List ℕ) → ℕ → Call
exec_params command n_params param_types values lengths formats result_format = record {
  statement = c_str command;
  n_params = n_params;
  param_types = array_of param_types;
  values = map raw_value values;
  lengths = array_of lengths;
  formats = array_of formats;
  result_format = result_format;
}

-- `PQexecPrepared` takes no types.
unfoldable pub exec_prepared :
    Bytes → ℕ → List (Option Bytes) → Option (List ℤ) → Option (List ℕ) → ℕ → Call
exec_prepared stmt_name n_params values lengths formats result_format = record {
  statement = c_str stmt_name;
  n_params = n_params;
  param_types = none;
  values = map raw_value values;
  lengths = array_of lengths;
  formats = array_of formats;
  result_format = result_format;
}
