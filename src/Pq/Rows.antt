-- ===== src/Pq/Rows.antt =====
-- The rows of a `PG::result` (pg_cmdqd/pq-raii/libpq-raii.hpp). What libpq answers for one result is
-- a `PgResult`.
use pg_cmd_queue.Base.{
  ℕ, zero, suc, ◌+◌, Bool, Option, none, some, List, [], ◌∷◌, Bytes, bytes_eq, if◌then◌else◌,
  Result, ok, err, out_of_range, ◌>>=◌,
}

-- `PQnfields`, `PQfname`, and `PQgetvalue` and `PQgetisnull` of a row and a column.
pub record PgResult : Type 0 where
  pub n_fields : ℕ
  pub field_name : ℕ → Bytes
  pub value : ℕ → ℕ → Bytes
  pub is_null : ℕ → ℕ → Bool

-- `std::unordered_map<std::string, int>`: its pairs, each key once.
abbrev pub FieldNumbers : Type 0
FieldNumbers = List (Bytes × ℕ)

-- `map[name] = i`.
abbrev pub assign_number : Bytes → ℕ → FieldNumbers → FieldNumbers
assign_number name i [] = (name, i) ∷ []
assign_number name i ((key, n) ∷ numbers) =
    if bytes_eq key name then (key, i) ∷ numbers else (key, n) ∷ assign_number name i numbers

-- The loop over the fields from `i` on, `n` of them.
abbrev pub number_fields : PgResult → ℕ → ℕ → FieldNumbers → FieldNumbers
number_fields res i zero numbers = numbers
number_fields res i (suc n) numbers =
    number_fields res (i + 1) n (assign_number (res.field_name i) i numbers)

unfoldable pub fnumbers : PgResult → FieldNumbers
fnumbers res = number_fields res 0 res.n_fields []

-- `field_numbers.at(name)`.
abbrev pub number_of : Bytes → FieldNumbers → Result ℕ
number_of name [] = err out_of_range
number_of name ((key, n) ∷ numbers) = if bytes_eq key name then ok n else number_of name numbers

unfoldable pub getvalue : PgResult → ℕ → ℕ → Bytes
getvalue res row_number column_number = res.value row_number column_number

unfoldable pub getisnull : PgResult → ℕ → ℕ → Bool
getisnull res row_number column_number = res.is_null row_number column_number

unfoldable pub getnullable : PgResult → ℕ → ℕ → Option Bytes
getnullable res row_number column_number =
    if res.is_null row_number column_number then none else some (res.value row_number column_number)

-- The three with `field_numbers.at(name)` for the column.
unfoldable pub value_at : PgResult → ℕ → FieldNumbers → Bytes → Result Bytes
unfolding getvalue
value_at res row numbers name = number_of name numbers >>= λ n. ok (getvalue res row n)

unfoldable pub nullable_at : PgResult → ℕ → FieldNumbers → Bytes → Result (Option Bytes)
unfolding getnullable
nullable_at res row numbers name = number_of name numbers >>= λ n. ok (getnullable res row n)

unfoldable pub is_null_at : PgResult → ℕ → FieldNumbers → Bytes → Result Bool
unfolding getisnull
is_null_at res row numbers name = number_of name numbers >>= λ n. ok (getisnull res row n)
