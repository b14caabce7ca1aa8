-- ===== src/Pq/Names.antt =====
-- The names of the columns of a result (pg_cmdqd/pq-raii/libpq-raii.hpp).
use pg_cmd_queue.Base.{
  ℕ, zero, suc, ◌+◌, ◌<◌, ◌≤◌, ◌≡◌, ◌==◌, refl, ap, sym, ◌∙◌, ◌⊎◌, inl, inr, true, false, Option,
  none, some, List, [], ◌∷◌, Bytes, bytes_eq, bytes_eq_iff, bytes_eq_refl, if◌then◌else◌, ok, ◌>>=◌,
  arith, Bool-cases,
}
use pg_cmd_queue.Pq.Rows.{
  PgResult, FieldNumbers, assign_number, number_fields, fnumbers, number_of, getvalue, value_at,
}
use pg_cmd_queue.Pq.Exec.{RawValue, null_pointer, points_to}
use pg_cmd_queue.Text.Scan.{c_str}

-- `n` names from the `i`-th on.
abbrev pub names_from : PgResult → ℕ → ℕ → List Bytes
names_from res i zero = []
names_from res i (suc n) = res.field_name i ∷ names_from res (i + 1) n

unfoldable pub fnames : PgResult → List Bytes
fnames res = names_from res 0 res.n_fields

-- `from_text`, and `as_text` of a `const char *`.
unfoldable pub from_text : RawValue → Option Bytes
from_text null_pointer = none
from_text (points_to bytes) = some (c_str bytes)

number_of-assign_number :
    (name key : Bytes) (i : ℕ) (numbers : FieldNumbers)
    → number_of name (assign_number key i numbers)
      ≡ (if bytes_eq key name then ok i else number_of name numbers)
number_of-assign_number name key i [] = refl
number_of-assign_number name key i ((k, n) ∷ numbers) = ground (
  arith,
  bytes_eq_iff k key,
  bytes_eq_iff k name,
  bytes_eq_iff key name,
  number_of-assign_number name key i numbers,
)

-- A number that stands there stays, if no later column has the name.
number_of-number_fields :
    (res : PgResult) (name : Bytes) (k i n : ℕ) (numbers : FieldNumbers)
    → ((j : ℕ) → j < i + n → (j ≡ k) ⊎ (bytes_eq (res.field_name j) name ≡ false))
    → bytes_eq (res.field_name k) name ≡ true
    → k < i + n
    → (i ≤ k) ⊎ (number_of name numbers ≡ ok k)
    → number_of name (number_fields res i n numbers) ≡ ok k
number_of-number_fields res name k i zero numbers d e l (inl h) = absurd (omega arith)
number_of-number_fields res name k i zero numbers d e l (inr h) = h
number_of-number_fields res name k i (suc n) numbers d e l h =
    number_of-number_fields res name k (i + 1) n (assign_number (res.field_name i) i numbers)
      (λ j lj. d j (omega arith)) e (omega arith)
      (elim (d i (omega arith)) [
        | inl same ↦
            inr (number_of-assign_number name (res.field_name i) i numbers ∙ rw same (rw e refl))
        | inr other ↦ keep other h
      ])
  where
    keep :
        bytes_eq (res.field_name i) name ≡ false
        → (i ≤ k) ⊎ (number_of name numbers ≡ ok k)
        → (i + 1 ≤ k) ⊎ (number_of name (assign_number (res.field_name i) i numbers) ≡ ok k)
    keep other (inr h) =
        inr (number_of-assign_number name (res.field_name i) i numbers ∙ rw other h)
    keep other (inl h) = elim (Bool-cases (i == k)) [
      | inl same ↦
          let clash : bytes_eq (res.field_name k) name ≡ false = rw (sym (to_eq same)) other in
          absurd (ground (arith, clash))
      | inr ne ↦ inl (ground arith)
    ]
      where
        to_eq : (i == k) ≡ true → i ≡ k
        to_eq h = ground arith

-- By its name a column has its own number, and a field of a row is found by it, if no other column
-- has the same name.
pub value_at-fnumbers :
    (res : PgResult) (row k : ℕ)
    → k < res.n_fields
    → ((j : ℕ)
        → j < res.n_fields
        → (j ≡ k) ⊎ (bytes_eq (res.field_name j) (res.field_name k) ≡ false))
    → value_at res row (fnumbers res) (res.field_name k) ≡ ok (res.value row k)
unfolding value_at fnumbers getvalue
value_at-fnumbers res row k l d =
    ap (λ r. r >>= λ n. ok (res.value row n))
      (number_of-number_fields res (res.field_name k) k 0 res.n_fields []
        (λ j lj. d j (omega arith)) (bytes_eq_refl (res.field_name k)) (omega arith)
        (inl (omega arith)))
