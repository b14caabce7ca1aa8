-- ===== src/Pq/Tuples.antt =====
-- `PG::tuple_iterator` and `PG::tuples` of pg_cmdqd/pq-raii/libpq-raii.hpp, and the loop
-- `for (T t : tuples)` over them.
use pg_cmd_queue.Base.{
  ℕ, zero, suc, ◌+◌, ◌==◌, ◌≡◌, refl, Bool, not, Option, none, some, List, [], ◌∷◌, if◌then◌else◌,
  Result, ok, err, null_this, out_of_fuel, ◌>>=◌,
}
use pg_cmd_queue.Pq.Rows.{PgResult, FieldNumbers, fnumbers}

-- The members; the end iterator has no result.
pub record TupleIterator : Type 0 where
  pub result : Option PgResult
  pub field_mappings : FieldNumbers
  pub row : ℕ
  pub row_count : ℕ
  pub field_count : ℕ

-- The constructor of the end iterator: `row` is left at 0.
unfoldable pub end_iterator : ℕ → TupleIterator
end_iterator row_count = record {
  result = none;
  field_mappings = [];
  row = 0;
  row_count = row_count;
  field_count = 0;
}

-- The loop over the fields is the one of `fnumbers`.
unfoldable pub new_iterator : PgResult → ℕ → TupleIterator
new_iterator result row_count = record {
  result = some result;
  field_mappings = fnumbers result;
  row = 0;
  row_count = row_count;
  field_count = result.n_fields;
}

-- `operator!=`.
unfoldable pub differs : TupleIterator → TupleIterator → Bool
differs lhs rhs = not (lhs.row == rhs.row)

-- `operator++`.
unfoldable pub next : TupleIterator → TupleIterator
next it = record it { row = it.row + 1 }

pub record Tuples : Type 0 where
  pub begin : TupleIterator
  pub row_count : ℕ

module _ {T : Type 0} (new_t : PgResult → ℕ → FieldNumbers → T) where
  -- `operator*`: the exception for a row that is not there is made and not thrown.
  unfoldable pub dereference : TupleIterator → Result T
  dereference it = elim it.result [
    | none ↦ err null_this
    | some result ↦ ok (new_t result it.row it.field_mappings)
  ]

  -- The loop, with what it visits.
  unfoldable pub visit : ℕ → TupleIterator → TupleIterator → Result (List T)
  visit zero it end = err out_of_fuel
  visit (suc fuel) it end =
      let more = dereference it >>= λ t. visit fuel (next it) end >>= λ ts. ok (t ∷ ts) in
      if differs it end then more else ok []

  unfoldable pub for_each : ℕ → Tuples → Result (List T)
  for_each fuel tuples = visit fuel tuples.begin (end_iterator tuples.row_count)

  -- The loop visits no row, whatever rows the result has: the end iterator stands at the first row
  -- too.
  pub for_each-nothing :
      (fuel : ℕ) (result : PgResult) (row_count : ℕ)
      → for_each
          (suc fuel)
          (record { begin = new_iterator result row_count; row_count = row_count })
        ≡ ok []
  unfolding for_each visit differs new_iterator end_iterator
  for_each-nothing fuel result row_count = refl
