-- ===== src/Text/Composite.antt =====
-- `from_text_composite_value` of pg_cmdqd/pq-raii/libpq-raii.hpp.
pub mod Plain
pub mod Quoted
use pg_cmd_queue.Base.{
  ℤ, pos, ℕ, zero, suc, ◌+◌, ◌-◌, Bool, true, false, not, ◌&&◌, Option, none, some, List, [], ◌∷◌,
  ◌++◌, ◌==◌, if◌then◌else◌, Bytes, ltb, length, Result, ok, err, assertion, out_of_range,
}
use pg_cmd_queue.Text.Scan.{at, item, inc, dec, is_one}

-- The local variables of the loop but `i`.
pub record CompositeScan : Type 0 where
  pub result : List (Option Bytes)
  pub depth : ℤ
  pub in_quotes : Bool
  pub item_num : ℕ
  pub start_pos : ℕ
  pub end_pos : ℕ

abbrev pub composite_start : CompositeScan
composite_start = record {
  result = [];
  depth = pos 0;
  in_quotes = false;
  item_num = 0;
  start_pos = 0;
  end_pos = 0;
}

-- The chain of tests on the byte at `i`.
unfoldable pub composite_byte : Bytes → ℕ → CompositeScan → CompositeScan
composite_byte input i s =
    if at input i == b'(' && not s.in_quotes
    then (if is_one (inc s.depth)
        then record s { depth = inc s.depth; item_num = s.item_num + 1; start_pos = i + 1 }
        else record s { depth = inc s.depth })
    else if at input i == b')' && not s.in_quotes
    then (if is_one s.depth && s.end_pos == 0
        then record s { depth = dec s.depth; end_pos = i - 1 }
        else record s { depth = dec s.depth })
    else if at input i == b',' && not s.in_quotes
    then record s { end_pos = i - 1 }
    else if at input i == b'"' && not (at input (i - 1) == b'\\')
    then (if s.in_quotes
        then record s { end_pos = i - 1; in_quotes = false }
        else record s { start_pos = i + 1; in_quotes = true })
    else s

-- What is pushed for the positions found: an item with no byte is null.
abbrev pub composite_item : Bytes → ℕ → ℕ → Option Bytes
composite_item input start_pos end_pos =
    if end_pos == start_pos - 1 then none else some (item input start_pos end_pos)

-- One round of the loop.
unfoldable pub composite_step : Bytes → ℕ → CompositeScan → CompositeScan
unfolding composite_byte
composite_step input i s =
    let s' = composite_byte input i s in
    if ltb 0 s'.start_pos && ltb 0 s'.end_pos
    then record s' {
      result = s'.result ++ composite_item input s'.start_pos s'.end_pos ∷ [];
      start_pos = i + 1;
      end_pos = 0;
    }
    else s'

-- The rounds left, from index `i` on.
unfoldable pub composite_loop : ℕ → Bytes → ℕ → CompositeScan → List (Option Bytes)
composite_loop zero input i s = s.result
composite_loop (suc rounds) input i s =
    composite_loop rounds input (i + 1) (composite_step input i s)

-- The two assertions stand in front of the loop; `input.at(0)` throws on an empty input.
unfoldable pub from_text_composite_value : Bytes → Result (List (Option Bytes))
unfolding composite_loop
from_text_composite_value [] = err out_of_range
from_text_composite_value (c ∷ cs) =
    if c == b'(' && at (c ∷ cs) (length cs) == b')'
    then ok (composite_loop (length (c ∷ cs)) (c ∷ cs) 0 composite_start)
    else err assertion
