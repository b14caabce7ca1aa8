-- ===== src/Text/Array.antt =====
-- `from_text_array` of pg_cmdqd/pq-raii/libpq-raii.hpp.
pub mod RoundTrip
pub mod Total
use pg_cmd_queue.Base.{
  ℤ, pos, ℕ, zero, suc, ◌+◌, ◌-◌, Bool, true, false, not, ◌&&◌, List, [], ◌∷◌, ◌++◌, ◌==◌,
  if◌then◌else◌, Bytes, ltb, length, Result, ok, err, assertion, out_of_fuel, out_of_range,
}
use pg_cmd_queue.Text.Scan.{at, item, inc, dec, is_one}

-- The local variables of the loop but `i`.
pub record ArrayScan : Type 0 where
  pub result : List Bytes
  pub depth : ℤ
  pub in_quotes : Bool
  pub start_pos : ℕ
  pub end_pos : ℕ
  pub next_start_pos : ℕ

abbrev pub array_start : ArrayScan
array_start = record {
  result = [];
  depth = pos 0;
  in_quotes = false;
  start_pos = 1;
  end_pos = 0;
  next_start_pos = 0;
}

-- The chain of tests on the byte at `i`.
unfoldable pub array_byte : Bytes → ℕ → ArrayScan → ArrayScan
array_byte input i s =
    if at input i == b'{' && not s.in_quotes
    then record s {
      depth = inc s.depth;
      start_pos = if is_one (inc s.depth) then i + 1 else s.start_pos;
    }
    else if at input i == b'}' && not s.in_quotes
    then (if is_one s.depth && s.end_pos == 0
        then record s { depth = dec s.depth; end_pos = i - 1; next_start_pos = 0 }
        else record s { depth = dec s.depth })
    else if at input i == b',' && not s.in_quotes
    then record s { end_pos = i - 1; next_start_pos = i + 1 }
    else if at input i == b'"' && not (at input (i - 1) == b'\\')
    then (if s.in_quotes
        then record s { end_pos = i - 1; next_start_pos = i + 2; in_quotes = false }
        else record s { start_pos = i + 1; in_quotes = true })
    else s

-- `t.erase(std::remove(t.begin(), t.end(), '\\'), t.end())`.
abbrev pub without_backslashes : Bytes → Bytes
without_backslashes [] = []
without_backslashes (c ∷ cs) =
    if c == b'\\' then without_backslashes cs else c ∷ without_backslashes cs

-- `result.push_back(t)`, and the positions for the next item.
abbrev pub array_push : Bytes → ArrayScan → ArrayScan
array_push input s = record s {
  result = s.result ++ without_backslashes (item input s.start_pos s.end_pos) ∷ [];
  end_pos = 0;
  start_pos = s.next_start_pos;
}

-- The loop. The index grows in each round, so `input.size() + 1` rounds are enough.
unfoldable pub array_loop : ℕ → Bytes → ℕ → ArrayScan → Result (List Bytes)
array_loop zero input i s = err out_of_fuel
array_loop (suc fuel) input i s = elim (ltb i (length input)) [
  | false ↦ ok s.result
  | true ↦
      let s' = array_byte input i s in
      elim (ltb 0 s'.start_pos && ltb 0 s'.end_pos) [
        | false ↦ array_loop fuel input (i + 1) s'
        | true ↦ elim (s'.next_start_pos == 0) [
          | true ↦ ok (array_push input s').result
          | false ↦ array_loop fuel input s'.next_start_pos (array_push input s')
        ]
      ]
]

-- The two assertions stand in front of the loop; `input.at(0)` throws on an empty input.
unfoldable pub from_text_array : Bytes → Result (List Bytes)
unfolding array_loop
from_text_array [] = err out_of_range
from_text_array (c ∷ cs) =
    if c == b'{' && at (c ∷ cs) (length cs) == b'}'
    then array_loop (length (c ∷ cs) + 1) (c ∷ cs) 0 array_start
    else err assertion
