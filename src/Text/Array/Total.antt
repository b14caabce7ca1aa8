-- ===== src/Text/Array/Total.antt =====
-- The loop of `from_text_array` ends on every input.
use pg_cmd_queue.Base.{
  ℕ, zero, suc, ◌+◌, ◌<◌, ◌≡◌, ◌≢◌, ◌⊎◌, [], ◌∷◌, Bytes, length, err, out_of_fuel, arith,
}
use pg_cmd_queue.Text.Array.{
  ArrayScan, array_byte, array_push, array_start, array_loop, from_text_array,
}

-- The item's end is set only together with the next position, which lies behind `i` or is 0.
array_byte_next :
    (input : Bytes) (i : ℕ) (s : ArrayScan)
    → s.end_pos ≡ 0
    → ((array_byte input i s).end_pos ≡ 0)
      ⊎ (((array_byte input i s).next_start_pos ≡ 0) ⊎ (i < (array_byte input i s).next_start_pos))
unfolding array_byte
array_byte_next input i s e = ground arith

array_byte_start :
    (input : Bytes) (i : ℕ) (s : ArrayScan) → 0 < s.start_pos → 0 < (array_byte input i s).start_pos
unfolding array_byte
array_byte_start input i s h = ground arith

array_loop-ne-out_of_fuel :
    (fuel : ℕ) (input : Bytes) (i : ℕ) (s : ArrayScan)
    → s.end_pos ≡ 0
    → 0 < s.start_pos
    → 0 < fuel
    → length input < fuel + i
    → array_loop fuel input i s ≢ err out_of_fuel
unfolding array_loop
array_loop-ne-out_of_fuel zero input i s e p f h = elim f [ ]
array_loop-ne-out_of_fuel (suc fuel) input i s e p f h =
    let s' = array_byte input i s in
    ground (
      arith,
      array_byte_next input i s e,
      array_byte_start input i s p,
      array_loop-ne-out_of_fuel fuel input (i + 1) s',
      array_loop-ne-out_of_fuel fuel input s'.next_start_pos (array_push input s'),
    )

-- The loop of `from_text_array` ends on every input, whatever it holds: the index grows in each
-- round, also where it jumps behind a quoted item.
pub from_text_array_total : (input : Bytes) → from_text_array input ≢ err out_of_fuel
unfolding from_text_array
from_text_array_total [] = λ h. cc
from_text_array_total (c ∷ cs) =
    ground (arith, array_loop-ne-out_of_fuel (length (c ∷ cs) + 1) (c ∷ cs) 0 array_start)
