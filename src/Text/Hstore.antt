-- ===== src/Text/Hstore.antt =====
-- `from_text_hstore` and `unescape_hstore_text` of pg_cmdqd/pq-raii/libpq-raii.hpp.
pub mod Scans
pub mod Pair
pub mod RoundTrip
pub mod Nulls
use pg_cmd_queue.Base.{
  ℕ, zero, suc, ◌+◌, ◌-◌, Bool, true, false, not, ◌&&◌, ◌||◌, Option, none, some, List, [], ◌∷◌,
  ◌==◌, if◌then◌else◌, Bytes, codes, bytes_eq, ltb, leb, length, Result, ok, err, out_of_fuel,
}
use pg_cmd_queue.Text.Scan.{at, item}

-- An `unordered_map` from texts to texts that may be null: its pairs, each key once.
abbrev pub Hstore : Type 0
Hstore = List (Bytes × Option Bytes)

-- `m[key] = value`.
abbrev pub assign : Bytes → Option Bytes → Hstore → Hstore
assign key value [] = (key, value) ∷ []
assign key value ((k, v) ∷ m) =
    if bytes_eq k key then (key, value) ∷ m else (k, v) ∷ assign key value m

-- The loop from `escaped[i]` on; the test says that there is a byte in front of it, a backslash.
-- Behind the last byte, `escaped[i]` is the NUL.
unfoldable pub unescape_from : Bool → Bytes → Bytes
unescape_from behind_backslash [] = []
unescape_from behind_backslash (c ∷ []) =
    if c == b'\\' && not behind_backslash then 0 ∷ [] else c ∷ []
unescape_from behind_backslash (c ∷ d ∷ cs) =
    let skipped = unescape_from (d == b'\\') cs in
    let kept = unescape_from (c == b'\\') (d ∷ cs) in
    if c == b'\\' && not behind_backslash then d ∷ skipped else c ∷ kept

unfoldable pub unescape_hstore_text : Bytes → Bytes
unescape_hstore_text escaped = unescape_from false escaped

abbrev pub lower : ℕ → ℕ
lower c = if leb b'A' c && leb c b'Z' then c + 32 else c

-- `strcasecmp(text.c_str(), pattern) == 0`: the text ends at its first NUL, if it has one.
abbrev pub equal_ignoring_case : Bytes → Bytes → Bool
equal_ignoring_case [] [] = true
equal_ignoring_case (c ∷ cs) [] = c == 0
equal_ignoring_case [] (x ∷ xs) = false
equal_ignoring_case (c ∷ cs) (x ∷ xs) = lower c == lower x && equal_ignoring_case cs xs

abbrev pub is_null : Bytes → Bool
is_null raw_val = equal_ignoring_case raw_val (codes "NULL")

-- The local variables of the loop but `i`.
pub record HstoreScan : Type 0 where
  pub result : Hstore
  pub in_quotes : Bool
  pub key_start : ℕ
  pub key_end : ℕ
  pub val_start : ℕ
  pub val_end : ℕ

abbrev pub hstore_start : HstoreScan
hstore_start = record {
  result = [];
  in_quotes = false;
  key_start = 0;
  key_end = 0;
  val_start = 0;
  val_end = 0;
}

-- At a quote that opens a text.
abbrev pub open_quote : ℕ → HstoreScan → HstoreScan
open_quote i s =
    if s.key_start == 0
    then record s { in_quotes = true; key_start = i + 1 }
    else if s.val_start == 0
    then record s { in_quotes = true; val_start = i + 1 }
    else record s { in_quotes = true }

-- At a quote that closes a text. Such a quote has another in front, so `i - 1` does not wrap.
abbrev pub close_quote : Bytes → ℕ → HstoreScan → HstoreScan
close_quote input i s =
    if s.key_end == 0
    then record s { in_quotes = false; key_end = i - 1 }
    else if s.val_end == 0
    then (let raw_val = item input s.val_start (i - 1) in
        record s {
          result =
              assign (item input s.key_start s.key_end)
                (if is_null raw_val then none else some (unescape_hstore_text raw_val)) s.result;
          in_quotes = false;
          key_start = 0;
          key_end = 0;
          val_start = 0;
          val_end = 0;
        })
    else record s { in_quotes = false }

-- A quote that counts: at the start, or with no backslash in front.
abbrev pub is_quote : Bytes → ℕ → Bool
is_quote input i = at input i == b'"' && (i == 0 || not (at input (i - 1) == b'\\'))

-- One round: the variables behind it.
unfoldable pub hstore_byte : Bytes → ℕ → HstoreScan → HstoreScan
hstore_byte input i s =
    if is_quote input i then (if s.in_quotes then close_quote input i s else open_quote i s) else s

-- The index behind a round: an arrow outside quotes is two bytes.
unfoldable pub hstore_next : Bytes → ℕ → HstoreScan → ℕ
hstore_next input i s =
    if not (is_quote input i)
      && (not s.in_quotes && (at input i == b'=' && at input (i + 1) == b'>'))
    then i + 2
    else i + 1

-- The loop. The index grows in each round, so `input.size() + 1` rounds are enough.
unfoldable pub hstore_loop : ℕ → Bytes → ℕ → HstoreScan → Result Hstore
hstore_loop zero input i s = err out_of_fuel
hstore_loop (suc fuel) input i s = elim (ltb i (length input)) [
  | false ↦ ok s.result
  | true ↦ hstore_loop fuel input (hstore_next input i s) (hstore_byte input i s)
]

unfoldable pub from_text_hstore : Bytes → Result Hstore
from_text_hstore input = hstore_loop (length input + 1) input 0 hstore_start
