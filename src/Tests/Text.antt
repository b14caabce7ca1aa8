-- ===== src/Tests/Text.antt =====
-- The theorems on the text forms of pg_cmdqd/pq-raii/libpq-raii.hpp at concrete inputs.
use pg_cmd_queue.Base.{Option, none, some, List, [], ◌∷◌, Bytes, codes, ok, ◌≡◌, arith}
use pg_cmd_queue.Text.Quote.{as_text_array}
use pg_cmd_queue.Text.Array.{from_text_array}
use pg_cmd_queue.Text.Array.RoundTrip.{NoBackslash, from_text_array-as_text_array}
use pg_cmd_queue.Text.Composite.{from_text_composite_value}
use pg_cmd_queue.Text.Composite.Plain.{PlainFields, from_text_composite_value-plain}

-- Members with a quote, a comma and a space, and one that is empty.
abbrev members : List Bytes
members = codes "a\"b" ∷ [] ∷ codes "c, d" ∷ []

members-NoBackslash : NoBackslash members
members-NoBackslash = ground arith

from_text_array-as_text_array_example : from_text_array (as_text_array members) ≡ ok members
from_text_array-as_text_array_example = from_text_array-as_text_array members members-NoBackslash

abbrev later_fields : List (Option Bytes)
later_fields = some (codes "7") ∷ none ∷ []

fields-PlainFields : PlainFields (some (codes "q") ∷ later_fields)
fields-PlainFields = ground arith

from_text_composite_value-plain_example :
    from_text_composite_value (codes "(q,7,)") ≡ ok (some (codes "q") ∷ later_fields)
from_text_composite_value-plain_example =
    from_text_composite_value-plain (codes "q") later_fields fields-PlainFields
