-- ===== src/Text/Quote.antt =====
-- The writers of pg_cmdqd/pq-raii/libpq-raii.hpp: `double_quote` and the `as_text…` functions.
-- A `std::string` is its bytes. A container is the list of its members in iteration order.
use pg_cmd_queue.Base.{
  ℕ, Bool, true, false, ◌||◌, Option, none, some, List, [], ◌∷◌, ◌++◌, ◌==◌, if◌then◌else◌, Bytes,
  codes,
}

-- What `std::regex_replace(unquoted, re, "\\$&")` puts for one byte.
abbrev pub escape_byte : ℕ → Bytes
escape_byte c = if c == b'"' || c == b'\\' then b'\\' ∷ c ∷ [] else c ∷ []

abbrev pub escape : Bytes → Bytes
escape [] = []
escape (c ∷ cs) = escape_byte c ++ escape cs

unfoldable pub double_quote : Bytes → Bytes
double_quote unquoted = b'"' ∷ (escape unquoted ++ b'"' ∷ [])

-- The members written one after the other, `separator` in front of all but the first.
abbrev pub joined {ℓ} : {A : Type ℓ} → Bytes → (A → Bytes) → Bool → List A → Bytes
joined separator write later [] = []
joined separator write later (x ∷ xs) =
    (if later then separator else []) ++ (write x ++ joined separator write true xs)

-- A member that may be null.
abbrev pub quote_nullable : Option Bytes → Bytes
unfolding double_quote
quote_nullable none = codes "NULL"
quote_nullable (some member) = double_quote member

-- The overload for members that may be null.
unfoldable pub as_text_array_nullable : List (Option Bytes) → Bytes
as_text_array_nullable arrayish =
    codes "{" ++ (joined (codes ",") quote_nullable false arrayish ++ codes "}")

-- The overload for plain members.
unfoldable pub as_text_array : List Bytes → Bytes
as_text_array arrayish = codes "{" ++ (joined (codes ",") double_quote false arrayish ++ codes "}")

unfoldable pub as_text_composite_value : List (Option Bytes) → Bytes
as_text_composite_value field_values =
    codes "(" ++ (joined (codes ",") quote_nullable false field_values ++ codes ")")

abbrev pub hstore_pair : Bytes × Bytes → Bytes
unfolding double_quote
hstore_pair (key, value) = double_quote key ++ (codes "=>" ++ double_quote value)

abbrev pub hstore_pair_nullable : Bytes × Option Bytes → Bytes
unfolding double_quote
hstore_pair_nullable (key, value) = double_quote key ++ (codes "=>" ++ quote_nullable value)

-- The overload for values that may be null.
unfoldable pub as_text_hstore_nullable : List (Bytes × Option Bytes) → Bytes
as_text_hstore_nullable m = joined (codes ",") hstore_pair_nullable false m

unfoldable pub as_text_hstore : List (Bytes × Bytes) → Bytes
as_text_hstore m = joined (codes ",") hstore_pair false m
