-- ===== src/Text/Hstore/RoundTrip.antt =====
-- What `from_text_hstore` (pg_cmdqd/pq-raii/libpq-raii.hpp) reads from what `as_text_hstore` writes.
use mathlib.Core.List.{append_assoc, append-nil}
use pg_cmd_queue.Base.{
  ℕ, ◌+◌, ◌<◌, ◌≡◌, refl, ap, ◌∙◌, inl, inr, true, false, Option, some, List, [], ◌∷◌, ◌++◌, Bytes,
  codes, bytes_eq, length, length-append, Result, ok, arith,
}
use pg_cmd_queue.Text.Quote.{escape, double_quote, joined, hstore_pair, as_text_hstore}
use pg_cmd_queue.Text.Scan.{Lacks, pair_at, here_at}
use pg_cmd_queue.Text.Hstore.{Hstore, assign, from_text_hstore, hstore_loop}
use pg_cmd_queue.Text.Hstore.Scans.{Runs, Runs-end, Runs-between, escape-plain}
use pg_cmd_queue.Text.Hstore.Pair.{idle, PlainValue, Runs-pair}

-- The text of a pair, in front of `post`.
abbrev written : Bytes → Bytes → Bytes → Bytes
written k v post = b'"' ∷ (escape k ++ b'"' ∷ b'=' ∷ b'>' ∷ b'"' ∷ (escape v ++ b'"' ∷ post))

length-written :
    (k v post : Bytes)
    → length (written k v post) ≡ length (escape k) + length (escape v) + 6 + length post
length-written k v post = omega (
  arith,
  length-append (escape k) (b'"' ∷ b'=' ∷ b'>' ∷ b'"' ∷ (escape v ++ b'"' ∷ post)),
  length-append (escape v) (b'"' ∷ post),
)

-- What the reader stores, pair by pair: the key keeps the backslashes that quoting put.
abbrev pub read_pairs : Hstore → List (Bytes × Bytes) → Hstore
read_pairs m [] = m
read_pairs m ((k, v) ∷ pairs) = read_pairs (assign (escape k) (some v) m) pairs

abbrev pub PlainPairs : List (Bytes × Bytes) → Type 0
PlainPairs [] = Unit
PlainPairs ((k, v) ∷ pairs) = (Lacks b'\\' k × (0 < length k)) × (PlainValue v × PlainPairs pairs)

module _ (input : Bytes) (r : Result Hstore) where
  -- The pairs behind the first.
  Runs-pairs :
      (pairs : List (Bytes × Bytes)) (pre : Bytes) (i : ℕ) (m : Hstore)
      → PlainPairs pairs
      → input ≡ pre ++ joined (codes ",") hstore_pair true pairs
      → i ≡ length pre
      → r ≡ ok (read_pairs m pairs)
      → Runs input r i (idle m)
  unfolding double_quote
  Runs-pairs [] pre i m h e ei done =
      Runs-end input r i (idle m) (omega (arith, ap length e, length-append pre [])) done
  Runs-pairs ((k, v) ∷ pairs) pre i m ((lk, nk), (pv, h)) e ei done =
      let rest = joined (codes ",") hstore_pair true pairs in
      let (comma, bound) = here_at pre b',' _ i e ei in
      let (_, before, _) = pair_at pre b',' b'"' _ (i + 1) e (omega arith) in
      let front = (pre ++ b',' ∷ []) ++ written k v [] in
      let e2 : input ≡ (pre ++ b',' ∷ []) ++ written k v rest = e ∙ simp append_assoc in
      Runs-between input r i (idle m) bound (omega arith) (omega arith) (
        Runs-pair input r k v (pre ++ b',' ∷ []) rest (i + 1) _ m lk nk pv e2
          (omega (arith, length-append pre (b',' ∷ []))) refl (inr (λ q. omega (arith, q, before)))
          (Runs-pairs pairs front _ (assign (escape k) (some v) m) h (e2 ∙ simp append_assoc)
            (omega (
              arith,
              length-append (pre ++ b',' ∷ []) (written k v []),
              length-append pre (b',' ∷ []),
              length-written k v [],
            ))
            done))

-- Reading what `as_text_hstore` writes stores each value under its key with the key's quotes still
-- escaped, in the order written, if no key or value has a backslash, no key is empty and no value
-- is `NULL` in any case.
pub from_text_hstore-as_text_hstore :
    (m : List (Bytes × Bytes))
    → PlainPairs m
    → from_text_hstore (as_text_hstore m) ≡ ok (read_pairs [] m)
unfolding as_text_hstore from_text_hstore
from_text_hstore-as_text_hstore [] h = unfold hstore_loop in refl
from_text_hstore-as_text_hstore ((k, v) ∷ m) ((lk, nk), (pv, h)) =
    let rest = joined (codes ",") hstore_pair true m in
    let r = ok (read_pairs [] ((k, v) ∷ m)) in
    let e : as_text_hstore ((k, v) ∷ m) ≡ written k v rest =
      unfold double_quote in simp append_assoc in
    let input = written k v rest in
    rw e (
      Runs-pair input r k v [] rest 0 _ [] lk nk pv refl refl refl (inl refl)
        (Runs-pairs input r m (written k v []) _ _ h (simp append_assoc)
          (omega (arith, length-written k v [])) refl)
        (length input + 1) (omega arith))

-- No pair of the map has the key.
abbrev Fresh : Bytes → Hstore → Type 0
Fresh key [] = Unit
Fresh key ((k, v) ∷ m) = (bytes_eq k key ≡ false) × Fresh key m

assign-Fresh :
    (key : Bytes) (value : Option Bytes) (m : Hstore)
    → Fresh key m
    → assign key value m ≡ m ++ (key, value) ∷ []
assign-Fresh key value [] h = refl
assign-Fresh key value ((k, v) ∷ m) (h, hs) = rw h (ap (◌∷◌ (k, v)) (assign-Fresh key value m hs))

abbrev pub with_values : List (Bytes × Bytes) → Hstore
with_values [] = []
with_values ((k, v) ∷ m) = (k, some v) ∷ with_values m

-- The keys have no quote, and each is there once, and none of them in `read` already.
abbrev pub PlainKeys : Hstore → List (Bytes × Bytes) → Type 0
PlainKeys read [] = Unit
PlainKeys read ((k, v) ∷ m) = (Lacks b'"' k × Fresh k read) × PlainKeys (read ++ (k, some v) ∷ []) m

escape-Plain : (m : Bytes) → Lacks b'\\' m → Lacks b'"' m → escape m ≡ m
escape-Plain [] l q = refl
escape-Plain (c ∷ m) (l, ls) (q, qs) =
    escape-plain c m l (ground arith) ∙ ap (◌∷◌ c) (escape-Plain m ls qs)

read_pairs-PlainKeys :
    (read : Hstore) (m : List (Bytes × Bytes))
    → PlainPairs m
    → PlainKeys read m
    → read_pairs read m ≡ read ++ with_values m
read_pairs-PlainKeys read [] h p = simp append-nil
read_pairs-PlainKeys read ((k, v) ∷ m) ((lk, nk), (pv, h)) ((q, f), p) =
    ap (λ t. read_pairs (assign t (some v) read) m) (escape-Plain k lk q)
    ∙ ap (λ t. read_pairs t m) (assign-Fresh k (some v) read f)
    ∙ read_pairs-PlainKeys _ m h p
    ∙ append_assoc read ((k, some v) ∷ []) (with_values m)

-- Reading what `as_text_hstore` writes gives the map back, if no key or value has a backslash, no
-- key is empty or has a quote, no value is `NULL` in any case, and each key is there once.
pub from_text_hstore-plain :
    (m : List (Bytes × Bytes))
    → PlainPairs m
    → PlainKeys [] m
    → from_text_hstore (as_text_hstore m) ≡ ok (with_values m)
from_text_hstore-plain m h p =
    from_text_hstore-as_text_hstore m h ∙ ap ok (read_pairs-PlainKeys [] m h p)
