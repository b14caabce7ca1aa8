-- ===== src/Text/Hstore/Pair.antt =====
-- A pair that `hstore_pair` writes, read by the loop of `from_text_hstore`
-- (pg_cmdqd/pq-raii/libpq-raii.hpp).
use mathlib.Core.List.{append_assoc}
use mathlib.Core.Path.{ap₂}
use pg_cmd_queue.Base.{
  ℕ, zero, suc, ◌+◌, ◌-◌, ◌<◌, ◌≡◌, refl, sym, ap, ◌≢◌, ◌∙◌, inl, inr, false, ◌||◌, Option, none,
  some, [], ◌∷◌, ◌++◌, ◌==◌, if◌then◌else◌, Bool-cases, Bytes, codes, length, length-append, Result,
  arith,
}
use pg_cmd_queue.Text.Quote.{escape}
use pg_cmd_queue.Text.Scan.{at, item, item_split, Lacks, pair_at, here_at, regroup}
use pg_cmd_queue.Text.Hstore.{
  Hstore, HstoreScan, assign, hstore_start, open_quote, close_quote, is_null, equal_ignoring_case,
  lower, unescape_from, unescape_hstore_text, hstore_loop,
}
use pg_cmd_queue.Text.Hstore.Scans.{
  Counts, Runs, Runs-arrow, Runs-quoted, escape-quote, escape-plain,
}

unescape-slash :
    (c : ℕ) (cs : Bytes)
    → c ≢ b'\\'
    → unescape_from false (b'\\' ∷ c ∷ cs) ≡ c ∷ unescape_from false cs
unfolding unescape_from
unescape-slash c cs h = ground arith

unescape-plain :
    (c : ℕ) (cs : Bytes) → c ≢ b'\\' → unescape_from false (c ∷ cs) ≡ c ∷ unescape_from false cs
unfolding unescape_from
unescape-plain c [] h = ground arith
unescape-plain c (d ∷ cs) h = ground arith

-- A text with no backslash is unescaped to what it was escaped from.
pub unescape-escape : (m : Bytes) → Lacks b'\\' m → unescape_from false (escape m) ≡ m
unescape-escape [] h = unfold unescape_from in refl
unescape-escape (c ∷ m) (l, ls) = elim (Bool-cases (c == b'"')) [
  | inl quote ↦
      ap (unescape_from false) (escape-quote c m (ground arith))
      ∙ unescape-slash c (escape m) l
      ∙ ap (◌∷◌ c) (unescape-escape m ls)
  | inr plain ↦
      ap (unescape_from false) (escape-plain c m l plain)
      ∙ unescape-plain c (escape m) l
      ∙ ap (◌∷◌ c) (unescape-escape m ls)
]

-- No byte of a pattern is, in lower case, a backslash.
abbrev Words : Bytes → Type 0
Words [] = Unit
Words (x ∷ xs) = (lower x ≢ b'\\') × Words xs

equal_ignoring_case-escape :
    (m p : Bytes)
    → Words p
    → Lacks b'\\' m
    → equal_ignoring_case m p ≡ false
    → equal_ignoring_case (escape m) p ≡ false
equal_ignoring_case-escape [] p w l h = h
equal_ignoring_case-escape (c ∷ m) [] w (l, ls) h = elim (Bool-cases (c == b'"')) [
  | inl quote ↦ rw (escape-quote c m (ground arith)) (ground arith)
  | inr plain ↦ rw (escape-plain c m l plain) h
]
equal_ignoring_case-escape (c ∷ m) (x ∷ p) (w, ws) (l, ls) h = elim (Bool-cases (c == b'"')) [
  | inl quote ↦ rw (escape-quote c m (ground arith)) (ground arith)
  | inr plain ↦ rw (escape-plain c m l plain) (ground (arith, equal_ignoring_case-escape m p ws ls))
]

pub length-escape : (m : Bytes) → 0 < length m → 0 < length (escape m)
length-escape [] h = absurd (omega arith)
length-escape (c ∷ m) h = elim (Bool-cases (c == b'"' || c == b'\\')) [
  | inl e ↦ ground arith
  | inr e ↦ ground arith
]

-- Between two pairs, and behind a key.
abbrev pub idle : Hstore → HstoreScan
idle m = record hstore_start { result = m }

abbrev pub keyed : Hstore → ℕ → ℕ → HstoreScan
keyed m key_start key_end = record (idle m) { key_start = key_start; key_end = key_end }

-- A value with no backslash that `strcasecmp` tells from `NULL`.
abbrev pub PlainValue : Bytes → Type 0
PlainValue v = Lacks b'\\' v × (is_null v ≡ false)

-- What the reader makes of the text between the quotes of a value.
abbrev reading : Bytes → Option Bytes
reading raw_val = if is_null raw_val then none else some (unescape_hstore_text raw_val)

null-Words : Words (codes "NULL")
null-Words = (omega arith, (omega arith, (omega arith, (omega arith, tt))))

reading-escape : (v : Bytes) → PlainValue v → reading (escape v) ≡ some v
unfolding unescape_hstore_text
reading-escape v (l, n) =
    rw (equal_ignoring_case-escape v (codes "NULL") null-Words l n) (ap some (unescape-escape v l))

close-keyed :
    (input : Bytes) (i j a b : ℕ) (m : Hstore)
    → 0 < a
    → 0 < b
    → close_quote input j (open_quote i (keyed m a b))
      ≡ idle (assign (item input a b) (reading (item input (i + 1) (j - 1))) m)
close-keyed input i j zero b m pa pb = absurd (omega arith)
close-keyed input i j (suc a) zero m pa pb = absurd (omega arith)
close-keyed input i j (suc a) (suc b) m pa pb = ground arith

module _ (input : Bytes) (r : Result Hstore) where
  pub Runs-key :
      (k pre post : Bytes) (i j : ℕ) (m : Hstore)
      → Lacks b'\\' k
      → input ≡ pre ++ b'"' ∷ (escape k ++ b'"' ∷ post)
      → i ≡ length pre
      → j ≡ i + 1 + length (escape k)
      → Counts input i
      → Runs input r (j + 1) (keyed m (i + 1) (j - 1))
      → Runs input r i (idle m)
  Runs-key k pre post i j m l e ei ej c next =
      Runs-quoted input r k pre post i j (idle m) l e ei ej c refl next

  pub Runs-value :
      (v pre post : Bytes) (i j a b : ℕ) (m : Hstore)
      → PlainValue v
      → input ≡ pre ++ b'"' ∷ (escape v ++ b'"' ∷ post)
      → i ≡ length pre
      → j ≡ i + 1 + length (escape v)
      → Counts input i
      → 0 < a
      → 0 < b
      → Runs input r (j + 1) (idle (assign (item input a b) (some v) m))
      → Runs input r i (keyed m a b)
  Runs-value v pre post i j a b m p e ei ej c pa pb next =
      let text : item input (i + 1) (j - 1) ≡ escape v =
        item_split (pre ++ b'"' ∷ []) (escape v) (b'"' ∷ post) (i + 1) (j - 1)
          (e ∙ regroup pre b'"' _) (omega (arith, length-append pre (b'"' ∷ [])))
          (omega (arith, length-append pre (b'"' ∷ []))) in
      Runs-quoted input r v pre post i j (keyed m a b) (p.0) e ei ej c refl (
        rw
          (close-keyed input i j a b m pa pb
            ∙ ap (λ t. idle (assign (item input a b) (reading t) m)) text
            ∙ ap (λ t. idle (assign (item input a b) t m)) (reading-escape v p))
          next)

  -- One pair, from its key's opening quote on.
  pub Runs-pair :
      (k v pre post : Bytes) (i j : ℕ) (m : Hstore)
      → Lacks b'\\' k
      → 0 < length k
      → PlainValue v
      → input ≡ pre ++ b'"' ∷ (escape k ++ b'"' ∷ b'=' ∷ b'>' ∷ b'"' ∷ (escape v ++ b'"' ∷ post))
      → i ≡ length pre
      → j ≡ i + length (escape k) + length (escape v) + 6
      → Counts input i
      → Runs input r j (idle (assign (escape k) (some v) m))
      → Runs input r i (idle m)
  Runs-pair k v pre post i j m lk nk pv e ei ej c next =
      let a = i + 1 + length (escape k) in
      let upto = pre ++ b'"' ∷ (escape k ++ b'"' ∷ []) in
      let e2 : input ≡ upto ++ b'=' ∷ b'>' ∷ b'"' ∷ (escape v ++ b'"' ∷ post) =
        e ∙ simp append_assoc in
      let len : length upto ≡ a + 1 = omega (
        arith,
        length-append pre (b'"' ∷ (escape k ++ b'"' ∷ [])),
        length-append (escape k) (b'"' ∷ []),
      ) in
      let (equals, bound) = here_at upto b'=' _ (a + 1) e2 (sym len) in
      let e3 = e2 ∙ regroup upto b'=' _ in
      let (arrow, _, _) = pair_at upto b'=' b'>' _ (a + 2) e2 (omega arith) in
      let e4 = e3 ∙ regroup (upto ++ b'=' ∷ []) b'>' _ in
      let len3 = length-append upto (b'=' ∷ []) in
      let (_, before, _) = pair_at (upto ++ b'=' ∷ []) b'>' b'"' _ (a + 1 + 2) e3 (omega arith) in
      let len4 = length-append (upto ++ b'=' ∷ []) (b'>' ∷ []) in
      let key : item input (i + 1) (a - 1) ≡ escape k =
        item_split (pre ++ b'"' ∷ []) (escape k) _ (i + 1) (a - 1) (e ∙ regroup pre b'"' _)
          (omega (arith, length-append pre (b'"' ∷ [])))
          (omega (arith, length-append pre (b'"' ∷ []))) in
      let same : a + 4 + length (escape v) + 1 ≡ j = omega arith in
      Runs-key k pre _ i a m lk e ei refl c (
        Runs-arrow input r (a + 1) _ bound refl equals (ap (at input) (omega arith) ∙ arrow) (
          Runs-value v ((upto ++ b'=' ∷ []) ++ b'>' ∷ []) post (a + 1 + 2)
            (a + 4 + length (escape v)) (i + 1) (a - 1) m pv e4 (omega arith) (omega arith)
            (inr (λ h. omega (arith, h, before))) (omega arith) (omega (arith, length-escape k nk))
            (λ fuel enough.
              ap₂ (hstore_loop fuel input) same (ap (λ t. idle (assign t (some v) m)) key)
              ∙ next fuel (omega arith))))
