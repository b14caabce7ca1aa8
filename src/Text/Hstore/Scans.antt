-- ===== src/Text/Hstore/Scans.antt =====
-- Runs of the loop of `from_text_hstore` (pg_cmdqd/pq-raii/libpq-raii.hpp) over a quoted text and
-- over what stands between two of them.
use pg_cmd_queue.Base.{
  ℕ, zero, suc, ◌+◌, ◌-◌, ◌<◌, ◌≡◌, sym, ap, ◌≢◌, ◌∙◌, ◌⊎◌, inl, inr, true, false, [], ◌∷◌, ◌++◌,
  ◌==◌, Bool-cases, Bytes, length, length-append, Result, ok, arith,
}
use pg_cmd_queue.Text.Quote.{escape}
use pg_cmd_queue.Text.Scan.{at, Lacks, pair_at, here_at, regroup}
use pg_cmd_queue.Text.Hstore.{
  Hstore, HstoreScan, open_quote, close_quote, hstore_byte, hstore_next, hstore_loop,
}

pub escape-quote : (c : ℕ) (m : Bytes) → c ≡ b'"' → escape (c ∷ m) ≡ b'\\' ∷ c ∷ escape m
escape-quote c m h = ground arith

pub escape-plain :
    (c : ℕ) (m : Bytes) → c ≢ b'\\' → (c == b'"') ≡ false → escape (c ∷ m) ≡ c ∷ escape m
escape-plain c m h g = ground arith

-- A quote at `i` counts.
abbrev pub Counts : Bytes → ℕ → Type 0
Counts input i = (i ≡ 0) ⊎ (at input (i - 1) ≢ b'\\')

module _ (input : Bytes) (r : Result Hstore) where
  -- With enough fuel the loop ends in `r` from this point.
  abbrev pub Runs : ℕ → HstoreScan → Type 0
  Runs i s = (fuel : ℕ) → length input < fuel + i → hstore_loop fuel input i s ≡ r

  pub Runs-end : (i : ℕ) (s : HstoreScan) → i ≡ length input → r ≡ ok s.result → Runs i s
  unfolding hstore_loop
  Runs-end i s e h zero enough = absurd (omega arith)
  Runs-end i s e h (suc fuel) enough = ground arith

  -- Inside quotes, at a byte that is no quote or an escaped one.
  pub Runs-quiet :
      (i : ℕ) (s : HstoreScan)
      → i < length input
      → s.in_quotes ≡ true
      → (at input i ≢ b'"') ⊎ ((0 < i) × (at input (i - 1) ≡ b'\\'))
      → Runs (i + 1) s
      → Runs i s
  unfolding hstore_loop hstore_byte hstore_next
  Runs-quiet i s h q c k zero enough = absurd (omega arith)
  Runs-quiet i s h q c k (suc fuel) enough = ground (arith, k fuel)

  -- Outside quotes, at a byte that is neither a quote nor the start of an arrow.
  pub Runs-between :
      (i : ℕ) (s : HstoreScan)
      → i < length input
      → at input i ≢ b'"'
      → at input i ≢ b'='
      → Runs (i + 1) s
      → Runs i s
  unfolding hstore_loop hstore_byte hstore_next
  Runs-between i s h c d k zero enough = absurd (omega arith)
  Runs-between i s h c d k (suc fuel) enough = ground (arith, k fuel)

  pub Runs-arrow :
      (i : ℕ) (s : HstoreScan)
      → i < length input
      → s.in_quotes ≡ false
      → at input i ≡ b'='
      → at input (i + 1) ≡ b'>'
      → Runs (i + 2) s
      → Runs i s
  unfolding hstore_loop hstore_byte hstore_next
  Runs-arrow i s h q c d k zero enough = absurd (omega arith)
  Runs-arrow i s h q c d k (suc fuel) enough = ground (arith, k fuel)

  pub Runs-open :
      (i : ℕ) (s : HstoreScan)
      → i < length input
      → s.in_quotes ≡ false
      → at input i ≡ b'"'
      → Counts input i
      → Runs (i + 1) (open_quote i s)
      → Runs i s
  unfolding hstore_loop hstore_byte hstore_next
  Runs-open i s h q c d k zero enough = absurd (omega arith)
  Runs-open i s h q c d k (suc fuel) enough = ground (arith, k fuel)

  pub Runs-close :
      (i : ℕ) (s : HstoreScan)
      → i < length input
      → s.in_quotes ≡ true
      → at input i ≡ b'"'
      → at input (i - 1) ≢ b'\\'
      → Runs (i + 1) (close_quote input i s)
      → Runs i s
  unfolding hstore_loop hstore_byte hstore_next
  Runs-close i s h q c d k zero enough = absurd (omega arith)
  Runs-close i s h q c d k (suc fuel) enough = ground (arith, k fuel)

  -- The bytes of an escaped text, from behind the byte `p`, and its closing quote.
  pub Runs-escaped :
      (m pre : Bytes) (p : ℕ) (post : Bytes) (i j : ℕ) (s : HstoreScan)
      → Lacks b'\\' m
      → p ≢ b'\\'
      → input ≡ pre ++ p ∷ (escape m ++ b'"' ∷ post)
      → i ≡ length pre + 1
      → j ≡ i + length (escape m)
      → s.in_quotes ≡ true
      → Runs (j + 1) (close_quote input j s)
      → Runs i s
  Runs-escaped [] pre p post i j s l np e ei ej q k =
      let (here, before, bound) = pair_at pre p b'"' post i e ei in
      let same : j ≡ i = omega arith in
      Runs-close i s bound q here (λ b. np (sym before ∙ b)) (rw same at k)
  Runs-escaped (c ∷ m) pre p post i j s (l, ls) np e ei ej q k = elim (Bool-cases (c == b'"')) [
    | inl quote ↦
        let c_is : c ≡ b'"' = ground arith in
        let e2 : input ≡ pre ++ p ∷ b'\\' ∷ c ∷ (escape m ++ b'"' ∷ post) =
          e ∙ ap (λ t. pre ++ p ∷ (t ++ b'"' ∷ post)) (escape-quote c m c_is) in
        let (slash, _, bound) = pair_at pre p b'\\' _ i e2 ei in
        let e3 = e2 ∙ regroup pre p _ in
        let longer = length-append pre (p ∷ []) in
        let (_, before, bound') = pair_at (pre ++ p ∷ []) b'\\' c _ (i + 1) e3 (omega arith) in
        let last_len = length-append (pre ++ p ∷ []) (b'\\' ∷ []) in
        let jlen = ap length (escape-quote c m c_is) in
        Runs-quiet i s bound q (inl (omega arith)) (
          Runs-quiet (i + 1) s bound' q (inr (omega arith, before)) (
            Runs-escaped m ((pre ++ p ∷ []) ++ b'\\' ∷ []) c post (i + 1 + 1) j s ls l
              (e3 ∙ regroup (pre ++ p ∷ []) b'\\' _) (omega arith) (omega arith) q k))
    | inr plain ↦
        let e2 : input ≡ pre ++ p ∷ c ∷ (escape m ++ b'"' ∷ post) =
          e ∙ ap (λ t. pre ++ p ∷ (t ++ b'"' ∷ post)) (escape-plain c m l plain) in
        let (here, _, bound) = pair_at pre p c _ i e2 ei in
        let longer = length-append pre (p ∷ []) in
        let jlen = ap length (escape-plain c m l plain) in
        let no_quote : c ≢ b'"' = ground arith in
        Runs-quiet i s bound q (inl (omega arith)) (
          Runs-escaped m (pre ++ p ∷ []) c post (i + 1) j s ls l (e2 ∙ regroup pre p _)
            (omega arith) (omega arith) q k)
  ]

  -- A whole quoted text, from its opening quote on.
  pub Runs-quoted :
      (m pre post : Bytes) (i j : ℕ) (s : HstoreScan)
      → Lacks b'\\' m
      → input ≡ pre ++ b'"' ∷ (escape m ++ b'"' ∷ post)
      → i ≡ length pre
      → j ≡ i + 1 + length (escape m)
      → Counts input i
      → s.in_quotes ≡ false
      → Runs (j + 1) (close_quote input j (open_quote i s))
      → Runs i s
  Runs-quoted m pre post i j s l e ei ej counts q k =
      let (here, bound) = here_at pre b'"' _ i e ei in
      Runs-open i s bound q here counts (
        Runs-escaped m pre b'"' post (i + 1) j (open_quote i s) l (omega arith) e (omega arith)
          (omega arith) (ground arith) k)
