-- ===== src/Text/Array/RoundTrip.antt =====
-- What `as_text_array` writes, `from_text_array` reads back, for members with no backslash.
use mathlib.Core.List.{append_assoc}
use mathlib.Core.Path.{ap₂}
use pg_cmd_queue.Base.{
  pos, ℕ, zero, suc, ◌+◌, ◌-◌, ◌<◌, ◌≡◌, refl, sym, ap, ◌≢◌, ◌∙◌, ◌⊎◌, inl, inr, true, false, List,
  [], ◌∷◌, ◌++◌, ◌==◌, Bool-cases, Bytes, codes, length, length-append, Result, ok, arith,
}
use pg_cmd_queue.Text.Quote.{escape, double_quote, joined, as_text_array}
use pg_cmd_queue.Text.Scan.{at, item, item_split, Lacks, pair_at, regroup, at_last}
use pg_cmd_queue.Text.Array.{
  ArrayScan, array_byte, array_push, array_start, without_backslashes, array_loop, from_text_array,
}

without_backslashes-escape : (m : Bytes) → Lacks b'\\' m → without_backslashes (escape m) ≡ m
without_backslashes-escape [] h = refl
without_backslashes-escape (c ∷ m) (h, hs) = ground (arith, without_backslashes-escape m hs)

escape-quote : (c : ℕ) (m : Bytes) → c ≡ b'"' → escape (c ∷ m) ≡ b'\\' ∷ c ∷ escape m
escape-quote c m h = ground arith

escape-plain : (c : ℕ) (m : Bytes) → c ≢ b'\\' → (c == b'"') ≡ false → escape (c ∷ m) ≡ c ∷ escape m
escape-plain c m h g = ground arith

abbrev pub NoBackslash : List Bytes → Type 0
NoBackslash [] = Unit
NoBackslash (m ∷ ms) = Lacks b'\\' m × NoBackslash ms

module _ (input : Bytes) (r : Result (List Bytes)) where
  -- With enough fuel the loop ends in `r` from this point.
  abbrev Runs : ℕ → ArrayScan → Type 0
  Runs i s = (fuel : ℕ) → length input < fuel + i → array_loop fuel input i s ≡ r

  Runs-end : (i : ℕ) (s : ArrayScan) → i ≡ length input → r ≡ ok s.result → Runs i s
  unfolding array_loop
  Runs-end i s e h zero enough = absurd (omega arith)
  Runs-end i s e h (suc fuel) enough = ground arith

  -- Inside quotes, at a byte that is no quote or an escaped one.
  Runs-quiet :
      (i : ℕ) (s : ArrayScan)
      → i < length input
      → s.in_quotes ≡ true
      → s.end_pos ≡ 0
      → (at input i ≢ b'"') ⊎ (at input (i - 1) ≡ b'\\')
      → Runs (i + 1) s
      → Runs i s
  unfolding array_loop array_byte
  Runs-quiet i s h q e c k zero enough = absurd (omega arith)
  Runs-quiet i s h q e c k (suc fuel) enough = ground (arith, k fuel)

  Runs-open :
      (i : ℕ) (s : ArrayScan)
      → i < length input
      → s.in_quotes ≡ false
      → s.end_pos ≡ 0
      → at input i ≡ b'"'
      → at input (i - 1) ≢ b'\\'
      → Runs (i + 1) (record s { start_pos = i + 1; in_quotes = true })
      → Runs i s
  unfolding array_loop array_byte
  Runs-open i s h q e c p k zero enough = absurd (omega arith)
  Runs-open i s h q e c p k (suc fuel) enough = ground (arith, k fuel)

  abbrev closed : ℕ → ArrayScan → ArrayScan
  closed i s =
      array_push input (record s { end_pos = i - 1; next_start_pos = i + 2; in_quotes = false })

  Runs-close :
      (i : ℕ) (s : ArrayScan)
      → i < length input
      → 1 < i
      → s.in_quotes ≡ true
      → 0 < s.start_pos
      → at input i ≡ b'"'
      → at input (i - 1) ≢ b'\\'
      → Runs (i + 2) (closed i s)
      → Runs i s
  unfolding array_loop array_byte
  Runs-close i s h h' q e c p k zero enough = absurd (omega arith)
  Runs-close i s h h' q e c p k (suc fuel) enough = ground (arith, k fuel)

  -- The bytes of an escaped member, from behind the byte `p`.
  Runs-escaped :
      (m pre : Bytes) (p : ℕ) (post : Bytes) (i j : ℕ) (s : ArrayScan)
      → Lacks b'\\' m
      → p ≢ b'\\'
      → input ≡ pre ++ p ∷ (escape m ++ b'"' ∷ post)
      → i ≡ length pre + 1
      → j ≡ i + length (escape m)
      → 0 < length pre
      → s.in_quotes ≡ true
      → s.end_pos ≡ 0
      → 0 < s.start_pos
      → Runs (j + 2) (closed j s)
      → Runs i s
  Runs-escaped [] pre p post i j s l np e ei ej pl q en st k =
      let (here, before, bound) = pair_at pre p b'"' post i e ei in
      let same : j ≡ i = omega arith in
      Runs-close i s bound (omega arith) q st here (λ b. np (sym before ∙ b)) (rw same at k)
  Runs-escaped (c ∷ m) pre p post i j s (l, ls) np e ei ej pl q en st k =
      elim (Bool-cases (c == b'"')) [
        | inl quote ↦
            let c_is : c ≡ b'"' = ground arith in
            let e2 : input ≡ pre ++ p ∷ b'\\' ∷ c ∷ (escape m ++ b'"' ∷ post) =
              e ∙ ap (λ t. pre ++ p ∷ (t ++ b'"' ∷ post)) (escape-quote c m c_is) in
            let (slash, _, bound) = pair_at pre p b'\\' _ i e2 ei in
            let e3 = e2 ∙ regroup pre p _ in
            let longer = length-append pre (p ∷ []) in
            let (_, before, bound') = pair_at (pre ++ p ∷ []) b'\\' c _ (i + 1) e3 (omega arith) in
            let last_len = length-append (pre ++ p ∷ []) (b'\\' ∷ []) in
            let jlen = ap length (escape-quote c m c_is) in
            Runs-quiet i s bound q en (inl (omega arith)) (
              Runs-quiet (i + 1) s bound' q en (inr before) (
                Runs-escaped m ((pre ++ p ∷ []) ++ b'\\' ∷ []) c post (i + 1 + 1) j s ls l
                  (e3 ∙ regroup (pre ++ p ∷ []) b'\\' _) (omega arith) (omega arith) (omega arith) q
                  en st k))
        | inr plain ↦
            let e2 : input ≡ pre ++ p ∷ c ∷ (escape m ++ b'"' ∷ post) =
              e ∙ ap (λ t. pre ++ p ∷ (t ++ b'"' ∷ post)) (escape-plain c m l plain) in
            let (here, _, bound) = pair_at pre p c _ i e2 ei in
            let longer = length-append pre (p ∷ []) in
            let jlen = ap length (escape-plain c m l plain) in
            let no_quote : c ≢ b'"' = ground arith in
            Runs-quiet i s bound q en (inl (omega arith)) (
              Runs-escaped m (pre ++ p ∷ []) c post (i + 1) j s ls l (e2 ∙ regroup pre p _)
                (omega arith) (omega arith) (omega arith) q en st k)
      ]

  abbrev after_member : Bytes → ℕ → ArrayScan → ArrayScan
  after_member m i s = record s {
    result = s.result ++ m ∷ [];
    end_pos = 0;
    start_pos = i + length (escape m) + 3;
    next_start_pos = i + length (escape m) + 3;
    in_quotes = false;
  }

  -- A whole quoted member, and the byte behind it.
  Runs-member :
      (m pre : Bytes) (p : ℕ) (post : Bytes) (i : ℕ) (s : ArrayScan)
      → Lacks b'\\' m
      → p ≢ b'\\'
      → input ≡ pre ++ p ∷ b'"' ∷ (escape m ++ b'"' ∷ post)
      → i ≡ length pre + 1
      → s.in_quotes ≡ false
      → s.end_pos ≡ 0
      → Runs (i + length (escape m) + 3) (after_member m i s)
      → Runs i s
  Runs-member m pre p post i s l np e ei q en k =
      let (here, before, bound) = pair_at pre p b'"' _ i e ei in
      let longer = length-append pre (p ∷ []) in
      let longer2 = length-append (pre ++ p ∷ []) (b'"' ∷ []) in
      let j = i + 1 + length (escape m) in
      let e2 : input ≡ (pre ++ p ∷ []) ++ b'"' ∷ (escape m ++ b'"' ∷ post) = e ∙ regroup pre p _ in
      let text : item input (i + 1) (j - 1) ≡ escape m =
        item_split ((pre ++ p ∷ []) ++ b'"' ∷ []) (escape m) (b'"' ∷ post) (i + 1) (j - 1)
          (e2 ∙ regroup (pre ++ p ∷ []) b'"' _) (omega arith) (omega arith) in
      let opened : ArrayScan = record s { start_pos = i + 1; in_quotes = true } in
      let member : without_backslashes (item input (i + 1) (j - 1)) ≡ m =
        ap without_backslashes text ∙ without_backslashes-escape m l in
      let next : j + 2 ≡ i + length (escape m) + 3 = omega arith in
      let state : closed j opened ≡ after_member m i s = ground (arith, member, next) in
      Runs-open i s bound q en here (λ b. np (sym before ∙ b))
        (Runs-escaped m (pre ++ p ∷ []) b'"' post (i + 1) j opened l (omega arith) e2 (omega arith)
          refl (omega arith) refl en (omega arith)
          (λ fuel enough. ap₂ (array_loop fuel input) next state ∙ k fuel (omega arith)))

  Runs-members :
      (m : Bytes) (ms : List Bytes) (pre : Bytes) (p i : ℕ) (s : ArrayScan)
      → NoBackslash (m ∷ ms)
      → p ≢ b'\\'
      → input
        ≡ pre
          ++ p ∷ b'"' ∷ (escape m ++ b'"' ∷ (joined (codes ",") double_quote true ms ++ codes "}"))
      → i ≡ length pre + 1
      → s.in_quotes ≡ false
      → s.end_pos ≡ 0
      → r ≡ ok (s.result ++ m ∷ ms)
      → Runs i s
  unfolding double_quote
  Runs-members m [] pre p i s (l, _) np e ei q en done =
      Runs-member m pre p (codes "}") i s l np e ei q en (
        Runs-end _ (after_member m i s)
          (omega (
            arith,
            ap length e,
            length-append pre (p ∷ b'"' ∷ (escape m ++ b'"' ∷ codes "}")),
            length-append (escape m) (b'"' ∷ codes "}"),
          ))
          done)
  Runs-members m (m2 ∷ ms) pre p i s (l, ls) np e ei q en done =
      Runs-member m pre p _ i s l np e ei q en (
        Runs-members m2 ms (pre ++ p ∷ b'"' ∷ (escape m ++ b'"' ∷ [])) b',' _ (after_member m i s)
          ls (omega arith) (e ∙ simp append_assoc)
          (omega (
            arith,
            length-append pre (p ∷ b'"' ∷ (escape m ++ b'"' ∷ [])),
            length-append (escape m) (b'"' ∷ []),
          ))
          refl refl (done ∙ ap ok (sym (append_assoc s.result (m ∷ []) (m2 ∷ ms)))))

  Runs-brace :
      (m : Bytes) (ms : List Bytes) (body : Bytes)
      → NoBackslash (m ∷ ms)
      → body ≡ joined (codes ",") double_quote false (m ∷ ms) ++ codes "}"
      → input ≡ b'{' ∷ body
      → r ≡ ok (m ∷ ms)
      → Runs 0 array_start
  unfolding array_loop array_byte double_quote
  Runs-brace m ms body l b e done zero enough = absurd (omega arith)
  Runs-brace m ms body l b e done (suc fuel) enough =
      let first : at input 0 ≡ b'{' = ap (λ s. at s 0) e in
      let bound : 0 < length input = omega (arith, ap length e) in
      ground (
        arith,
        first,
        bound,
        Runs-members m ms [] b'{' 1 (record array_start { depth = pos 1 }) l (omega arith)
            (e ∙ ap (◌∷◌ b'{') b ∙ simp append_assoc) refl refl refl done fuel,
      )

-- Reading back what `as_text_array` writes gives the members, if no member has a backslash:
-- quotes, commas, braces, spaces and empty members included.
pub from_text_array-as_text_array :
    (arrayish : List Bytes)
    → NoBackslash arrayish
    → from_text_array (as_text_array arrayish) ≡ ok arrayish
unfolding as_text_array from_text_array
from_text_array-as_text_array [] h = unfold array_byte in refl
from_text_array-as_text_array (m ∷ ms) h =
    rw (at_last b'{' (joined (codes ",") double_quote false (m ∷ ms)) b'}')
      (Runs-brace _ _ m ms _ h refl refl refl _ (omega arith))
