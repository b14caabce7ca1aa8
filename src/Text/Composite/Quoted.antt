-- ===== src/Text/Composite/Quoted.antt =====
-- `from_text_composite_value` on a record in which PostgreSQL quotes a field.
use mathlib.Core.List.{append_assoc}
use mathlib.Core.Path.{ap₂}
use pg_cmd_queue.Base.{
  pos, ℕ, ◌+◌, ◌-◌, ◌<◌, ◌≡◌, refl, sym, ap, ◌≢◌, ◌∙◌, inl, Bool, true, false, Option, none, some,
  List, [], ◌∷◌, ◌++◌, Bytes, codes, length, length-append, ok, arith,
}
use pg_cmd_queue.Text.Scan.{
  at, item, item_split, here_at, regroup, regroup_all, at_last, at_before-ne, Lacks, pair_at,
}
use pg_cmd_queue.Text.Composite.{
  CompositeScan, composite_item, composite_start, composite_step, composite_loop,
  from_text_composite_value,
}
use pg_cmd_queue.Text.Composite.Plain.{
  AllInert, PlainField, plain_text, Runs, Runs-step, Runs-inert, Runs-fields, composite_step_comma,
  composite_item-field,
}

AllInert-Lacks : (s : Bytes) (quoted : Bool) → quoted ≡ true → Lacks b'"' s → AllInert quoted s
AllInert-Lacks [] quoted q l = tt
AllInert-Lacks (c ∷ s) quoted q (l, ls) = ((l, inl q), AllInert-Lacks s quoted q ls)

composite_step_open :
    (input : Bytes) (i : ℕ) (s : CompositeScan)
    → at input i ≡ b'"'
    → at input (i - 1) ≢ b'\\'
    → s.in_quotes ≡ false
    → s.end_pos ≡ 0
    → composite_step input i s ≡ record s { start_pos = i + 1; in_quotes = true }
unfolding composite_step
composite_step_open input i s h p q e = ground arith

composite_step_close :
    (input : Bytes) (i : ℕ) (s : CompositeScan)
    → at input i ≡ b'"'
    → at input (i - 1) ≢ b'\\'
    → s.in_quotes ≡ true
    → 0 < s.start_pos
    → 1 < i
    → composite_step input i s ≡ record s {
      result = s.result ++ composite_item input s.start_pos (i - 1) ∷ [];
      start_pos = i + 1;
      end_pos = 0;
      in_quotes = false;
    }
unfolding composite_step
composite_step_close input i s h p q b c = ground arith

-- The payload of a `NOTIFY`: a class name and a sub-identifier that need no quotes, and an
-- identifier in quotes.
abbrev pub quoted_payload : Bytes → Bytes → Option Bytes → Bytes
quoted_payload cls id subid =
    b'(' ∷ (cls ++ b',' ∷ b'"' ∷ (id ++ b'"' ∷ b',' ∷ (plain_text subid ++ codes ")")))

composite_item-some :
    (id input : Bytes) (start_pos end_pos : ℕ)
    → id ≢ []
    → 0 < start_pos
    → item input start_pos end_pos ≡ id
    → end_pos + 1 ≡ start_pos + length id
    → composite_item input start_pos end_pos ≡ some id
composite_item-some [] input start_pos end_pos ne b text e = absurd (ne refl)
composite_item-some (c ∷ id) input start_pos end_pos ne b text e = ground arith

-- The state behind two items.
abbrev two_items : CompositeScan → Option Bytes → Option Bytes → ℕ → CompositeScan
two_items s f g start = record s {
  result = (s.result ++ f ∷ []) ++ g ∷ [];
  start_pos = start;
  end_pos = 0;
  in_quotes = false;
}

module _ (input : Bytes) (r : List (Option Bytes)) where
  -- A quoted item and the `,` behind it push the item, and then a null.
  Runs-quoted :
      (id pre : Bytes) (p : ℕ) (post : Bytes) (i : ℕ) (s : CompositeScan)
      → Lacks b'"' id
      → Lacks b'\\' id
      → id ≢ []
      → p ≢ b'\\'
      → input ≡ pre ++ p ∷ b'"' ∷ (id ++ b'"' ∷ b',' ∷ post)
      → i ≡ length pre + 1
      → s.in_quotes ≡ false
      → s.end_pos ≡ 0
      → Runs input r (i + length id + 3) (two_items s (some id) none (i + length id + 3))
      → Runs input r i s
  Runs-quoted id pre p post i s lq lb ne np e ei q en k =
      let j = i + 1 + length id in
      let pre1 : Bytes = pre ++ p ∷ [] in
      let pre2 : Bytes = pre1 ++ b'"' ∷ [] in
      let pre3 : Bytes = pre2 ++ id in
      let pre4 : Bytes = pre3 ++ b'"' ∷ [] in
      let len1 = length-append pre (p ∷ []) in
      let len2 = length-append pre1 (b'"' ∷ []) in
      let len3 = length-append pre2 id in
      let len4 = length-append pre3 (b'"' ∷ []) in
      let e1 : input ≡ pre1 ++ b'"' ∷ (id ++ b'"' ∷ b',' ∷ post) = e ∙ regroup pre p _ in
      let e2 : input ≡ pre2 ++ (id ++ b'"' ∷ b',' ∷ post) = e1 ∙ regroup pre1 b'"' _ in
      let e3 : input ≡ pre3 ++ b'"' ∷ b',' ∷ post = e2 ∙ regroup_all pre2 id _ in
      let e4 : input ≡ pre4 ++ b',' ∷ post = e3 ∙ regroup pre3 b'"' _ in
      let (here, before, bound) = pair_at pre p b'"' _ i e ei in
      let (close, bound2) = here_at pre3 b'"' _ j e3 (omega arith) in
      let (comma, bound3) = here_at pre4 b',' _ (j + 1) e4 (omega arith) in
      let last = at_before-ne id pre1 b'"' b'\\' _ (j - 1) (omega arith) lb e1 (omega arith) in
      let text = item_split pre2 id _ (i + 1) (j - 1) e2 (omega arith) (omega arith) in
      let pushed =
        composite_item-some id input (i + 1) (j - 1) ne (omega arith) text (omega arith) in
      let null : composite_item input (j + 1) (j + 1 - 1) ≡ none = ground arith in
      let next : j + 1 + 1 ≡ i + length id + 3 = omega arith in
      let state : two_items s (composite_item input (i + 1) (j - 1))
            (composite_item input (j + 1) (j + 1 - 1)) (j + 1 + 1)
          ≡ two_items s (some id) none (i + length id + 3) =
        ground (arith, pushed, null, next) in
      Runs-step input r i s _ bound
        (composite_step_open input i s here (λ b. np (sym before ∙ b)) q en)
        (Runs-inert input r id pre2 (b'"' ∷ b',' ∷ post) (i + 1) _ (AllInert-Lacks id true refl lq)
          en e2 (omega arith)
          (Runs-step input r j _ _ bound2
            (composite_step_close input j _ close last refl (omega arith) (omega arith))
            (Runs-step input r (j + 1) _ _ bound3
              (composite_step_comma input (j + 1) _ comma refl (omega arith) (omega arith))
              (λ rounds enough.
                ap₂ (composite_loop rounds input) next state ∙ k rounds (omega arith)))))

abbrev payload_result : Bytes → Bytes → Option Bytes → List (Option Bytes)
payload_result cls id subid = some cls ∷ some id ∷ none ∷ subid ∷ []

Runs-payload :
    (cls id : Bytes) (subid : Option Bytes)
    → PlainField (some cls)
    → Lacks b'"' id
    → Lacks b'\\' id
    → id ≢ []
    → PlainField subid
    → 0 < length cls
    → let input = quoted_payload cls id subid in
      Runs input
        (payload_result cls id subid)
        1
        (record composite_start { depth = pos 1; item_num = 1; start_pos = 1 })
Runs-payload cls id subid p lq lb ne ps pl =
    let tail : Bytes = plain_text subid ++ codes ")" in
    let quoted : Bytes = b',' ∷ b'"' ∷ (id ++ b'"' ∷ b',' ∷ tail) in
    let input : Bytes = b'(' ∷ (cls ++ quoted) in
    let r : List (Option Bytes) = payload_result cls id subid in
    let s : CompositeScan = record composite_start { depth = pos 1; item_num = 1; start_pos = 1 } in
    let j = 1 + length cls in
    let (comma, bound) = here_at {input = input} (b'(' ∷ cls) b',' _ j refl (omega arith) in
    let class_is : composite_item input 1 (j - 1) ≡ some cls =
      composite_item-field input [] (some cls) (codes "(") quoted 1 p refl refl (omega arith) in
    let pre : Bytes = (b'(' ∷ cls) ++ b',' ∷ b'"' ∷ (id ++ b'"' ∷ b',' ∷ []) in
    let k = j + 1 + length id + 3 in
    let at_rest : k ≡ length pre = omega (
      arith,
      length-append (b'(' ∷ cls) (b',' ∷ b'"' ∷ (id ++ b'"' ∷ b',' ∷ [])),
      length-append id (b'"' ∷ b',' ∷ []),
    ) in
    Runs-inert input r cls (codes "(") quoted 1 s p.1 refl refl refl (
      Runs-step input r j s _ bound
        (composite_step_comma input j s comma refl (omega arith) (omega arith))
        (Runs-quoted input r id (b'(' ∷ cls) b',' tail (j + 1) _ lq lb ne (omega arith) refl
          (omega arith) refl refl
          (Runs-fields input r subid [] pre k _ (ps, tt) (simp append_assoc) at_rest (omega arith)
            (omega arith) refl refl refl refl
            (ap (λ f. f ∷ some id ∷ none ∷ subid ∷ []) class_is))))

at_end :
    (cls id : Bytes) (subid : Option Bytes)
    → let body = cls ++ b',' ∷ b'"' ∷ (id ++ b'"' ∷ b',' ∷ (plain_text subid ++ codes ")")) in
      at (b'(' ∷ body) (length body) ≡ b')'
at_end cls id subid =
    let front : Bytes = cls ++ b',' ∷ b'"' ∷ (id ++ b'"' ∷ b',' ∷ plain_text subid) in
    let whole : cls ++ b',' ∷ b'"' ∷ (id ++ b'"' ∷ b',' ∷ (plain_text subid ++ codes ")"))
        ≡ front ++ codes ")" =
      simp append_assoc in
    rw whole (at_last b'(' front b')')

-- A payload in which the identifier stands in quotes is read as four fields and not three: behind
-- the identifier comes a null that nobody wrote. The identifier is not empty and has no quote or
-- backslash itself; the class and the sub-identifier need no quotes.
pub from_text_composite_value-quoted_payload :
    (cls id : Bytes) (subid : Option Bytes)
    → PlainField (some cls)
    → Lacks b'"' id
    → Lacks b'\\' id
    → id ≢ []
    → PlainField subid
    → from_text_composite_value (quoted_payload cls id subid)
      ≡ ok (some cls ∷ some id ∷ none ∷ subid ∷ [])
unfolding from_text_composite_value composite_step
from_text_composite_value-quoted_payload [] id subid p lq lb ne ps = absurd (p.0 refl)
from_text_composite_value-quoted_payload (c ∷ cls) id subid p lq lb ne ps =
    rw (at_end (c ∷ cls) id subid) (
      ap ok (
        Runs-payload (c ∷ cls) id subid p lq lb ne ps (omega arith)
          (length
            ((c ∷ cls) ++ b',' ∷ b'"' ∷ (id ++ b'"' ∷ b',' ∷ (plain_text subid ++ codes ")"))))
          (omega arith)))
