-- ===== src/Text/Composite/Plain.antt =====
-- `from_text_composite_value` on a record that PostgreSQL writes with no quotes.
use mathlib.Core.List.{append_assoc}
use pg_cmd_queue.Base.{
  pos, ℕ, zero, suc, ◌+◌, ◌-◌, ◌<◌, ◌≡◌, refl, ap, ◌≢◌, ◌∙◌, ◌⊎◌, inr, Bool, true, false, Option,
  none, some, List, [], ◌∷◌, ◌++◌, Bytes, codes, length, length-append, ok, arith,
}
use pg_cmd_queue.Text.Quote.{joined}
use pg_cmd_queue.Text.Scan.{at, item_split, here_at, regroup, regroup_all, at_last}
use pg_cmd_queue.Text.Composite.{
  CompositeScan, composite_item, composite_start, composite_step, composite_loop,
  from_text_composite_value,
}

-- A byte that the loop passes over, in quotes or not.
abbrev pub IsInert : Bool → ℕ → Type 0
IsInert quoted c = (c ≢ b'"') × ((quoted ≡ true) ⊎ ((c ≢ b'(') × (c ≢ b')') × (c ≢ b',')))

abbrev pub AllInert : Bool → Bytes → Type 0
AllInert quoted [] = Unit
AllInert quoted (c ∷ cs) = IsInert quoted c × AllInert quoted cs

-- A null field, or one with some bytes, none of them special.
abbrev pub PlainField : Option Bytes → Type 0
PlainField none = Unit
PlainField (some f) = (f ≢ []) × AllInert false f

abbrev pub PlainFields : List (Option Bytes) → Type 0
PlainFields [] = Unit
PlainFields (f ∷ fs) = PlainField f × PlainFields fs

-- How PostgreSQL writes such a field: nothing for null, and no quotes.
abbrev pub plain_text : Option Bytes → Bytes
plain_text none = []
plain_text (some f) = f

composite_step_inert :
    (input : Bytes) (i c : ℕ) (s : CompositeScan)
    → at input i ≡ c
    → IsInert s.in_quotes c
    → s.end_pos ≡ 0
    → composite_step input i s ≡ s
unfolding composite_step
composite_step_inert input i c s h q e = ground arith

-- At a `,`, or at the last `)`, outside quotes.
composite_step_end :
    (input : Bytes) (i : ℕ) (s : CompositeScan)
    → ((at input i ≡ b',') ⊎ ((at input i ≡ b')') × (s.depth ≡ pos 1)))
    → s.in_quotes ≡ false
    → s.end_pos ≡ 0
    → 0 < s.start_pos
    → 1 < i
    → (composite_step input i s).result ≡ s.result ++ composite_item input s.start_pos (i - 1) ∷ []
unfolding composite_step
composite_step_end input i s h q e p b = ground arith

pub composite_step_comma :
    (input : Bytes) (i : ℕ) (s : CompositeScan)
    → at input i ≡ b','
    → s.in_quotes ≡ false
    → 0 < s.start_pos
    → 1 < i
    → composite_step input i s ≡ record s {
      result = s.result ++ composite_item input s.start_pos (i - 1) ∷ [];
      start_pos = i + 1;
      end_pos = 0;
    }
unfolding composite_step
composite_step_comma input i s h q p b = ground arith

pub AllInert-plain_text : (f : Option Bytes) → PlainField f → AllInert false (plain_text f)
AllInert-plain_text none p = tt
AllInert-plain_text (some f) p = p.1

module _ (input : Bytes) (r : List (Option Bytes)) where
  -- The rest of the loop ends in `r` from this point.
  abbrev pub Runs : ℕ → CompositeScan → Type 0
  Runs i s = (rounds : ℕ) → rounds + i ≡ length input → composite_loop rounds input i s ≡ r

  pub Runs-end : (i : ℕ) (s : CompositeScan) → i ≡ length input → s.result ≡ r → Runs i s
  unfolding composite_loop
  Runs-end i s e h zero enough = h
  Runs-end i s e h (suc rounds) enough = absurd (omega arith)

  pub Runs-step :
      (i : ℕ) (s t : CompositeScan)
      → i < length input
      → composite_step input i s ≡ t
      → Runs (i + 1) t
      → Runs i s
  unfolding composite_loop
  Runs-step i s t h e k zero enough = absurd (omega arith)
  Runs-step i s t h e k (suc rounds) enough = rw e (k rounds (omega arith))

  -- Bytes that the loop passes over.
  pub Runs-inert :
      (f pre post : Bytes) (i : ℕ) (s : CompositeScan)
      → AllInert s.in_quotes f
      → s.end_pos ≡ 0
      → input ≡ pre ++ (f ++ post)
      → i ≡ length pre
      → Runs (i + length f) s
      → Runs i s
  Runs-inert [] pre post i s q e h ei k = λ rounds enough.
      ap (λ (j : ℕ). composite_loop rounds input j s) (omega arith) ∙ k rounds (omega arith)
  Runs-inert (c ∷ f) pre post i s (q, qs) e h ei k =
      let (here, bound) = here_at pre c (f ++ post) i h ei in
      Runs-step i s s bound (composite_step_inert input i c s here q e) (
        Runs-inert f (pre ++ c ∷ []) post (i + 1) s qs e (h ∙ regroup pre c _)
          (omega (arith, length-append pre (c ∷ [])))
          (λ rounds enough.
            ap (λ (j : ℕ). composite_loop rounds input j s) (omega arith) ∙ k rounds (omega arith)))

  -- The item between the positions is the field written there.
  pub composite_item-field :
      (f : Option Bytes) (pre post : Bytes) (i : ℕ)
      → PlainField f
      → input ≡ pre ++ (plain_text f ++ post)
      → i ≡ length pre
      → 1 < i + length (plain_text f)
      → composite_item input i (i + length (plain_text f) - 1) ≡ f
  composite_item-field none pre post i pf e ei b = ground arith
  composite_item-field (some []) pre post i (ne, _) e ei b = absurd (ne refl)
  composite_item-field (some (c ∷ f)) pre post i pf e ei b =
      let text = item_split pre (c ∷ f) post i (i + length (c ∷ f) - 1) e ei (omega arith) in
      ground (arith, text)

  pub Runs-fields :
      (f : Option Bytes) (fs : List (Option Bytes)) (pre : Bytes) (i : ℕ) (s : CompositeScan)
      → PlainFields (f ∷ fs)
      → input ≡ pre ++ (plain_text f ++ (joined (codes ",") plain_text true fs ++ codes ")"))
      → i ≡ length pre
      → 0 < i
      → 1 < i + length (plain_text f)
      → s.start_pos ≡ i
      → s.depth ≡ pos 1
      → s.in_quotes ≡ false
      → s.end_pos ≡ 0
      → s.result ++ f ∷ fs ≡ r
      → Runs i s
  Runs-fields f [] pre i s (pf, _) e ei b b' st d q en done =
      let text = plain_text f in
      let j = i + length text in
      let at_text = length-append pre text in
      let (here, bound) =
        here_at (pre ++ text) b')' [] j (e ∙ regroup_all pre text _) (omega arith) in
      let pushed = composite_step_end input j s (inr (here, d)) q en (omega arith) b' in
      let field = composite_item-field f pre (codes ")") i pf e ei b' in
      Runs-inert text pre (codes ")") i s (rw q (AllInert-plain_text f pf)) en e ei (
        Runs-step j s (composite_step input j s) bound refl (
          Runs-end (j + 1) _
            (omega (
              arith,
              ap length e,
              length-append pre (text ++ codes ")"),
              length-append text (codes ")"),
            ))
            (pushed
              ∙ ap (λ (k : ℕ). s.result ++ composite_item input k (j - 1) ∷ []) st
              ∙ ap (λ g. s.result ++ g ∷ []) field
              ∙ done)))
  Runs-fields f (g ∷ fs) pre i s (pf, ps) e ei b b' st d q en done =
      let text = plain_text f in
      let j = i + length text in
      let rest = plain_text g ++ (joined (codes ",") plain_text true fs ++ codes ")") in
      let e' : input ≡ pre ++ (text ++ b',' ∷ rest) = e ∙ simp append_assoc in
      let at_text = length-append pre text in
      let e2 = e' ∙ regroup_all pre text (b',' ∷ rest) in
      let (here, bound) = here_at (pre ++ text) b',' rest j e2 (omega arith) in
      let pushed = composite_step_comma input j s here q (omega arith) b' in
      let field : composite_item input s.start_pos (j - 1) ≡ f =
        ap (λ (k : ℕ). composite_item input k (j - 1)) st
        ∙ composite_item-field f pre (b',' ∷ rest) i pf e' ei b' in
      Runs-inert text pre (b',' ∷ rest) i s (rw q (AllInert-plain_text f pf)) en e' ei (
        Runs-step j s _ bound pushed (
          Runs-fields g fs ((pre ++ text) ++ b',' ∷ []) (j + 1) _ ps
            (e2 ∙ regroup (pre ++ text) b',' rest)
            (omega (arith, length-append (pre ++ text) (b',' ∷ []))) (omega arith) (omega arith)
            refl d q refl
            (ap (λ h. (s.result ++ h ∷ []) ++ g ∷ fs) field
              ∙ append_assoc s.result (f ∷ []) (g ∷ fs)
              ∙ done)))

-- The state behind the opening parenthesis.
abbrev pub opened : Bytes → CompositeScan
unfolding composite_step
opened body = composite_step (b'(' ∷ body) 0 composite_start

-- A first field that is not null, and then any fields, all of them plain: what PostgreSQL writes
-- for such a record is read back, nulls included.
pub from_text_composite_value-plain :
    (first : Bytes) (fs : List (Option Bytes))
    → PlainFields (some first ∷ fs)
    → from_text_composite_value
        (codes "(" ++ (joined (codes ",") plain_text false (some first ∷ fs) ++ codes ")"))
      ≡ ok (some first ∷ fs)
unfolding from_text_composite_value composite_step
from_text_composite_value-plain [] fs p = absurd (p.0.0 refl)
from_text_composite_value-plain (c ∷ first) fs p =
    let body = joined (codes ",") plain_text false (some (c ∷ first) ∷ fs) in
    rw (at_last b'(' body b')') (
      ap ok (
        Runs-fields (b'(' ∷ (body ++ codes ")")) (some (c ∷ first) ∷ fs) (some (c ∷ first)) fs
          (codes "(") 1 (opened (body ++ codes ")")) p (simp append_assoc) refl (omega arith)
          (omega arith) refl refl refl refl refl (length (body ++ codes ")")) (omega arith)))
