-- ===== src/Text/Hstore/Nulls.antt =====
-- What `from_text_hstore` (pg_cmdqd/pq-raii/libpq-raii.hpp) makes of a null value, which PostgreSQL
-- and `as_text_hstore` write with no quotes.
use mathlib.Core.List.{append_assoc}
use pg_cmd_queue.Base.{
  ℕ, ◌+◌, ◌-◌, ◌<◌, ◌≡◌, refl, sym, ap, ◌∙◌, inl, inr, some, none, false, [], ◌∷◌, ◌++◌, Bytes,
  codes, length, length-append, Result, ok, arith,
}
use pg_cmd_queue.Text.Quote.{escape, double_quote, as_text_hstore_nullable}
use pg_cmd_queue.Text.Scan.{item, item_split, Lacks, pair_at, here_at, regroup}
use pg_cmd_queue.Text.Hstore.{Hstore, HstoreScan, from_text_hstore}
use pg_cmd_queue.Text.Hstore.Scans.{Runs, Runs-end, Runs-arrow, Runs-between}
use pg_cmd_queue.Text.Hstore.Pair.{length-escape, idle, keyed, PlainValue, Runs-key, Runs-value}

module _ (input : Bytes) (r : Result Hstore) where
  -- Bytes outside quotes that are skipped one by one.
  Runs-skipped :
      (t pre post : Bytes) (i j : ℕ) (s : HstoreScan)
      → Lacks b'"' t
      → Lacks b'=' t
      → input ≡ pre ++ (t ++ post)
      → i ≡ length pre
      → j ≡ i + length t
      → Runs input r j s
      → Runs input r i s
  Runs-skipped [] pre post i j s q l e ei ej k = let same : j ≡ i = omega arith in rw same at k
  Runs-skipped (c ∷ t) pre post i j s (q, qs) (l, ls) e ei ej k =
      let (here, bound) = here_at pre c _ i e ei in
      Runs-between input r i s bound (λ h. q (sym here ∙ h)) (λ h. l (sym here ∙ h))
        (Runs-skipped t (pre ++ c ∷ []) post (i + 1) j s qs ls (e ∙ regroup pre c _)
          (omega (arith, length-append pre (c ∷ []))) (omega arith) k)

  -- The arrow between two texts.
  Runs-arrow_at :
      (pre post : Bytes) (i j : ℕ) (s : HstoreScan)
      → s.in_quotes ≡ false
      → input ≡ pre ++ b'=' ∷ b'>' ∷ post
      → i ≡ length pre
      → j ≡ i + 2
      → Runs input r j s
      → Runs input r i s
  Runs-arrow_at pre post i j s q e ei ej k =
      let (here, bound) = here_at pre b'=' _ i e ei in
      let (second, _, _) = pair_at pre b'=' b'>' _ (i + 1) e (omega arith) in
      Runs-arrow input r i s bound q here second (rw ej at k)

-- Of a null value and a pair behind it, the reader makes one pair: the second key becomes the first
-- key's value, and the second value is lost. The texts have no backslash, the first key is not
-- empty, and the second key is not `NULL` in any case.
pub from_text_hstore-null :
    (k k2 v : Bytes)
    → Lacks b'\\' k
    → 0 < length k
    → PlainValue k2
    → Lacks b'\\' v
    → from_text_hstore (as_text_hstore_nullable ((k, none) ∷ (k2, some v) ∷ []))
      ≡ ok ((escape k, some k2) ∷ [])
unfolding from_text_hstore
from_text_hstore-null k k2 v lk nk pv lv =
    let a = 0 + 1 + length (escape k) in
    let nulls = codes "NULL," in
    let tail = b'=' ∷ b'>' ∷ b'"' ∷ (escape v ++ b'"' ∷ []) in
    let second = b'"' ∷ (escape k2 ++ b'"' ∷ tail) in
    let first = b'"' ∷ (escape k ++ b'"' ∷ []) in
    let input = first ++ b'=' ∷ b'>' ∷ (nulls ++ second) in
    let e : as_text_hstore_nullable ((k, none) ∷ (k2, some v) ∷ []) ≡ input =
      unfold as_text_hstore_nullable double_quote in simp append_assoc in
    let r : Result Hstore = ok ((escape k, some k2) ∷ []) in
    let p2 = first ++ b'=' ∷ b'>' ∷ [] in
    let p3 = p2 ++ nulls in
    let p4 = p3 ++ b'"' ∷ (escape k2 ++ b'"' ∷ []) in
    let p5 = p4 ++ b'=' ∷ b'>' ∷ [] in
    let b = a + 9 + length (escape k2) in
    let c = b + 4 + length (escape v) in
    let len1 : length first ≡ a + 1 = omega (arith, length-append (escape k) (b'"' ∷ [])) in
    let len2 = length-append first (b'=' ∷ b'>' ∷ []) in
    let len3 = length-append p2 nulls in
    let len4 : length p4 ≡ b + 1 = omega (
      arith,
      length-append p3 (b'"' ∷ (escape k2 ++ b'"' ∷ [])),
      length-append (escape k2) (b'"' ∷ []),
    ) in
    let len5 = length-append p4 (b'=' ∷ b'>' ∷ []) in
    let len6 = length-append p5 (b'"' ∷ (escape v ++ b'"' ∷ [])) in
    let len7 = length-append (escape v) (b'"' ∷ []) in
    let e3 : input ≡ p3 ++ second = simp append_assoc in
    let e4 : input ≡ p4 ++ tail = simp append_assoc in
    let e5 : input ≡ p5 ++ b'"' ∷ (escape v ++ b'"' ∷ []) = simp append_assoc in
    let whole : length input ≡ c + 1 = ap length e5 ∙ omega arith in
    let key : item input 1 (a - 1) ≡ escape k =
      item_split {input = input} (b'"' ∷ []) (escape k) (b'"' ∷ b'=' ∷ b'>' ∷ (nulls ++ second)) 1
        (a - 1) (simp append_assoc) refl (omega arith) in
    let (_, comma, _) =
      pair_at {input = input} (p2 ++ codes "NULL") b',' b'"' (escape k2 ++ b'"' ∷ tail) (a + 8)
        (simp append_assoc) (omega (arith, length-append p2 (codes "NULL"))) in
    let (_, arrow, _) =
      pair_at {input = input} (p4 ++ b'=' ∷ []) b'>' b'"' (escape v ++ b'"' ∷ []) (b + 3)
        (e4 ∙ simp append_assoc) (omega (arith, length-append p4 (b'=' ∷ []))) in
    rw e (
      Runs-key input r k [] (b'=' ∷ b'>' ∷ (nulls ++ second)) 0 a [] lk (simp append_assoc) refl
        refl (inl refl)
        (Runs-arrow_at input r first (nulls ++ second) (a + 1) (a + 3) (keyed [] 1 (a - 1)) refl
          refl (sym len1) (omega arith)
          (Runs-skipped input r nulls p2 second (a + 3) (a + 8) (keyed [] 1 (a - 1))
            (omega arith, (omega arith, (omega arith, (omega arith, (omega arith, tt)))))
            (omega arith, (omega arith, (omega arith, (omega arith, (omega arith, tt)))))
            (simp append_assoc) (omega arith) (omega arith)
            (Runs-value input r k2 p3 tail (a + 8) b 1 (a - 1) [] pv e3 (omega arith) (omega arith)
              (inr (λ h. omega (arith, h, comma))) (omega arith) (omega (arith, length-escape k nk))
              (Runs-arrow_at input r p4 _ (b + 1) (b + 3)
                (idle ((item input 1 (a - 1), some k2) ∷ [])) refl e4 (sym len4) (omega arith)
                (Runs-key input r v p5 [] (b + 3) c _ lv e5 (omega arith) (omega arith)
                  (inr (λ h. omega (arith, h, arrow)))
                  (Runs-end input r (c + 1) _ (sym whole)
                    (ap (λ t. ok ((t, some k2) ∷ [])) (sym key))))))))
        (length input + 1) (omega arith))
