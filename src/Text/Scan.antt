-- ===== src/Text/Scan.antt =====
-- What the readers of pg_cmdqd/pq-raii/libpq-raii.hpp share: positions in the input, the nesting
-- depth, and the bytes that a writer leaves as they are; and what the C library sees of a string.
use pg_cmd_queue.Base.{
  ℕ, zero, suc, ◌+◌, ◌-◌, ◌<◌, ◌≡◌, refl, ap, ◌≢◌, ◌∙◌, Bool, true, false, [], ◌∷◌, ◌++◌, Bytes,
  length, get_or, get_or-append, drop, take, drop-length_append, take-length_append, substr, arith,
  length-append, ℤ, pos, negsuc, if◌then◌else◌, ◌==◌,
}

-- `input.at(i)`, for an index that the loop's test has checked.
abbrev pub at : Bytes → ℕ → ℕ
at input i = get_or input i 0

-- `++depth` and `depth--`.
abbrev pub inc : ℤ → ℤ
inc (pos n) = pos (suc n)
inc (negsuc zero) = pos 0
inc (negsuc (suc n)) = negsuc n

abbrev pub dec : ℤ → ℤ
dec (pos zero) = negsuc 0
dec (pos (suc n)) = pos n
dec (negsuc n) = negsuc (suc n)

abbrev pub is_one : ℤ → Bool
is_one (pos (suc zero)) = true
is_one _ = false

-- No byte of `s` is `c`.
abbrev pub Lacks : ℕ → Bytes → Type 0
Lacks c [] = Unit
Lacks c (x ∷ xs) = (x ≢ c) × Lacks c xs

-- The item between `start_pos` and `end_pos`, both included. `end_pos + 1` is never below
-- `start_pos`, so the unsigned difference does not wrap.
abbrev pub item : Bytes → ℕ → ℕ → Bytes
item input start_pos end_pos = substr input start_pos (end_pos + 1 - start_pos)

pub at_split :
    {input : Bytes} (pre : Bytes) (c : ℕ) (post : Bytes)
    → input ≡ pre ++ c ∷ post
    → at input (length pre) ≡ c
at_split pre c post e = ap (λ s. at s (length pre)) e ∙ get_or-append pre c post 0

pub item_split :
    {input : Bytes} (pre mid post : Bytes) (start_pos end_pos : ℕ)
    → input ≡ pre ++ (mid ++ post)
    → start_pos ≡ length pre
    → end_pos + 1 ≡ length pre + length mid
    → item input start_pos end_pos ≡ mid
item_split {input} pre mid post start_pos end_pos e s f =
    ap (λ (t : Bytes). item t start_pos end_pos) e
    ∙ ap (λ (k : ℕ). item (pre ++ (mid ++ post)) k end_pos) s
    ∙ ap (λ (k : ℕ). take k (drop (length pre) (pre ++ (mid ++ post))))
        (the_length (end_pos + 1) (length pre) (length mid) f)
    ∙ ap (take (length mid)) (drop-length_append pre (mid ++ post))
    ∙ take-length_append mid post
  where
    the_length : (k a b : ℕ) → k ≡ a + b → k - a ≡ b
    the_length k a b h = omega arith

pub regroup : (pre : Bytes) (p : ℕ) (rest : Bytes) → pre ++ p ∷ rest ≡ (pre ++ p ∷ []) ++ rest
regroup [] p rest = refl
regroup (x ∷ pre) p rest = ap (◌∷◌ x) (regroup pre p rest)

-- The bytes on the two sides of a split, and the bound on the second one's position.
pub pair_at :
    {input : Bytes} (pre : Bytes) (p c : ℕ) (post : Bytes) (i : ℕ)
    → input ≡ pre ++ p ∷ c ∷ post
    → i ≡ length pre + 1
    → (at input i ≡ c) × (at input (i - 1) ≡ p) × (i < length input)
pair_at {input} pre p c post i e h = (
  ap (at input) (second_at (length (pre ++ p ∷ [])) (length-append pre (p ∷ [])))
      ∙ at_split (pre ++ p ∷ []) c post (e ∙ regroup pre p (c ∷ post)),
  ap (at input) (first_at i (length pre) h) ∙ at_split pre p (c ∷ post) e,
  omega (arith, ap length e, length-append pre (p ∷ c ∷ post)),
)
  where
    second_at : (k : ℕ) → k ≡ length pre + 1 → i ≡ k
    second_at k q = omega arith

    first_at : (a b : ℕ) → a ≡ b + 1 → a - 1 ≡ b
    first_at a b q = omega arith

-- The byte behind a prefix, and the bound on its position.
pub here_at :
    {input : Bytes} (pre : Bytes) (c : ℕ) (post : Bytes) (i : ℕ)
    → input ≡ pre ++ c ∷ post
    → i ≡ length pre
    → (at input i ≡ c) × (i < length input)
here_at {input} pre c post i e h = (
  ap (at input) h ∙ at_split pre c post e,
  omega (arith, ap length e, length-append pre (c ∷ post)),
)

pub regroup_all : (pre mid post : Bytes) → pre ++ (mid ++ post) ≡ (pre ++ mid) ++ post
regroup_all [] mid post = refl
regroup_all (x ∷ pre) mid post = ap (◌∷◌ x) (regroup_all pre mid post)

-- The last byte, behind a first one and a body.
pub at_last :
    (first : ℕ) (body : Bytes) (c : ℕ) → at (first ∷ (body ++ c ∷ [])) (length (body ++ c ∷ [])) ≡ c
at_last first body c =
    ap (at (first ∷ (body ++ c ∷ []))) {y = length (first ∷ body)}
      (omega (arith, length-append body (c ∷ [])))
    ∙ at_split (first ∷ body) c [] refl

-- The byte in front of the one that follows `text`: the last of `text`, or `p` if that is empty.
pub at_before-ne :
    {input : Bytes} (text pre : Bytes) (p x : ℕ) (post : Bytes) (i : ℕ)
    → p ≢ x
    → Lacks x text
    → input ≡ pre ++ p ∷ (text ++ post)
    → i ≡ length pre + length text
    → at input i ≢ x
at_before-ne [] pre p x post i np l e h = rw ((here_at pre p post i e (omega arith)).0) np
at_before-ne (c ∷ text) pre p x post i np (l, ls) e h =
    at_before-ne text (pre ++ p ∷ []) c x post i l ls (e ∙ regroup pre p _)
      (omega (arith, length-append pre (p ∷ [])))

-- What the C library sees of a string: the bytes in front of the first zero.
abbrev pub c_str : Bytes → Bytes
c_str [] = []
c_str (c ∷ cs) = if c == 0 then [] else c ∷ c_str cs
