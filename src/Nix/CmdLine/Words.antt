-- ===== src/Nix/CmdLine/Words.antt =====
-- What can be read of a command that stands in the log (pg_cmdqd/nixqueuecmd.cpp).
use mathlib.Core.List.{append_assoc, append-nil}
use pg_cmd_queue.Base.{
  Bool, true, false, not, ◌||◌, ◌&&◌, List, [], ◌∷◌, ◌++◌, Bytes, ◌==◌, if◌then◌else◌, ◌≡◌, refl,
  sym, ap, ◌∙◌, arith, Bool-cases, inl, inr,
}
use pg_cmd_queue.Nix.Command.{NixQueueCmd}
use pg_cmd_queue.Nix.CmdLine.{has_special, has_line_end, Quotes, more_args, cmd_line}

-- The words of a line: a space ends a word outside of quotes, and the quotes are dropped. The flag
-- is for the inside of quotes.
abbrev pub words_from : Bool → Bytes → Bytes → List Bytes
words_from quoted word [] = word ∷ []
words_from quoted word (b ∷ bs) =
    let toggled = words_from (not quoted) word bs in
    let ended = word ∷ words_from false [] bs in
    let longer = words_from quoted (word ++ b ∷ []) bs in
    if b == b'"' then toggled else if b == b' ' && not quoted then ended else longer

abbrev pub has_quote : Bytes → Bool
has_quote [] = false
has_quote (b ∷ bs) = b == b'"' || has_quote bs

abbrev pub PlainArgs : List Bytes → Type 0
PlainArgs [] = Unit
PlainArgs (arg ∷ argv) = (has_quote arg ≡ false) × (has_line_end arg ≡ false) × PlainArgs argv

-- Inside of quotes up to the closing one.
words_from-quoted :
    (word arg rest : Bytes)
    → has_quote arg ≡ false
    → words_from true word (arg ++ b'"' ∷ rest) ≡ words_from false (word ++ arg) rest
words_from-quoted word [] rest h = ap (λ w. words_from false w rest) (sym (append-nil word))
words_from-quoted word (b ∷ arg) rest h =
    let longer = words_from-quoted (word ++ b ∷ []) arg rest in
    ground (arith, longer, append_assoc word (b ∷ []) arg)

-- Outside of quotes, an argument in which nothing is special.
words_from-plain :
    (word arg rest : Bytes)
    → has_special arg ≡ false
    → words_from false word (arg ++ rest) ≡ words_from false (word ++ arg) rest
words_from-plain word [] rest h = ap (λ w. words_from false w rest) (sym (append-nil word))
words_from-plain word (b ∷ arg) rest h =
    let longer = words_from-plain (word ++ b ∷ []) arg rest in
    ground (arith, longer, append_assoc word (b ∷ []) arg)

module _ (regex_replace : Bytes → Bytes) (quotes : Quotes regex_replace) where
  words_from-arg :
      (arg rest : Bytes)
      → has_quote arg ≡ false
      → has_line_end arg ≡ false
      → words_from false [] (regex_replace arg ++ rest) ≡ words_from false arg rest
  words_from-arg arg rest q l = elim (Bool-cases (has_special arg)) [
    | inl t ↦
        rw (quotes.matched arg l t, append_assoc arg (b'"' ∷ []) rest)
          (words_from-quoted [] arg rest q)
    | inr f ↦ rw (quotes.kept arg l f) (words_from-plain [] arg rest f)
  ]

  words_from-more :
      (word : Bytes) (argv : List Bytes)
      → PlainArgs argv
      → words_from false word (more_args regex_replace argv) ≡ word ∷ argv
  words_from-more word [] p = refl
  words_from-more word (arg ∷ argv) (q, l, p) =
      ap (λ ws. word ∷ ws) (words_from-arg arg _ q l ∙ words_from-more arg argv p)

  -- If no argument has a quotation mark or a line end, the words of the line are the arguments, with
  -- spaces and all.
  pub words-cmd_line :
      (cmd : NixQueueCmd) (arg : Bytes) (argv : List Bytes)
      → cmd.cmd_argv ≡ arg ∷ argv
      → PlainArgs (arg ∷ argv)
      → words_from false [] (cmd_line regex_replace cmd) ≡ arg ∷ argv
  unfolding cmd_line
  words-cmd_line cmd arg argv e (q, l, p) =
      rw e (words_from-arg arg _ q l ∙ words_from-more arg argv p)
