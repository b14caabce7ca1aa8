-- ===== src/Nix/CmdLine.antt =====
-- `NixQueueCmd::cmd_line` (pg_cmdqd/nixqueuecmd.cpp), the command as it stands in the log, and the
-- line that `run_cmd` logs before it forks. `std::regex_replace` is a parameter; what is used of it
-- is stated in `Quotes`.
pub mod Words
use pg_cmd_queue.Base.{
  ℕ, Bool, true, false, ◌||◌, Option, none, some, List, [], ◌∷◌, ◌++◌, Bytes, ◌==◌, codes,
  if◌then◌else◌, ◌≡◌,
}
use pg_cmd_queue.Text.Scan.{c_str}
use pg_cmd_queue.Nix.Command.{NixQueueCmd}

-- The bytes of the class in the regular expression.
abbrev pub is_one_of : ℕ → List ℕ → Bool
is_one_of b [] = false
is_one_of b (c ∷ cs) = b == c || is_one_of b cs

abbrev pub has_special : Bytes → Bool
has_special [] = false
has_special (b ∷ bs) = is_one_of b (codes " \"$?!&%#,;") || has_special bs

-- What the dots of the expression do not match.
abbrev pub has_line_end : Bytes → Bool
has_line_end [] = false
has_line_end (b ∷ bs) = is_one_of b (codes "\n\r") || has_line_end bs

abbrev pub in_quotes : Bytes → Bytes
in_quotes arg = b'"' ∷ (arg ++ b'"' ∷ [])

-- A text without line ends is matched as a whole if one of the bytes is in it, and is then put
-- between quotes; else it is kept.
pub record Quotes (regex_replace : Bytes → Bytes) : Type 0 where
  pub matched :
      (arg : Bytes)
      → has_line_end arg ≡ false
      → has_special arg ≡ true
      → regex_replace arg ≡ in_quotes arg
  pub kept :
      (arg : Bytes) → has_line_end arg ≡ false → has_special arg ≡ false → regex_replace arg ≡ arg

module _ (regex_replace : Bytes → Bytes) where
  abbrev pub more_args : List Bytes → Bytes
  more_args [] = []
  more_args (arg ∷ argv) = b' ' ∷ (regex_replace arg ++ more_args argv)

  abbrev pub args_line : List Bytes → Bytes
  args_line [] = []
  args_line (arg ∷ argv) = regex_replace arg ++ more_args argv

  unfoldable pub cmd_line : NixQueueCmd → Bytes
  cmd_line cmd = args_line cmd.cmd_argv

  abbrev pub subid_text : Option Bytes → Bytes
  subid_text none = []
  subid_text (some cmd_subid) = codes " (cmd_subid = '" ++ (cmd_subid ++ codes "')")

  -- The message; each `%s` stops at a zero byte.
  unfoldable pub start_message : NixQueueCmd → Bytes
  start_message cmd =
      codes "cmd_id = '"
      ++ (c_str cmd.meta.cmd_id
          ++ (codes "'"
              ++ (c_str (subid_text cmd.meta.cmd_subid)
                  ++ (codes ": \u{1b}[1m" ++ (c_str (cmd_line cmd) ++ codes "\u{1b}[22m")))))
