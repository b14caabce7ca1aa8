-- ===== src/Nix/Flush.antt =====
-- `NixQueueCmd::flush_stderr`, with what it hands to the logger.
pub mod Lines
pub mod Partial
use pg_cmd_queue.Base.{
  ℕ, suc, ◌+◌, Bool, true, false, ◌&&◌, ◌||◌, not, List, [], ◌∷◌, ◌++◌, ◌==◌, if◌then◌else◌, Bytes,
  length, drop, ltb, Result, ok, err, out_of_range,
}
use pg_cmd_queue.Text.Scan.{c_str}
use pg_cmd_queue.Logger.{LogLevel}
use pg_cmd_queue.Nix.Command.{NixQueueCmd}

abbrev pub is_empty : Bytes → Bool
is_empty [] = true
is_empty (_ ∷ _) = false

abbrev pub is_line_end : ℕ → Bool
is_line_end c = c == b'\n' || c == b'\r'

-- What is handed to `logger->log`, which takes it for a format string that has no arguments: the
-- line up to a zero byte; the position in `cmd_stderr`, and the line being read.
pub record Flushing : Type 0 where
  pub logged : List (LogLevel × Bytes)
  pub position : ℕ
  pub line : Bytes

unfoldable pub flush_byte : LogLevel → ℕ → Flushing → Flushing
flush_byte level c f =
    if is_line_end c
    then record f {
      logged = if is_empty f.line then f.logged else f.logged ++ (level, c_str f.line) ∷ [];
      position = f.position + 1;
      line = [];
    }
    else record f { line = f.line ++ c ∷ []; position = f.position + 1 }

-- `for (char c : v)`.
unfoldable pub flush_bytes : LogLevel → Bytes → Flushing → Flushing
flush_bytes level [] f = f
flush_bytes level (c ∷ v) f = flush_bytes level v (flush_byte level c f)

-- A line with no end is handed over when `flush_on_end` is set.
unfoldable pub flush_last : LogLevel → Bool → Flushing → List (LogLevel × Bytes)
flush_last level flush_on_end f =
    if flush_on_end && not (is_empty f.line)
    then f.logged ++ (level, c_str f.line) ∷ []
    else f.logged

-- The command with its new position, and all the lines logged so far. `std::string_view::substr`
-- throws if the position lies behind the end.
unfoldable pub flush_stderr :
    LogLevel
    → Bool
    → NixQueueCmd
    → List (LogLevel × Bytes)
    → Result (NixQueueCmd × List (LogLevel × Bytes))
unfolding flush_bytes flush_byte flush_last
flush_stderr level flush_on_end cmd logged =
    if ltb (length cmd.cmd_stderr) cmd.flush_stderr_pos
    then err out_of_range
    else let v = drop cmd.flush_stderr_pos cmd.cmd_stderr in
      let f =
        flush_bytes level v
          (record { logged = logged; position = cmd.flush_stderr_pos; line = [] }) in
      ok (record cmd { flush_stderr_pos = f.position }, flush_last level flush_on_end f)
