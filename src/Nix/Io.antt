-- ===== src/Nix/Io.antt =====
-- The `write()` and `read()` loops on the pipes to the child process, in `NixQueueCmd::run_cmd`.
-- What the kernel answers to the successive calls in one round is a list; when it is used up, the
-- kernel answers `EAGAIN`, since the parent's ends of the pipes are non-blocking.
pub mod Bounds
use pg_cmd_queue.Base.{
  ℕ, ◌+◌, Bool, true, false, Option, none, some, List, [], ◌∷◌, ◌++◌, Bytes, length, ltb,
  if◌then◌else◌,
}

-- `errno`.
pub data Errno : Type 0 where
  eintr eagain eacces : Errno
  other : ℕ → Errno

pub data WriteAnswer : Type 0 where
  wrote : ℕ → WriteAnswer
  write_failed : Errno → WriteAnswer

-- An empty chunk is the end of the file.
pub data ReadAnswer : Type 0 where
  got : Bytes → ReadAnswer
  read_failed : Errno → ReadAnswer

pub record Writing : Type 0 where
  pub cum_stdin_bytes_written : ℕ
  pub write_error : Option Errno

-- `while (cum_stdin_bytes_written < (ssize_t)cmd_stdin.length())`. Only `EINTR` is tried again.
unfoldable pub write_stdin : List WriteAnswer → Bytes → ℕ → Writing
write_stdin [] cmd_stdin cum = record {
  cum_stdin_bytes_written = cum;
  write_error = if ltb cum (length cmd_stdin) then some eagain else none;
}
write_stdin (wrote n ∷ answers) cmd_stdin cum =
    let rest = write_stdin answers cmd_stdin (cum + n) in
    if ltb cum (length cmd_stdin)
    then rest
    else record { cum_stdin_bytes_written = cum; write_error = none }
write_stdin (write_failed eintr ∷ answers) cmd_stdin cum = write_stdin answers cmd_stdin cum
write_stdin (write_failed e ∷ answers) cmd_stdin cum = record {
  cum_stdin_bytes_written = cum;
  write_error = if ltb cum (length cmd_stdin) then some e else none;
}

pub record Reading : Type 0 where
  pub bytes_read : Bytes
  pub read_error : Option Errno

-- `while ((bytes_read = read(…)) > 0)`, with what is appended to the captured output.
unfoldable pub read_all : List ReadAnswer → Reading
read_all [] = record { bytes_read = []; read_error = none }
read_all (got [] ∷ answers) = record { bytes_read = []; read_error = none }
read_all (got (c ∷ chunk) ∷ answers) =
    let rest = read_all answers in
    record { bytes_read = (c ∷ chunk) ++ rest.bytes_read; read_error = rest.read_error }
read_all (read_failed eagain ∷ answers) = record { bytes_read = []; read_error = none }
read_all (read_failed e ∷ answers) = record { bytes_read = []; read_error = some e }
