-- ===== src/Nix/Io/Bounds.antt =====
-- What the write loop guarantees.
use pg_cmd_queue.Base.{ℕ, ◌+◌, ◌≤◌, ◌<◌, ◌≡◌, ◌≢◌, ◌⊎◌, none, List, [], ◌∷◌, Bytes, length, arith}
use pg_cmd_queue.Nix.Io.{eintr, WriteAnswer, wrote, write_failed, write_stdin}

-- `write()` never takes more bytes than it is given.
abbrev pub Writes : List WriteAnswer → ℕ → ℕ → Type 0
Writes [] cum size = Unit
Writes (wrote n ∷ answers) cum size = (cum + n ≤ size) × Writes answers (cum + n) size
Writes (write_failed e ∷ answers) cum size = Writes answers cum size

-- If the kernel never reports more bytes written than there were left, the loop ends with all
-- bytes written and no error, or with an error before that, and it never counts more bytes than
-- there are.
pub write_stdin_outcome :
    (answers : List WriteAnswer) (cmd_stdin : Bytes) (cum : ℕ)
    → cum ≤ length cmd_stdin
    → Writes answers cum (length cmd_stdin)
    → let w = write_stdin answers cmd_stdin cum in
      (cum ≤ w.cum_stdin_bytes_written)
      × (((w.cum_stdin_bytes_written ≡ length cmd_stdin) × (w.write_error ≡ none))
          ⊎ ((w.cum_stdin_bytes_written < length cmd_stdin) × (w.write_error ≢ none)))
unfolding write_stdin
write_stdin_outcome [] cmd_stdin cum h ws = ground arith
write_stdin_outcome (wrote n ∷ answers) cmd_stdin cum h (w, ws) =
    ground (arith, write_stdin_outcome answers cmd_stdin (cum + n) w ws)
write_stdin_outcome (write_failed eintr ∷ answers) cmd_stdin cum h ws =
    write_stdin_outcome answers cmd_stdin cum h ws
write_stdin_outcome (write_failed e ∷ answers) cmd_stdin cum h ws = ground arith
