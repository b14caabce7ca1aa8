-- ===== src/Nix/Flush/Partial.antt =====
-- What becomes of a line that is still incomplete at a flush.
use mathlib.Core.List.{append_assoc, append-nil}
use mathlib.Core.Path.{ap₂}
use pg_cmd_queue.Base.{
  ℕ, ◌+◌, ◌≡◌, refl, sym, ap, ◌∙◌, ◌≢◌, Bool, false, List, [], ◌∷◌, ◌++◌, Bytes, drop, length, ok,
  arith, length-append, drop-length_append,
}
use pg_cmd_queue.Text.Scan.{c_str}
use pg_cmd_queue.Logger.{LogLevel}
use pg_cmd_queue.Nix.Command.{NixQueueCmd}
use pg_cmd_queue.Nix.Flush.{
  is_line_end, Flushing, flush_byte, flush_bytes, flush_last, flush_stderr,
}
use pg_cmd_queue.Nix.Flush.Lines.{extended, flush_byte-extended, flush_bytes_position}

-- A text with no line end.
abbrev pub OneLine : Bytes → Type 0
OneLine [] = Unit
OneLine (c ∷ s) = (is_line_end c ≡ false) × OneLine s

flush_bytes-OneLine :
    (level : LogLevel) (a rest : Bytes) (f : Flushing)
    → OneLine a
    → flush_bytes level (a ++ rest) f
      ≡ flush_bytes level rest (record f { line = f.line ++ a; position = f.position + length a })
unfolding flush_bytes
flush_bytes-OneLine level [] rest f h =
    ap (flush_bytes level rest) (ground (arith, append-nil f.line))
flush_bytes-OneLine level (c ∷ a) rest f (h, hs) =
    ap (flush_bytes level (a ++ rest)) (flush_byte-extended level c f h)
    ∙ flush_bytes-OneLine level a rest (extended c f) hs
    ∙ ap (flush_bytes level rest) (ground (arith, append_assoc f.line (c ∷ []) a))

abbrev start : List (LogLevel × Bytes) → ℕ → Flushing
start logged position = record { logged = logged; position = position; line = [] }

-- A flush from the end of a prefix reads what stands behind it.
flush_stderr-suffix :
    (level : LogLevel) (flush_on_end : Bool) (cmd : NixQueueCmd) (logged : List (LogLevel × Bytes))
    (pre v : Bytes)
    → cmd.cmd_stderr ≡ pre ++ v
    → cmd.flush_stderr_pos ≡ length pre
    → flush_stderr level flush_on_end cmd logged
      ≡ ok (
        record cmd { flush_stderr_pos = length (pre ++ v) },
        flush_last level flush_on_end (flush_bytes level v (start logged cmd.flush_stderr_pos)),
      )
unfolding flush_stderr
flush_stderr-suffix level flush_on_end cmd logged pre v e p =
    let rest : drop cmd.flush_stderr_pos cmd.cmd_stderr ≡ v =
      ap₂ drop p e ∙ drop-length_append pre v in
    ground (
      arith,
      rest,
      p,
      ap length e,
      length-append pre v,
      flush_bytes_position level v (start logged cmd.flush_stderr_pos),
    )

flush_last-OneLine :
    (level : LogLevel) (logged : List (LogLevel × Bytes)) (position : ℕ) (a : Bytes)
    → OneLine a
    → flush_last level false (flush_bytes level a (start logged position)) ≡ logged
unfolding flush_bytes flush_last
flush_last-OneLine level logged position a h =
    ap (λ s. flush_last level false (flush_bytes level s (start logged position)))
      (sym (append-nil a))
    ∙ ap (flush_last level false) (flush_bytes-OneLine level a [] (start logged position) h)

flush_last-ended :
    (level : LogLevel) (logged : List (LogLevel × Bytes)) (position : ℕ) (b : Bytes)
    → OneLine b
    → b ≢ []
    → flush_last level false (flush_bytes level (b ++ b'\n' ∷ []) (start logged position))
      ≡ logged ++ (level, c_str b) ∷ []
unfolding flush_bytes flush_last flush_byte
flush_last-ended level logged position [] h ne = absurd (ne refl)
flush_last-ended level logged position (c ∷ b) h ne =
    ap (flush_last level false)
      (flush_bytes-OneLine level (c ∷ b) (b'\n' ∷ []) (start logged position) h)

-- A line that is incomplete at one flush is never logged whole. The flush while the command runs
-- logs nothing of the part `a` that is there, and moves the position behind it, so the next
-- flush, when the line has been completed by `b`, logs `b` alone.
pub flush_stderr_partial :
    (level : LogLevel) (cmd : NixQueueCmd) (logged : List (LogLevel × Bytes)) (done a b : Bytes)
    → OneLine a
    → OneLine b
    → b ≢ []
    → cmd.cmd_stderr ≡ done ++ a
    → cmd.flush_stderr_pos ≡ length done
    → let cmd' = record cmd { flush_stderr_pos = length (done ++ a) } in
      let more = record cmd' { cmd_stderr = (done ++ a) ++ (b ++ b'\n' ∷ []) } in
      (flush_stderr level false cmd logged ≡ ok (cmd', logged))
      × (flush_stderr level false more logged
          ≡ ok (
            record more { flush_stderr_pos = length more.cmd_stderr },
            logged ++ (level, c_str b) ∷ [],
          ))
flush_stderr_partial level cmd logged done a b ha hb ne e p = (
  flush_stderr-suffix level false cmd logged done a e p
      ∙ ap (λ out. ok (record cmd { flush_stderr_pos = length (done ++ a) }, out))
          (flush_last-OneLine level logged _ a ha),
  flush_stderr-suffix level false _ logged (done ++ a) (b ++ b'\n' ∷ []) refl refl
      ∙ ap
          (λ out. ok (
            record cmd {
              flush_stderr_pos = length ((done ++ a) ++ (b ++ b'\n' ∷ []));
              cmd_stderr = (done ++ a) ++ (b ++ b'\n' ∷ []);
            },
            out,
          ))
          (flush_last-ended level logged _ b hb ne),
)
