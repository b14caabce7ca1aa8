-- ===== src/Nix/Flush/Lines.antt =====
-- Which lines of the standard error are logged, and which are not.
use mathlib.Core.List.{append_assoc, append-nil}
use pg_cmd_queue.Base.{
  ℕ, ◌+◌, ◌≤◌, ◌≡◌, refl, sym, ap, ◌∙◌, inl, inr, Bool, true, false, not, List, [], ◌∷◌, ◌++◌, map,
  if◌then◌else◌, Bool-cases, Bytes, length, drop, ok, arith, length-drop,
}
use pg_cmd_queue.Text.Scan.{c_str}
use pg_cmd_queue.Logger.{LogLevel}
use pg_cmd_queue.Nix.Command.{NixQueueCmd}
use pg_cmd_queue.Nix.Flush.{
  is_empty, is_line_end, Flushing, flush_byte, flush_bytes, flush_last, flush_stderr,
}

-- The first line of a text, up to a line end, and the lines behind it.
abbrev first_line : Bytes → Bytes
first_line [] = []
first_line (c ∷ s) = if is_line_end c then [] else c ∷ first_line s

abbrev later_lines : Bytes → List Bytes
later_lines [] = []
later_lines (c ∷ s) = if is_line_end c then first_line s ∷ later_lines s else later_lines s

abbrev keep_nonempty : List Bytes → List Bytes
keep_nonempty [] = []
keep_nonempty (l ∷ ls) = if is_empty l then keep_nonempty ls else l ∷ keep_nonempty ls

-- The lines of a text that are not empty; the last one may lack its end.
abbrev pub text_lines : Bytes → List Bytes
text_lines s = keep_nonempty (first_line s ∷ later_lines s)

abbrev at_level : LogLevel → List Bytes → List (LogLevel × Bytes)
at_level level = map (λ l. (level, c_str l))

keep_nonempty-cons :
    (level : LogLevel) (logged : List (LogLevel × Bytes)) (l : Bytes) (ls : List Bytes)
    → (if is_empty l then logged else logged ++ (level, c_str l) ∷ [])
        ++ at_level level (keep_nonempty ls)
      ≡ logged ++ at_level level (keep_nonempty (l ∷ ls))
keep_nonempty-cons level logged [] ls = refl
keep_nonempty-cons level logged (c ∷ l) ls = append_assoc logged ((level, c_str (c ∷ l)) ∷ []) _

abbrev ended : LogLevel → Flushing → Flushing
ended level f = record {
  logged = if is_empty f.line then f.logged else f.logged ++ (level, c_str f.line) ∷ [];
  position = f.position + 1;
  line = [];
}

abbrev pub extended : ℕ → Flushing → Flushing
extended c f = record f { line = f.line ++ c ∷ []; position = f.position + 1 }

flush_byte-ended :
    (level : LogLevel) (c : ℕ) (f : Flushing)
    → is_line_end c ≡ true
    → flush_byte level c f ≡ ended level f
unfolding flush_byte
flush_byte-ended level c f e = rw e

pub flush_byte-extended :
    (level : LogLevel) (c : ℕ) (f : Flushing)
    → is_line_end c ≡ false
    → flush_byte level c f ≡ extended c f
unfolding flush_byte
flush_byte-extended level c f e = rw e

pub flush_bytes_position :
    (level : LogLevel) (v : Bytes) (f : Flushing)
    → (flush_bytes level v f).position ≡ f.position + length v
unfolding flush_bytes
flush_bytes_position level [] f = omega arith
flush_bytes_position level (c ∷ v) f = elim (Bool-cases (is_line_end c)) [
  | inl e ↦
      rw (flush_byte-ended level c f e, flush_bytes)
        (omega (arith, flush_bytes_position level v (ended level f)))
  | inr e ↦
      rw (flush_byte-extended level c f e, flush_bytes)
        (omega (arith, flush_bytes_position level v (extended c f)))
]

flush_bytes_logged :
    (level : LogLevel) (v : Bytes) (f : Flushing)
    → flush_last level true (flush_bytes level v f)
      ≡ f.logged ++ at_level level (keep_nonempty ((f.line ++ first_line v) ∷ later_lines v))
unfolding flush_bytes flush_last
flush_bytes_logged level [] f = rw append-nil (flush_last_keep f.line)
  where
    flush_last_keep :
        (l : Bytes)
        → (if not (is_empty l) then f.logged ++ (level, c_str l) ∷ [] else f.logged)
          ≡ f.logged ++ at_level level (keep_nonempty (l ∷ []))
    flush_last_keep [] = sym (append-nil f.logged)
    flush_last_keep (c ∷ l) = refl
flush_bytes_logged level (c ∷ v) f = elim (Bool-cases (is_line_end c)) [
  | inl e ↦ rw e (
      ap (λ g. flush_last level true (flush_bytes level v g)) (flush_byte-ended level c f e)
      ∙ flush_bytes_logged level v (ended level f)
      ∙ keep_nonempty-cons level f.logged f.line (first_line v ∷ later_lines v)
      ∙ rw append-nil)
  | inr e ↦ rw e (
      ap (λ g. flush_last level true (flush_bytes level v g)) (flush_byte-extended level c f e)
      ∙ flush_bytes_logged level v (extended c f)
      ∙ rw append_assoc)
]

-- A flush from the start of `cmd_stderr` that takes the last line too hands its nonempty lines to
-- the logger, in order, behind what was handed over before, each up to its first zero byte and as a
-- format string with no arguments, and ends at the end of `cmd_stderr`.
pub flush_stderr-text_lines :
    (level : LogLevel) (cmd : NixQueueCmd) (logged : List (LogLevel × Bytes))
    → cmd.flush_stderr_pos ≡ 0
    → flush_stderr level true cmd logged
      ≡ ok (
        record cmd { flush_stderr_pos = length cmd.cmd_stderr },
        logged ++ map (λ l. (level, c_str l)) (text_lines cmd.cmd_stderr),
      )
unfolding flush_stderr
flush_stderr-text_lines level cmd logged z = ground (
  arith,
  flush_bytes_position level cmd.cmd_stderr start,
  flush_bytes_logged level cmd.cmd_stderr start,
)
  where
    start : Flushing
    start = record { logged = logged; position = 0; line = [] }

-- A flush whose position is not behind the end of `cmd_stderr` does not throw, and leaves the
-- position at the end, also where it has not logged the last line.
pub flush_stderr_position :
    (level : LogLevel) (flush_on_end : Bool) (cmd : NixQueueCmd) (logged : List (LogLevel × Bytes))
    → cmd.flush_stderr_pos ≤ length cmd.cmd_stderr
    → (out : List (LogLevel × Bytes)) × (flush_stderr level flush_on_end cmd logged
        ≡ ok (record cmd { flush_stderr_pos = length cmd.cmd_stderr }, out))
unfolding flush_stderr
flush_stderr_position level flush_on_end cmd logged h =
    let start : Flushing = record { logged = logged; position = cmd.flush_stderr_pos; line = [] } in
    let rest = drop cmd.flush_stderr_pos cmd.cmd_stderr in
    (
      flush_last level flush_on_end (flush_bytes level rest start),
      ground (
        arith,
        flush_bytes_position level rest start,
        length-drop cmd.flush_stderr_pos cmd.cmd_stderr,
      ),
    )
