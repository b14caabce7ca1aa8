-- ===== src/Nix/Run/Chunks.antt =====
-- The output of a command as the chunks that `read()` gives, one answer after the other
-- (pg_cmdqd/nixqueuecmd.cpp).
use mathlib.Core.Path.{ap₂}
use pg_cmd_queue.Base.{
  ◌≡◌, refl, ap, ◌≢◌, ◌⊎◌, false, List, [], ◌∷◌, ◌++◌, Bytes, none, if◌then◌else◌,
}
use pg_cmd_queue.Nix.Io.{
  eagain, eintr, eacces, other, ReadAnswer, got, read_failed, read_all, write_stdin,
}
use pg_cmd_queue.Nix.Poll.{wait_failed, Polled, poll_failed, timed_out, events, Round}
use pg_cmd_queue.Nix.Poll.Captured.{
  out_bytes, err_bytes, stdout_of, stderr_of, PlainPolled, PlainRounds,
}

-- Answers of `read()` without an error: chunks, and then nothing more, the end of the file, or
-- `EAGAIN`.
abbrev pub PlainReads : List ReadAnswer → Type 0
PlainReads [] = Unit
PlainReads (got [] ∷ answers) = answers ≡ []
PlainReads (got (c ∷ chunk) ∷ answers) = PlainReads answers
PlainReads (read_failed eagain ∷ answers) = answers ≡ []
PlainReads (read_failed _ ∷ answers) = ⊥

-- All the chunks.
abbrev pub chunks : List ReadAnswer → Bytes
chunks [] = []
chunks (got chunk ∷ answers) = chunk ++ chunks answers
chunks (read_failed e ∷ answers) = chunks answers

-- Of a round, what `read()` answers if the pipe can be read.
abbrev pub out_chunks : Round → Polled → Bytes
out_chunks round (events r0 r1 r2) = if r1.ready then chunks round.stdout_reads else []
out_chunks round _ = []

abbrev pub err_chunks : Round → Polled → Bytes
err_chunks round (events r0 r1 r2) = if r2.ready then chunks round.stderr_reads else []
err_chunks round _ = []

abbrev pub stdout_chunks : List Round → Bytes
stdout_chunks [] = []
stdout_chunks (round ∷ rounds) = out_chunks round round.polled ++ stdout_chunks rounds

abbrev pub stderr_chunks : List Round → Bytes
stderr_chunks [] = []
stderr_chunks (round ∷ rounds) = err_chunks round round.polled ++ stderr_chunks rounds

-- `poll()` is interrupted, or reports events, no call fails, and the pipe takes all of the input if
-- it takes any.
abbrev pub QuietPolled : Bytes → Round → Polled → Type 0
QuietPolled stdin round (events r0 r1 r2) =
    ((r0.ready ≡ false) ⊎ ((write_stdin round.writes stdin 0).write_error ≡ none))
    × (PlainReads round.stdout_reads × PlainReads round.stderr_reads)
QuietPolled stdin round (poll_failed eintr) = Unit
QuietPolled stdin round _ = ⊥

abbrev pub QuietRounds : Bytes → List Round → Type 0
QuietRounds stdin [] = Unit
QuietRounds stdin (round ∷ rounds) =
    ((round.waited ≢ wait_failed) × QuietPolled stdin round round.polled) × QuietRounds stdin rounds

read_all-chunks :
    (answers : List ReadAnswer)
    → PlainReads answers
    → read_all answers ≡ record { bytes_read = chunks answers; read_error = none }
unfolding read_all
read_all-chunks [] h = refl
read_all-chunks (got [] ∷ answers) h = rw h refl
read_all-chunks (got (c ∷ chunk) ∷ answers) h = rw (read_all-chunks answers h) refl
read_all-chunks (read_failed eagain ∷ answers) h = rw h refl
read_all-chunks (read_failed eintr ∷ answers) h = absurd h
read_all-chunks (read_failed eacces ∷ answers) h = absurd h
read_all-chunks (read_failed (other n) ∷ answers) h = absurd h

-- The reading loop reads each chunk.
polled-chunks :
    (stdin : Bytes) (round : Round) (polled : Polled)
    → QuietPolled stdin round polled
    → PlainPolled stdin round polled
      × (out_bytes round polled ≡ out_chunks round polled)
      × (err_bytes round polled ≡ err_chunks round polled)
polled-chunks stdin round (events r0 r1 r2) (w, (o, e)) =
    let ro = read_all-chunks round.stdout_reads o in
    let re = read_all-chunks round.stderr_reads e in
    (
      (w, (ap (λ r. r.read_error) ro, ap (λ r. r.read_error) re)),
      ap (λ r. if r1.ready then r.bytes_read else []) ro,
      ap (λ r. if r2.ready then r.bytes_read else []) re,
    )
polled-chunks stdin round (poll_failed eintr) h = (tt, refl, refl)
polled-chunks stdin round (poll_failed eagain) h = absurd h
polled-chunks stdin round (poll_failed eacces) h = absurd h
polled-chunks stdin round (poll_failed (other n)) h = absurd h
polled-chunks stdin round timed_out h = absurd h

pub rounds-chunks :
    (stdin : Bytes) (rounds : List Round)
    → QuietRounds stdin rounds
    → PlainRounds stdin rounds
      × (stdout_of rounds ≡ stdout_chunks rounds)
      × (stderr_of rounds ≡ stderr_chunks rounds)
rounds-chunks stdin [] h = (tt, refl, refl)
rounds-chunks stdin (round ∷ rounds) ((w, q), h) =
    let (p, o, e) = polled-chunks stdin round round.polled q in
    let (ps, os, es) = rounds-chunks stdin rounds h in
    (((w, p), ps), ap₂ (λ a b. a ++ b) o os, ap₂ (λ a b. a ++ b) e es)
