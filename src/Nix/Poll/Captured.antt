-- ===== src/Nix/Poll/Captured.antt =====
-- What the `poll()` loop captures of a command that ends on its own.
use mathlib.Core.List.{append_assoc, append-nil}
use pg_cmd_queue.Base.{
  ℕ, ◌+◌, ◌≤◌, ◌≡◌, refl, ap, sym, ◌∙◌, ◌≢◌, ◌⊎◌, inl, inr, false, Option, none, some, List, [],
  ◌∷◌, ◌++◌, Bytes, length, ltb, if◌then◌else◌, arith,
}
use pg_cmd_queue.Nix.Command.{NixQueueCmd}
use pg_cmd_queue.Nix.Io.{eintr, WriteAnswer, wrote, write_failed, read_all, write_stdin}
use pg_cmd_queue.Nix.Poll.{
  WaitStatus, Waited, wait_failed, reaped_with, Polled, poll_failed, events, Round, PollState,
}

-- The bytes that `read()` gave in a round, of the two pipes.
abbrev pub out_bytes : Round → Polled → Bytes
out_bytes round (events r0 r1 r2) =
    if r1.ready then (read_all round.stdout_reads).bytes_read else []
out_bytes round _ = []

abbrev pub err_bytes : Round → Polled → Bytes
err_bytes round (events r0 r1 r2) =
    if r2.ready then (read_all round.stderr_reads).bytes_read else []
err_bytes round _ = []

abbrev pub stdout_of : List Round → Bytes
stdout_of [] = []
stdout_of (round ∷ rounds) = out_bytes round round.polled ++ stdout_of rounds

abbrev pub stderr_of : List Round → Bytes
stderr_of [] = []
stderr_of (round ∷ rounds) = err_bytes round round.polled ++ stderr_of rounds

-- The first status that `waitpid` gives.
abbrev pub status_in : Waited → Option WaitStatus → Option WaitStatus
status_in (reaped_with w) later = some w
status_in _ later = later

abbrev pub status_of : List Round → Option WaitStatus
status_of [] = none
status_of (round ∷ rounds) = status_in round.waited (status_of rounds)

-- `poll()` is interrupted, or reports events, no call fails, and the pipe takes all of the input if
-- it takes any.
abbrev pub PlainPolled : Bytes → Round → Polled → Type 0
PlainPolled stdin round (events r0 r1 r2) =
    ((r0.ready ≡ false) ⊎ ((write_stdin round.writes stdin 0).write_error ≡ none))
    × (((read_all round.stdout_reads).read_error ≡ none)
        × ((read_all round.stderr_reads).read_error ≡ none))
PlainPolled stdin round (poll_failed eintr) = Unit
PlainPolled stdin round _ = ⊥

abbrev pub PlainRounds : Bytes → List Round → Type 0
PlainRounds stdin [] = Unit
PlainRounds stdin (round ∷ rounds) =
    ((round.waited ≢ wait_failed) × PlainPolled stdin round round.polled) × PlainRounds stdin rounds

-- Nothing of the input has been written, or all of it.
abbrev pub FedAll : Bytes → ℕ → Type 0
FedAll stdin cum = (cum ≡ 0) ⊎ (ltb cum (length stdin) ≡ false)

write_stdin_all :
    (answers : List WriteAnswer) (stdin : Bytes) (cum : ℕ)
    → (write_stdin answers stdin cum).write_error ≡ none
    → ltb (write_stdin answers stdin cum).cum_stdin_bytes_written (length stdin) ≡ false
unfolding write_stdin
write_stdin_all [] stdin cum h = ground arith
write_stdin_all (wrote n ∷ answers) stdin cum h =
    ground (arith, write_stdin_all answers stdin (cum + n))
write_stdin_all (write_failed eintr ∷ answers) stdin cum h = write_stdin_all answers stdin cum h
write_stdin_all (write_failed e ∷ answers) stdin cum h = ground arith

write_stdin_done :
    (answers : List WriteAnswer) (stdin : Bytes) (cum : ℕ)
    → ltb cum (length stdin) ≡ false
    → write_stdin answers stdin cum ≡ record { cum_stdin_bytes_written = cum; write_error = none }
unfolding write_stdin
write_stdin_done [] stdin cum h = ground arith
write_stdin_done (wrote n ∷ answers) stdin cum h = ground arith
write_stdin_done (write_failed eintr ∷ answers) stdin cum h = write_stdin_done answers stdin cum h
write_stdin_done (write_failed e ∷ answers) stdin cum h = ground arith

-- Either way, a round writes without an error, and then all has been written.
pub write_stdin-FedAll :
    (answers : List WriteAnswer) (stdin : Bytes) (cum : ℕ)
    → FedAll stdin cum
    → (write_stdin answers stdin 0).write_error ≡ none
    → ((write_stdin answers stdin cum).write_error ≡ none)
      × (ltb (write_stdin answers stdin cum).cum_stdin_bytes_written (length stdin) ≡ false)
write_stdin-FedAll answers stdin cum (inl z) h = rw z (h, write_stdin_all answers stdin 0 h)
write_stdin-FedAll answers stdin cum (inr d) h = rw (write_stdin_done answers stdin cum d) (refl, d)

-- From the first state to the second these bytes have been captured, and nothing else has happened
-- to the command.
pub record Captured (s : PollState) (out er : Bytes) (t : PollState) : Type 0 where
  pub position : ℕ
  pub cmd : t.cmd ≡ record s.cmd {
    cmd_stdout = s.cmd.cmd_stdout ++ out;
    cmd_stderr = s.cmd.cmd_stderr ++ er;
    flush_stderr_pos = position;
  }
  pub kills : t.kills ≡ s.kills
  pub fed : FedAll s.cmd.cmd_stdin t.cum_stdin_bytes_written
  pub within : position ≤ length (s.cmd.cmd_stderr ++ er)

-- What is known of the child's end.
abbrev pub SameChild : PollState → PollState → Type 0
SameChild s t = (t.reaped ≡ s.reaped) × (t.res_pid ≡ s.res_pid)

-- Before a round: the input has been written as a whole or not at all, and the flush position lies
-- in the standard error.
abbrev pub CanGoOn : PollState → Type 0
CanGoOn s =
    FedAll s.cmd.cmd_stdin s.cum_stdin_bytes_written
    × (s.cmd.flush_stderr_pos ≤ length s.cmd.cmd_stderr)

pub Captured-CanGoOn : {s t : PollState} {out er : Bytes} → Captured s out er t → CanGoOn t
Captured-CanGoOn c = rw c.cmd (c.fed, c.within)

pub Captured-same :
    (s t : PollState)
    → CanGoOn s
    → t.cmd ≡ s.cmd
    → t.kills ≡ s.kills
    → FedAll s.cmd.cmd_stdin t.cum_stdin_bytes_written
    → Captured s [] [] t
Captured-same s t g c k f = record {
  position = s.cmd.flush_stderr_pos;
  cmd = c ∙ simp append-nil;
  kills = k;
  fed = f;
  within = simp append-nil (g.1);
}

pub Captured-trans :
    {s t u : PollState} {o1 e1 o2 e2 : Bytes}
    → Captured s o1 e1 t
    → Captured t o2 e2 u
    → Captured s (o1 ++ o2) (e1 ++ e2) u
Captured-trans {s} {t} {u} {o1} {e1} {o2} {e2} a b = record {
  position = b.position;
  cmd =
      b.cmd
      ∙ ap
          (λ (k : NixQueueCmd). record k {
            cmd_stdout = k.cmd_stdout ++ o2;
            cmd_stderr = k.cmd_stderr ++ e2;
            flush_stderr_pos = b.position;
          })
          a.cmd
      ∙ simp append_assoc;
  kills = b.kills ∙ a.kills;
  fed = rw (sym (ap (λ (k : NixQueueCmd). k.cmd_stdin) a.cmd)) b.fed;
  within =
      rw
        (sym (append_assoc s.cmd.cmd_stderr e1 e2)
          ∙ ap (λ (k : NixQueueCmd). k.cmd_stderr ++ e2) (sym a.cmd))
        b.within;
}
