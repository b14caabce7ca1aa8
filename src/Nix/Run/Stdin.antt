-- ===== src/Nix/Run/Stdin.antt =====
-- The pipe to the child's standard input.
use pg_cmd_queue.Base.{
  ℕ, ◌+◌, ◌<◌, ◌≡◌, ◌∙◌, true, false, some, List, [], ◌∷◌, ◌++◌, map, Bytes, codes, length, Result,
  ok, err, ◌>>=◌, arith,
}
use pg_cmd_queue.Logger.{LogLevel}
use pg_cmd_queue.Nix.Command.{NixQueueCmd}
use pg_cmd_queue.Nix.Io.{Errno, eintr, eagain, WriteAnswer, wrote, ReadAnswer, write_stdin}
use pg_cmd_queue.Nix.Poll.{
  Waited, running, wait_failed, reaped_with, Revents, Polled, poll_failed, timed_out, events, Round,
  PollState, Flow, continue, leave, reap, reap_new, on_timeout, on_stdin, on_stdout, flush_notice,
  after_stderr, on_stderr, and_then, on_events, after_poll, poll_round, poll_loop, poll_start,
  sigabrt,
}

abbrev pub sum : List ℕ → ℕ
sum [] = 0
sum (n ∷ ns) = n + sum ns

write_stdin_full :
    (ns : List ℕ) (cmd_stdin : Bytes) (cum : ℕ)
    → cum + sum ns < length cmd_stdin
    → write_stdin (map wrote ns) cmd_stdin cum
      ≡ record { cum_stdin_bytes_written = cum + sum ns; write_error = some eagain }
unfolding write_stdin
write_stdin_full [] cmd_stdin cum h = ground arith
write_stdin_full (n ∷ ns) cmd_stdin cum h = ground (arith, write_stdin_full ns cmd_stdin (cum + n))

module _ (strerror : Errno → Bytes) where
  -- A standard input that does not fit in the pipe aborts the command. The writes go well and the
  -- pipe is then full, which the kernel says by `EAGAIN`: the loop is left at once, with
  -- `SIGABRT` recorded and the message in place of the standard error, and no signal is sent.
  pub poll_round_full_pipe :
      (timeout : ℕ) (round : Round) (ns : List ℕ) (r0 r1 r2 : Revents) (s : PollState)
      → s.reaped ≡ false
      → round.waited ≡ running
      → round.polled ≡ events r0 r1 r2
      → r0.ready ≡ true
      → round.writes ≡ map wrote ns
      → s.cum_stdin_bytes_written + sum ns < length s.cmd.cmd_stdin
      → poll_round strerror timeout round s
        ≡ ok (
            leave (record s {
              cmd = record s.cmd {
                cmd_stderr = codes "Error during write() to cmd STDIN: " ++ strerror eagain;
                cmd_term_sig = some sigabrt;
              };
              cum_stdin_bytes_written = s.cum_stdin_bytes_written + sum ns;
              res_pid = running;
            }))
  unfolding poll_round reap reap_new after_poll on_events on_stdin
  poll_round_full_pipe timeout round ns r0 r1 r2 s alive w p ready ws room =
      ground (arith, write_stdin_full ns s.cmd.cmd_stdin s.cum_stdin_bytes_written room)

  -- The write end of the pipe is as it was.
  abbrev SameStdin : PollState → Result Flow → Type 0
  SameStdin s (err e) = Unit
  SameStdin s (ok (continue t)) = t.stdin_open ≡ s.stdin_open
  SameStdin s (ok (leave t)) = t.stdin_open ≡ s.stdin_open

  SameStdin-and_then :
      (s : PollState) (m : Result Flow) (f : PollState → Result Flow)
      → SameStdin s m
      → ((t : PollState) → t.stdin_open ≡ s.stdin_open → SameStdin s (f t))
      → SameStdin s (and_then strerror m f)
  SameStdin-and_then s (err e) f h k = h
  SameStdin-and_then s (ok (leave t)) f h k = h
  SameStdin-and_then s (ok (continue t)) f h k = k t h

  SameStdin-reap : (waited : Waited) (s : PollState) → SameStdin s (ok (reap waited s))
  unfolding reap reap_new
  SameStdin-reap running s = ground arith
  SameStdin-reap wait_failed s = ground arith
  SameStdin-reap (reaped_with w) s = ground arith

  SameStdin-on_stdin :
      (revents : Revents) (answers : List WriteAnswer) (s t : PollState)
      → revents.ready ≡ false
      → t.stdin_open ≡ s.stdin_open
      → SameStdin s (on_stdin strerror revents answers t)
  unfolding on_stdin
  SameStdin-on_stdin revents answers s t r h = rw r h

  SameStdin-on_stdout :
      (revents : Revents) (answers : List ReadAnswer) (s t : PollState)
      → t.stdin_open ≡ s.stdin_open
      → SameStdin s (on_stdout strerror revents answers t)
  unfolding on_stdout
  SameStdin-on_stdout revents answers s t h = ground arith

  SameStdin-on_stderr :
      (revents : Revents) (answers : List ReadAnswer) (s t : PollState)
      → t.stdin_open ≡ s.stdin_open
      → SameStdin s (on_stderr strerror revents answers t)
  unfolding on_stderr after_stderr flush_notice
  SameStdin-on_stderr revents answers s t h = ground arith

  -- `poll()` does not report that the pipe can be written to.
  abbrev pub NoPollout : Polled → Type 0
  NoPollout (events r0 r1 r2) = r0.ready ≡ false
  NoPollout polled = Unit

  SameStdin-after_poll :
      (timeout : ℕ) (round : Round) (polled : Polled) (s t : PollState)
      → NoPollout polled
      → t.stdin_open ≡ s.stdin_open
      → SameStdin s (after_poll strerror timeout round polled t)
  unfolding after_poll on_timeout on_events
  SameStdin-after_poll timeout round (events r0 r1 r2) s t n h =
      SameStdin-and_then s _ _ (SameStdin-on_stdin r0 round.writes s t n h) λ t1 h1.
        SameStdin-and_then s _ _ (SameStdin-on_stdout r1 round.stdout_reads s t1 h1) λ t2 h2.
          SameStdin-and_then s _ _ (SameStdin-on_stderr r2 round.stderr_reads s t2 h2) λ t3 h3. h3
  SameStdin-after_poll timeout round timed_out s t n h = ground arith
  SameStdin-after_poll timeout round (poll_failed eintr) s t n h = h
  SameStdin-after_poll timeout round (poll_failed e) s t n h = h

  abbrev pub NoPollouts : List Round → Type 0
  NoPollouts [] = Unit
  NoPollouts (round ∷ rounds) = NoPollout round.polled × NoPollouts rounds

  next_round-SameStdin :
      (s : PollState) (m : Result Flow) (f : PollState → Result PollState) {t : PollState}
      → SameStdin s m
      → ((u : PollState) → f u ≡ ok t → t.stdin_open ≡ u.stdin_open)
      → (m >>= elim [ leave u ↦ ok u | continue u ↦ f u ]) ≡ ok t
      → t.stdin_open ≡ s.stdin_open
  next_round-SameStdin s (err e) f r k h = cc
  next_round-SameStdin s (ok (leave u)) f r k h = ground arith
  next_round-SameStdin s (ok (continue u)) f r k h = k u h ∙ r

  poll_loop-SameStdin :
      (timeout : ℕ) (rounds : List Round) (s : PollState) {t : PollState}
      → NoPollouts rounds
      → poll_loop strerror timeout rounds s ≡ ok t
      → t.stdin_open ≡ s.stdin_open
  unfolding poll_loop poll_round
  poll_loop-SameStdin timeout [] s n h = cc
  poll_loop-SameStdin timeout (round ∷ rounds) s (n, ns) h =
      next_round-SameStdin s (poll_round strerror timeout round s) _
        (SameStdin-and_then s (ok (reap round.waited s)) _ (SameStdin-reap round.waited s)
          (λ t e. SameStdin-after_poll timeout round round.polled s t n e))
        (λ u. poll_loop-SameStdin timeout rounds u ns) h

  -- With no standard input to pass on, `POLLOUT` is not asked for, and as long as `poll()` does not
  -- report what it was not asked for, the pipe's write end is never closed in the loop: the child
  -- does not see the end of its standard input.
  pub poll_loop_empty_stdin :
      (timeout : ℕ) (rounds : List Round) (cmd : NixQueueCmd) (logged : List (LogLevel × Bytes))
      {t : PollState}
      → cmd.cmd_stdin ≡ []
      → NoPollouts rounds
      → poll_loop strerror timeout rounds (poll_start cmd logged) ≡ ok t
      → ((poll_start cmd logged).stdin_events ≡ false) × (t.stdin_open ≡ true)
  unfolding poll_start
  poll_loop_empty_stdin timeout rounds cmd logged e n h =
      (rw e, poll_loop-SameStdin timeout rounds _ n h)
