-- ===== src/Nix/Poll.antt =====
-- The `poll()` loop of `NixQueueCmd::run_cmd`, from its local variables to one round and the loop.
-- What the kernel answers in a round is a `Round`; times are in microseconds.
pub mod Ends
pub mod Signals
pub mod Captured
pub mod Goes
use pg_cmd_queue.Base.{
  ℕ, ℤ, pos, negsuc, zero, suc, ◌+◌, ◌-◌, ◌/◌, Bool, true, false, not, ◌&&◌, ◌||◌, Option, none,
  some, List, [], ◌∷◌, ◌++◌, ◌==◌, if◌then◌else◌, Bytes, codes, length, ltb, leb, Result, ok, err,
  ◌>>=◌, out_of_fuel,
}
use pg_cmd_queue.Logger.{LogLevel, notice}
use pg_cmd_queue.Nix.Command.{NixQueueCmd}
use pg_cmd_queue.Nix.Flush.{flush_stderr, is_empty}
use pg_cmd_queue.Nix.Io.{Errno, eintr, WriteAnswer, ReadAnswer, write_stdin, read_all}

-- `GRACE_SECONDS_BETWEEN_SIGTERM_AND_SIGKILL`, in microseconds.
abbrev pub grace : ℕ
grace = 1000000

-- What `WIFEXITED`, `WIFSIGNALED` and their kin find in `wstatus`.
pub data WaitStatus : Type 0 where
  exited : ℕ → WaitStatus
  signaled : ℕ → WaitStatus
  unknown : WaitStatus

-- What `waitpid` returns: 0, a negative number, or the child's PID with its status.
pub data Waited : Type 0 where
  running : Waited
  wait_failed : Waited
  reaped_with : WaitStatus → Waited

-- `revents` of the three descriptors; `gone` is `POLLERR` or `POLLHUP`.
pub record Revents : Type 0 where
  pub ready : Bool
  pub gone : Bool

pub data Polled : Type 0 where
  poll_failed : Errno → Polled
  timed_out : Polled
  events : Revents → Revents → Revents → Polled

pub record Round : Type 0 where
  pub top_time : ℕ
  pub waited : Waited
  pub polled : Polled
  pub poll_time : ℕ
  pub last_wait : Waited
  pub writes : List WriteAnswer
  pub stdout_reads : List ReadAnswer
  pub stderr_reads : List ReadAnswer

pub data Signal : Type 0 where
  sigterm sigkill : Signal

-- The local variables, with the signals sent to the child. `fd` is false where the descriptor in
-- `fds[]` was set to -1, and `stdin_open` is false when the pipe's write end has been closed.
pub record PollState : Type 0 where
  pub cmd : NixQueueCmd
  pub logged : List (LogLevel × Bytes)
  pub kills : List Signal
  pub cum_stdin_bytes_written : ℕ
  pub stdin_open : Bool
  pub stdin_events : Bool
  pub stdin_fd : Bool
  pub stdout_fd : Bool
  pub stderr_fd : Bool
  pub tried_sigterm : Bool
  pub sigterm_time : ℕ
  pub res_pid : Waited
  pub reaped : Bool

-- How a round ends: with another one, or with `break`.
pub data Flow : Type 0 where
  continue : PollState → Flow
  leave : PollState → Flow

-- `SIGABRT`.
abbrev pub sigabrt : ℤ
sigabrt = pos 6

unfoldable pub poll_start : NixQueueCmd → List (LogLevel × Bytes) → PollState
poll_start cmd logged = record {
  cmd = cmd;
  logged = logged;
  kills = [];
  cum_stdin_bytes_written = 0;
  stdin_open = true;
  stdin_events = not (is_empty cmd.cmd_stdin);
  stdin_fd = true;
  stdout_fd = true;
  stderr_fd = true;
  tried_sigterm = false;
  sigterm_time = 0;
  res_pid = running;
  reaped = false;
}

-- What `waitpid` answers, for a child that has not been reaped.
unfoldable pub reap_new : Waited → PollState → Flow
reap_new running s = continue (record s { res_pid = running })
reap_new wait_failed s = leave (record s { res_pid = wait_failed })
reap_new (reaped_with w) s = continue (record s { res_pid = reaped_with w; reaped = true })

-- `if (!reaped && (res_pid = waitpid(pid, &wstatus, WNOHANG)) != 0)`.
unfoldable pub reap : Waited → PollState → Flow
unfolding reap_new
reap waited s = if s.reaped then continue s else reap_new waited s

-- The timeout given to `poll()`, in milliseconds; a negative difference becomes 0. What `poll()`
-- answers is an input of the round, whatever the timeout.
unfoldable pub poll_timeout : ℕ → ℕ → PollState → ℤ
poll_timeout queue_cmd_timeout now s =
    if s.reaped
    then pos 0
    else if queue_cmd_timeout == 0
    then negsuc 0
    else pos (
        (queue_cmd_timeout
          + (if s.tried_sigterm then grace else 0)
          + s.cmd.meta.cmd_runtime_start
          - now)
        / 1000)

-- `if (fd_count == 0)`.
unfoldable pub on_timeout : ℕ → ℕ → Waited → PollState → Flow
on_timeout queue_cmd_timeout now last_wait s =
    if s.reaped
    then leave s
    else if leb (queue_cmd_timeout + s.cmd.meta.cmd_runtime_start) now
    then (if s.tried_sigterm
        then (if ltb (s.sigterm_time + grace) now
            then leave (record s { kills = s.kills ++ sigkill ∷ []; res_pid = last_wait })
            else continue s)
        else continue (record s {
          kills = s.kills ++ sigterm ∷ [];
          tried_sigterm = true;
          sigterm_time = now;
        }))
    else continue s

-- A failed call: the message takes the place of the captured standard error.
abbrev pub abort_cmd : Bytes → NixQueueCmd → NixQueueCmd
abort_cmd message cmd = record cmd { cmd_stderr = message; cmd_term_sig = some sigabrt }

-- `strerror()` is the C library's.
module _ (strerror : Errno → Bytes) where
  abbrev pub error_text : Bytes → Errno → Bytes
  error_text what e = what ++ strerror e

  -- A `break` of the round with an error message.
  abbrev pub abort : Bytes → Errno → PollState → Result Flow
  abort what e s = ok (leave (record s { cmd = abort_cmd (error_text what e) s.cmd }))

  -- The bytes written, and what follows when all are.
  unfoldable pub after_write : Option Errno → PollState → Result Flow
  after_write (some e) s = abort (codes "Error during write() to cmd STDIN: ") e s
  after_write none s =
      if s.cum_stdin_bytes_written == length s.cmd.cmd_stdin
      then ok (continue (record s { stdin_open = false; stdin_fd = false; stdin_events = false }))
      else ok (continue s)

  -- `if (fds[0].revents & POLLOUT)`.
  unfoldable pub on_stdin : Revents → List WriteAnswer → PollState → Result Flow
  unfolding after_write
  on_stdin revents answers s =
      if revents.ready
      then (let w = write_stdin answers s.cmd.cmd_stdin s.cum_stdin_bytes_written in
          after_write w.write_error
            (record s { cum_stdin_bytes_written = w.cum_stdin_bytes_written }))
      else ok (continue s)

  unfoldable pub after_stdout : Option Errno → PollState → Result Flow
  after_stdout (some e) s = abort (codes "Error during read() from cmd STDOUT: ") e s
  after_stdout none s = ok (continue s)

  -- `if (fds[1].revents & POLLIN)`.
  unfoldable pub on_stdout : Revents → List ReadAnswer → PollState → Result Flow
  unfolding after_stdout
  on_stdout revents answers s =
      if revents.ready
      then (let r = read_all answers in
          after_stdout r.read_error
            (record s { cmd = record s.cmd { cmd_stdout = s.cmd.cmd_stdout ++ r.bytes_read } }))
      else ok (continue s)

  -- `flush_stderr(LogLevel::LOG_NOTICE, false)`.
  unfoldable pub flush_notice : PollState → Result Flow
  flush_notice s = flush_stderr notice false s.cmd s.logged >>= λ out.
      ok (continue (record s { cmd = out.0; logged = out.1 }))

  unfoldable pub after_stderr : Option Errno → PollState → Result Flow
  after_stderr (some e) s = abort (codes "Error during read() from cmd STDERR: ") e s
  after_stderr none s = flush_notice s

  -- `if (fds[2].revents & POLLIN)`.
  unfoldable pub on_stderr : Revents → List ReadAnswer → PollState → Result Flow
  on_stderr revents answers s =
      if revents.ready
      then (let r = read_all answers in
          after_stderr r.read_error
            (record s { cmd = record s.cmd { cmd_stderr = s.cmd.cmd_stderr ++ r.bytes_read } }))
      else ok (continue s)

  -- The three tests for `POLLERR | POLLHUP`.
  abbrev pub drop_gone : Revents → Revents → Revents → PollState → PollState
  drop_gone r0 r1 r2 s = record s {
    stdin_fd = s.stdin_fd && not r0.gone;
    stdout_fd = s.stdout_fd && not r1.gone;
    stderr_fd = s.stderr_fd && not r2.gone;
  }

  -- The rest of the round, unless it has been left.
  abbrev pub and_then : Result Flow → (PollState → Result Flow) → Result Flow
  and_then (err e) f = err e
  and_then (ok (leave s)) f = ok (leave s)
  and_then (ok (continue s)) f = f s

  -- `if (fd_count > 0)`.
  unfoldable pub on_events : Round → Revents → Revents → Revents → PollState → Result Flow
  on_events round r0 r1 r2 s = and_then (on_stdin r0 round.writes s) λ s1.
      and_then (on_stdout r1 round.stdout_reads s1) λ s2.
        and_then (on_stderr r2 round.stderr_reads s2) λ s3. ok (continue (drop_gone r0 r1 r2 s3))

  -- What follows `poll()`.
  unfoldable pub after_poll : ℕ → Round → Polled → PollState → Result Flow
  after_poll queue_cmd_timeout round (poll_failed eintr) s = ok (continue s)
  after_poll queue_cmd_timeout round (poll_failed e) s = abort (codes "poll() error: ") e s
  after_poll queue_cmd_timeout round timed_out s =
      ok (on_timeout queue_cmd_timeout round.poll_time round.last_wait s)
  after_poll queue_cmd_timeout round (events r0 r1 r2) s = on_events round r0 r1 r2 s

  -- One round of `while (true)`.
  unfoldable pub poll_round : ℕ → Round → PollState → Result Flow
  poll_round queue_cmd_timeout round s =
      and_then (ok (reap round.waited s)) (after_poll queue_cmd_timeout round round.polled)

  -- The loop over the kernel's answers. Without an answer that ends it, it is still running.
  unfoldable pub poll_loop : ℕ → List Round → PollState → Result PollState
  poll_loop queue_cmd_timeout [] s = err out_of_fuel
  poll_loop queue_cmd_timeout (round ∷ rounds) s =
      poll_round queue_cmd_timeout round s
      >>= elim [ leave t ↦ ok t | continue t ↦ poll_loop queue_cmd_timeout rounds t ]
