-- ===== src/Nix/Run.antt =====
-- `NixQueueCmd::run_cmd` round its `poll()` loop, in the parent process: `fork()` and the signal
-- mask in front, the exit status and the error log behind. `logged` holds the lines of the
-- standard error that were handed to the logger.
pub mod Status
pub mod Stdin
pub mod Chunks
pub mod Outputs
use pg_cmd_queue.Base.{
  ℕ, ℤ, pos, negsuc, Bool, true, false, not, Option, none, some, List, [], ◌∷◌, ◌++◌, if◌then◌else◌,
  Bytes, codes, Result, ok, err, runtime_error, ◌>>=◌,
}
use pg_cmd_queue.Logger.{LogLevel, error}
use pg_cmd_queue.Nix.Command.{NixQueueCmd, cmd_succeeded}
use pg_cmd_queue.Nix.Flush.{flush_stderr}
use pg_cmd_queue.Nix.Io.{Errno, eacces}
use pg_cmd_queue.Nix.Poll.{
  WaitStatus, exited, signaled, unknown, Waited, running, wait_failed, reaped_with, Round, Signal,
  PollState, poll_start, abort_cmd, sigabrt, poll_loop,
}

-- What `fork()`, and then `setpgid()` and `sigprocmask()`, answer in the parent. `no_pipes`: one of
-- the three constructors of `PipeFds` in front throws. `unclosed`: the child is there, and then one
-- of the `close()`s that `run_cmd` or the destructors call on the pipes fails, so that an exception
-- is thrown. With the others, each `close()` succeeds at last.
pub data Forked : Type 0 where
  no_pipes unclosed : Forked
  fork_failed : Errno → Forked
  forked : Option Errno → Option Errno → Forked

-- The command after `run_cmd`, the lines logged, the signals sent to the child, and whether
-- `SIGINT` and `SIGQUIT` are still masked in the calling thread.
pub record Ran : Type 0 where
  pub cmd : NixQueueCmd
  pub logged : List (LogLevel × Bytes)
  pub kills : List Signal
  pub masked : Bool

-- `setpgid(pid, pid) < 0 and errno != EACCES`.
abbrev pub setpgid_failed : Option Errno → Option Errno
setpgid_failed (some eacces) = none
setpgid_failed e = e

-- `if (res_pid == 0) res_pid = waitpid(pid, &wstatus, WNOHANG);`
abbrev pub last_chance : Waited → Waited → Waited
last_chance running final_wait = final_wait
last_chance res_pid final_wait = res_pid

-- The fields set from `wstatus`; -2 where there is no terminating signal either.
abbrev pub set_status : WaitStatus → NixQueueCmd → NixQueueCmd
set_status (exited code) cmd = record cmd { cmd_exit_code = some code }
set_status (signaled sig) cmd = record cmd { cmd_term_sig = some (pos sig) }
set_status unknown cmd = record cmd { cmd_term_sig = some (negsuc 1) }

-- What becomes of the command with the last answer of `waitpid`; `wait_message` is the text that
-- is formatted with the PID and `errno`.
unfoldable pub take_status : Bytes → Waited → NixQueueCmd → NixQueueCmd
take_status wait_message running cmd = cmd
take_status wait_message wait_failed cmd = record cmd {
  cmd_term_sig = some (negsuc 0);
  cmd_stderr = cmd.cmd_stderr ++ wait_message;
}
take_status wait_message (reaped_with w) cmd = set_status w cmd

-- `if (not cmd_succeeded())`: the whole standard error is logged as an error.
unfoldable pub log_failure :
    NixQueueCmd → List (LogLevel × Bytes) → Result (NixQueueCmd × List (LogLevel × Bytes))
log_failure cmd logged =
    if cmd_succeeded cmd
    then ok (cmd, logged)
    else flush_stderr error true (record cmd { flush_stderr_pos = 0 }) logged

-- What follows the loop.
unfoldable pub finish_cmd : Bytes → Waited → PollState → Result Ran
finish_cmd wait_message final_wait s =
    log_failure (take_status wait_message (last_chance s.res_pid final_wait) s.cmd) s.logged
    >>= λ out. ok (record { cmd = out.0; logged = out.1; kills = s.kills; masked = false })

module _ (strerror : Errno → Bytes) where
  -- An early `return` with an error message.
  abbrev pub give_up : Bytes → Bytes → Errno → NixQueueCmd → Result Ran
  give_up what line_end e cmd = ok (record {
    cmd = abort_cmd (what ++ (strerror e ++ line_end)) cmd;
    logged = [];
    kills = [];
    masked = true;
  })

  -- What follows `setpgid()` and `sigprocmask()`.
  unfoldable pub run_child :
      ℕ → List Round → Bytes → Waited → Option Errno → Option Errno → NixQueueCmd → Result Ran
  run_child timeout rounds wait_message final_wait (some e) masking cmd =
      give_up (codes "setpgid() error: ") (codes "\n") e cmd
  run_child timeout rounds wait_message final_wait none (some e) cmd =
      give_up (codes "sigprocmask() error: ") (codes "\n") e cmd
  run_child timeout rounds wait_message final_wait none none cmd =
      poll_loop strerror timeout rounds (poll_start cmd []) >>= finish_cmd wait_message final_wait

  unfoldable pub run_cmd : ℕ → Forked → List Round → Bytes → Waited → NixQueueCmd → Result Ran
  run_cmd timeout no_pipes rounds wait_message final_wait cmd = err runtime_error
  run_cmd timeout unclosed rounds wait_message final_wait cmd = err runtime_error
  run_cmd timeout (fork_failed e) rounds wait_message final_wait cmd =
      give_up (codes "fork() failed: ") [] e (record cmd { cmd_stdout = [] })
  run_cmd timeout (forked grouping masking) rounds wait_message final_wait cmd =
      run_child timeout rounds wait_message final_wait (setpgid_failed grouping) masking cmd
