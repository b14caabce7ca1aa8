-- ===== src/Nix/Run/Status.antt =====
-- The status that `run_cmd` leaves in the command.
use pg_cmd_queue.Base.{
  ℕ, zero, suc, ℤ, sym, ◌≤◌, ◌≡◌, refl, ap, ◌∙◌, ◌≢◌, ◌⊎◌, inl, inr, Bool, true, false, Option,
  none, some, List, [], ◌∷◌, ◌++◌, map, Bytes, length, Result, ok, err, ◌>>=◌, arith, Bool-cases,
  if◌then◌else◌, ◌==◌,
}
use pg_cmd_queue.Text.Scan.{c_str}
use pg_cmd_queue.Logger.{LogLevel, error}
use pg_cmd_queue.Nix.Command.{NixQueueCmd, cmd_succeeded, is_zero}
use pg_cmd_queue.Nix.Flush.Lines.{flush_stderr-text_lines, text_lines}
use pg_cmd_queue.Nix.Io.{Errno}
use pg_cmd_queue.Nix.Poll.Ends.{IsDecided, IsLast, Waits, poll_loop-Ends}
use pg_cmd_queue.Nix.Poll.{
  exited, signaled, unknown, Waited, running, wait_failed, reaped_with, Round, PollState,
  poll_start, sigabrt, poll_loop,
}
use pg_cmd_queue.Nix.Run.{
  Forked, no_pipes, unclosed, fork_failed, forked, Ran, setpgid_failed, last_chance, take_status,
  log_failure, finish_cmd, run_child, run_cmd,
}

-- The pipes are made, and their descriptors closed when they shall be.
abbrev pub HasPipes : Forked → Type 0
HasPipes no_pipes = ⊥
HasPipes unclosed = ⊥
HasPipes (fork_failed e) = Unit
HasPipes (forked grouping masking) = Unit

-- The cause of the command's end is recorded.
abbrev pub HasStatus : NixQueueCmd → Type 0
HasStatus cmd = (cmd.cmd_exit_code ≢ none) ⊎ (cmd.cmd_term_sig ≢ none)

take_status-HasStatus :
    (message : Bytes) (waited : Waited) (cmd : NixQueueCmd)
    → (cmd.cmd_term_sig ≢ none) ⊎ (waited ≢ running)
    → HasStatus (take_status message waited cmd)
unfolding take_status
take_status-HasStatus message running cmd h = ground arith
take_status-HasStatus message wait_failed cmd h = ground arith
take_status-HasStatus message (reaped_with (exited c)) cmd h = ground arith
take_status-HasStatus message (reaped_with (signaled c)) cmd h = ground arith
take_status-HasStatus message (reaped_with unknown) cmd h = ground arith

last_chance-ne :
    (a b : Waited) (s : Option ℤ)
    → (s ≢ none) ⊎ (a ≢ running)
    → (s ≢ none) ⊎ (last_chance a b ≢ running)
last_chance-ne running b s (inl h) = inl h
last_chance-ne running b s (inr h) = absurd (h refl)
last_chance-ne wait_failed b s h = h
last_chance-ne (reaped_with w) b s h = h

-- The error log changes only the flush position.
pub log_failure_lem :
    (cmd : NixQueueCmd) (logged : List (LogLevel × Bytes))
    → (log_failure cmd logged ≡ ok (cmd, logged)) × (cmd_succeeded cmd ≡ true)
      ⊎ (log_failure cmd logged
          ≡ ok (
            record cmd { flush_stderr_pos = length cmd.cmd_stderr },
            logged ++ map (λ l. (error, c_str l)) (text_lines cmd.cmd_stderr),
          ))
        × (cmd_succeeded cmd ≡ false)
unfolding log_failure
log_failure_lem cmd logged = elim (Bool-cases (cmd_succeeded cmd)) [
  | inl e ↦ inl (rw e, e)
  | inr e ↦
      inr
        (rw e (flush_stderr-text_lines error (record cmd { flush_stderr_pos = 0 }) logged refl), e)
]

finish_cmd-HasStatus :
    (message : Bytes) (final_wait : Waited) (t : PollState)
    → IsDecided t
    → (ran : Ran) × (finish_cmd message final_wait t ≡ ok ran) × HasStatus ran.cmd
unfolding finish_cmd
finish_cmd-HasStatus message final_wait t d =
    let cmd = take_status message (last_chance t.res_pid final_wait) t.cmd in
    let status =
      take_status-HasStatus message (last_chance t.res_pid final_wait) t.cmd
        (last_chance-ne t.res_pid final_wait t.cmd.cmd_term_sig d) in
    elim (log_failure_lem cmd t.logged) [
      | inl (e, _) ↦
          (record { cmd = cmd; logged = t.logged; kills = t.kills; masked = false }, rw e, status)
      | inr (e, _) ↦ (
        record {
          cmd = record cmd { flush_stderr_pos = length cmd.cmd_stderr };
          logged = t.logged ++ map (λ l. (error, c_str l)) (text_lines cmd.cmd_stderr);
          kills = t.kills;
          masked = false;
        },
        rw e,
        status,
      )
    ]

module _ (strerror : Errno → Bytes) (timeout : ℕ) (rounds : List Round) (last : Round)
    (later : List Round) (message : Bytes) (final_wait : Waited) (cmd : NixQueueCmd) where
  run_child-HasStatus :
      (grouping masking : Option Errno)
      → Waits strerror (rounds ++ last ∷ later)
      → IsLast strerror last
      → cmd.flush_stderr_pos ≤ length cmd.cmd_stderr
      → (ran : Ran) × (run_child strerror timeout
            (rounds ++ last ∷ later)
            message
            final_wait
            grouping
            masking
            cmd
          ≡ ok ran)
        × HasStatus ran.cmd
  unfolding run_child
  run_child-HasStatus (some e) masking w l p = (_, refl, inr (λ h. cc))
  run_child-HasStatus none (some e) w l p = (_, refl, inr (λ h. cc))
  run_child-HasStatus none none w l p =
      let (t, e, d) =
        poll_loop-Ends strerror timeout rounds last later (poll_start cmd []) w l
          (unfold poll_start in record { position = p; answered = inl refl }) in
      rw e (finish_cmd-HasStatus message final_wait t d)

  -- If the three pipes can be made and their descriptors closed, and the flush position of the
  -- command lies in its standard error, as a new one's does, `run_cmd` returns, with no exception,
  -- and has then recorded an exit code or a terminating signal, whatever `fork()`, `setpgid()`, `sigprocmask()`, `poll()`, `waitpid()`, `read()` and `write()`
  -- answered on the way: it is enough that a blocking `waitpid()` never answers 0, and that in
  -- some round the child's end is known and `poll()` times out, as it does when the pipes are
  -- idle.
  pub run_cmd-HasStatus :
      (fork : Forked)
      → HasPipes fork
      → Waits strerror (rounds ++ last ∷ later)
      → IsLast strerror last
      → cmd.flush_stderr_pos ≤ length cmd.cmd_stderr
      → (ran : Ran) × (run_cmd strerror timeout fork (rounds ++ last ∷ later) message final_wait cmd
          ≡ ok ran)
        × HasStatus ran.cmd
  unfolding run_cmd
  run_cmd-HasStatus no_pipes pipes w l p = absurd pipes
  run_cmd-HasStatus unclosed pipes w l p = absurd pipes
  run_cmd-HasStatus (fork_failed e) pipes w l p = (_, refl, inr (λ h. cc))
  run_cmd-HasStatus (forked grouping masking) pipes w l p =
      run_child-HasStatus (setpgid_failed grouping) masking w l p

-- What is packed behind the error log.
abbrev pub packed : PollState → NixQueueCmd × List (LogLevel × Bytes) → Result Ran
packed t out = ok (record { cmd = out.0; logged = out.1; kills = t.kills; masked = false })

pub finish_cmd_taken :
    (message : Bytes) (final_wait : Waited) (t : PollState) (cmd : NixQueueCmd)
    → take_status message (last_chance t.res_pid final_wait) t.cmd ≡ cmd
    → finish_cmd message final_wait t ≡ (log_failure cmd t.logged >>= packed t)
unfolding finish_cmd
finish_cmd_taken message final_wait t cmd e = ap (λ c. log_failure c t.logged >>= packed t) e

cmd_succeeded-code :
    (cmd : NixQueueCmd) (code : ℕ) → cmd.cmd_exit_code ≡ some code → cmd_succeeded cmd ≡ (code == 0)
unfolding cmd_succeeded
cmd_succeeded-code cmd zero e = ap is_zero e
cmd_succeeded-code cmd (suc code) e =
    let nonzero : false ≡ (suc code == 0) = ground arith in ap is_zero e ∙ nonzero

pub take_status_exited :
    (message : Bytes) (code : ℕ) (waited : Waited) (cmd : NixQueueCmd)
    → waited ≡ reaped_with (exited code)
    → take_status message waited cmd ≡ record cmd { cmd_exit_code = some code }
unfolding take_status
take_status_exited message code waited cmd e = ap (λ w. take_status message w cmd) e

-- A child that exits with a code while no call failed: the code is recorded, the captured output
-- is kept, and the lines of the standard error are logged as errors exactly if the code is not 0.
pub finish_cmd_exited :
    (message : Bytes) (final_wait : Waited) (t : PollState) (code : ℕ)
    → t.res_pid ≡ reaped_with (exited code)
    → (ran : Ran) × (finish_cmd message final_wait t ≡ ok ran)
      × (ran.cmd.cmd_exit_code ≡ some code)
      × (ran.cmd.cmd_term_sig ≡ t.cmd.cmd_term_sig)
      × (ran.cmd.cmd_stdout ≡ t.cmd.cmd_stdout)
      × (ran.cmd.cmd_stderr ≡ t.cmd.cmd_stderr)
      × (ran.logged ≡ (
          if code == 0
          then t.logged
          else t.logged ++ map (λ l. (error, c_str l)) (text_lines t.cmd.cmd_stderr)))
finish_cmd_exited message final_wait t code h =
    let cmd : NixQueueCmd = record t.cmd { cmd_exit_code = some code } in
    let e =
      finish_cmd_taken message final_wait t cmd
        (take_status_exited message code _ t.cmd (ap (λ w. last_chance w final_wait) h)) in
    let zero_code = cmd_succeeded-code cmd code refl in
    elim (log_failure_lem cmd t.logged) [
      | inl (logs, succeeded) ↦ (
        record { cmd = cmd; logged = t.logged; kills = t.kills; masked = false },
        e ∙ ap (λ r. r >>= packed t) logs,
        refl,
        refl,
        refl,
        refl,
        rw (sym zero_code ∙ succeeded),
      )
      | inr (logs, failed) ↦ (
        record {
          cmd = record cmd { flush_stderr_pos = length cmd.cmd_stderr };
          logged = t.logged ++ map (λ l. (error, c_str l)) (text_lines cmd.cmd_stderr);
          kills = t.kills;
          masked = false;
        },
        e ∙ ap (λ r. r >>= packed t) logs,
        refl,
        refl,
        refl,
        refl,
        rw (sym zero_code ∙ failed),
      )
    ]

-- After an input or output error the child may end on its own before the last `waitpid()`: then
-- both the exit code and the terminating signal are recorded.
pub finish_cmd_both :
    (message : Bytes) (t : PollState) (code : ℕ)
    → t.res_pid ≡ running
    → t.cmd.cmd_term_sig ≡ some sigabrt
    → (ran : Ran) × (finish_cmd message (reaped_with (exited code)) t ≡ ok ran)
      × (ran.cmd.cmd_exit_code ≡ some code)
      × (ran.cmd.cmd_term_sig ≡ some sigabrt)
finish_cmd_both message t code h s =
    let cmd : NixQueueCmd = record t.cmd { cmd_exit_code = some code } in
    let e = finish_cmd_taken message (reaped_with (exited code)) t cmd (
      take_status_exited message code _ t.cmd
        (ap (λ w. last_chance w (reaped_with (exited code))) h)) in
    elim (log_failure_lem cmd t.logged) [
      | inl (logs, _) ↦ (_, e ∙ ap (λ r. r >>= packed t) logs, refl, s)
      | inr (logs, _) ↦ (_, e ∙ ap (λ r. r >>= packed t) logs, refl, s)
    ]

-- A call between `fork()` and the loop failed, `EACCES` of `setpgid()` left out.
abbrev pub is_lost : Option Errno → Option Errno → Bool
is_lost (some e) masking = true
is_lost none (some e) = true
is_lost none none = false

abbrev pub fork_is_lost : Forked → Bool
fork_is_lost no_pipes = true
fork_is_lost unclosed = true
fork_is_lost (fork_failed e) = true
fork_is_lost (forked grouping masking) = is_lost (setpgid_failed grouping) masking

finish_cmd_masked :
    (message : Bytes) (final_wait : Waited) (r : Result PollState) {ran : Ran}
    → (r >>= finish_cmd message final_wait) ≡ ok ran
    → ran.masked ≡ false
unfolding finish_cmd
finish_cmd_masked message final_wait (err e) h = cc
finish_cmd_masked message final_wait (ok t) h =
    ground (
      arith,
      log_failure_lem (take_status message (last_chance t.res_pid final_wait) t.cmd) t.logged,
    )

run_child_masked :
    (strerror : Errno → Bytes) (timeout : ℕ) (rounds : List Round) (message : Bytes)
    (final_wait : Waited) (grouping masking : Option Errno) (cmd : NixQueueCmd) {ran : Ran}
    → run_child strerror timeout rounds message final_wait grouping masking cmd ≡ ok ran
    → ran.masked ≡ is_lost grouping masking
unfolding run_child
run_child_masked strerror timeout rounds message final_wait (some e) masking cmd h = ground arith
run_child_masked strerror timeout rounds message final_wait none (some e) cmd h = ground arith
run_child_masked strerror timeout rounds message final_wait none none cmd h =
    finish_cmd_masked message final_wait (poll_loop strerror timeout rounds (poll_start cmd [])) h

-- When `run_cmd` has returned, `SIGINT` and `SIGQUIT` are still masked in the daemon's thread
-- exactly if `fork()`, `setpgid()` or `sigprocmask()` failed, other than `setpgid()` with
-- `EACCES`.
pub run_cmd_masked :
    (strerror : Errno → Bytes) (timeout : ℕ) (fork : Forked) (rounds : List Round) (message : Bytes)
    (final_wait : Waited) (cmd : NixQueueCmd) {ran : Ran}
    → run_cmd strerror timeout fork rounds message final_wait cmd ≡ ok ran
    → ran.masked ≡ fork_is_lost fork
unfolding run_cmd
run_cmd_masked strerror timeout no_pipes rounds message final_wait cmd h = cc
run_cmd_masked strerror timeout unclosed rounds message final_wait cmd h = cc
run_cmd_masked strerror timeout (fork_failed e) rounds message final_wait cmd h = ground arith
run_cmd_masked strerror timeout (forked grouping masking) rounds message final_wait cmd h =
    run_child_masked strerror timeout rounds message final_wait (setpgid_failed grouping) masking
      cmd h
