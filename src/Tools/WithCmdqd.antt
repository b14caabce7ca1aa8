-- ===== src/Tools/WithCmdqd.antt =====
-- `with_cmdqd` (pg_cmdqd/with_cmdqd.cpp): it starts the daemon, waits for its `SIGUSR1`, runs `psql`
-- and stops the daemon. What `getenv`, `fork` and `waitpid` answer, and which signals are handled
-- when, is a `World`. Signals while `clean_exit` waits for the daemon are left out.
pub mod Stopped
use pg_cmd_queue.Base.{
  ℕ, zero, suc, ◌+◌, ◌==◌, Bool, true, false, ◌&&◌, Option, none, some, List, [], ◌∷◌, ◌++◌, Bytes,
  bytes_eq, codes, if◌then◌else◌, Result, ok, err, assertion,
}
use pg_cmd_queue.Nix.Poll.{WaitStatus, exited, signaled, unknown}

-- The daemon as the wrapper sees it: `cmdqd_pid` is positive while it is `running`.
pub data Cmdqd : Type 0 where
  not_forked running reaped : Cmdqd

abbrev pub is_running : Cmdqd → Bool
is_running running = true
is_running _ = false

-- The variables, and the signals that the daemon was sent.
pub record Wrapper : Type 0 where
  pub cmdqd : Cmdqd
  pub cmdqd_is_ready : Bool
  pub kills : List ℕ

abbrev pub new_wrapper : Wrapper
new_wrapper = record { cmdqd = not_forked; cmdqd_is_ready = false; kills = [] }

-- How the program ends: its exit code, and what it leaves behind.
pub record Exit : Type 0 where
  pub code : ℕ
  pub wrapper : Wrapper

abbrev pub exit_with : ℕ → Wrapper → Result Exit
exit_with code s = ok (record { code = code; wrapper = s })

abbrev pub exit_cmdqd_bin_unspecified : ℕ
exit_cmdqd_bin_unspecified = 4

abbrev pub exit_cmdqd_fork_error : ℕ
exit_cmdqd_fork_error = 5

abbrev pub exit_cmdqd_sigusr1_timeout : ℕ
exit_cmdqd_sigusr1_timeout = 6

abbrev pub exit_cmdqd_failure : ℕ
exit_cmdqd_failure = 7

abbrev pub exit_psql_fork_error : ℕ
exit_psql_fork_error = 15

abbrev pub exit_psql_weird_wstatus : ℕ
exit_psql_weird_wstatus = 18

abbrev pub exit_psql_d_opt_arg_missing : ℕ
exit_psql_d_opt_arg_missing = 19

abbrev pub sigusr1 : ℕ
sigusr1 = 10

abbrev pub sigchld : ℕ
sigchld = 17

abbrev pub sigterm : ℕ
sigterm = 15

-- `clean_exit` behind its `waitpid`.
unfoldable pub after_reaping : WaitStatus → ℕ → Wrapper → Result Exit
after_reaping (signaled sig_num) exit_code s = exit_with exit_cmdqd_failure s
after_reaping (exited zero) exit_code s = exit_with exit_code s
after_reaping (exited (suc n)) exit_code s = exit_with exit_cmdqd_failure s
after_reaping unknown exit_code s = err assertion

-- `cmdqd_end` is how the daemon ends.
unfoldable pub clean_exit : WaitStatus → ℕ → Wrapper → Result Exit
clean_exit cmdqd_end exit_code s =
    if is_running s.cmdqd
    then after_reaping cmdqd_end exit_code
        (record s { cmdqd = reaped; kills = s.kills ++ sigterm ∷ [] })
    else exit_with exit_code s

-- What `handle_signal` does: it returns, or the program ends in it.
pub data Handled : Type 0 where
  goes_on : Wrapper → Handled
  ends : Result Exit → Handled

unfoldable pub handle_signal : WaitStatus → ℕ → Wrapper → Handled
handle_signal cmdqd_end sig_num s =
    if sig_num == sigusr1 && is_running s.cmdqd
    then goes_on (record s { cmdqd_is_ready = true })
    else if sig_num == sigchld
    then goes_on s
    else ends (clean_exit cmdqd_end (128 + sig_num) s)

abbrev pub then_handle : Handled → (Wrapper → Handled) → Handled
then_handle (goes_on s) next = next s
then_handle (ends e) next = ends e

abbrev pub handle_signals : WaitStatus → List ℕ → Wrapper → Handled
handle_signals cmdqd_end [] s = goes_on s
handle_signals cmdqd_end (sig_num ∷ sig_nums) s =
    then_handle (handle_signal cmdqd_end sig_num s) (handle_signals cmdqd_end sig_nums)

abbrev pub behind : Handled → (Wrapper → Result Exit) → Result Exit
behind (goes_on s) next = next s
behind (ends e) next = e

-- The loop over the arguments: the last `-d` option's argument, or the error that there is none.
unfoldable pub database : List Bytes → Option Bytes → Option (Option Bytes)
database [] db = some db
database (arg ∷ []) db = if bytes_eq arg (codes "-d") then none else some db
database (arg ∷ next ∷ args) db =
    if bytes_eq arg (codes "-d") then database args (some next) else database (next ∷ args) db

-- The signals that are handled up to the first `fork`, from there to the test of `cmdqd_is_ready`
-- behind the `sleep`, which the first one that comes in it ends, and while `psql` runs.
pub record World : Type 0 where
  pub cmdqd_bin_is_set : Bool
  pub before_fork : List ℕ
  pub cmdqd_forked : Bool
  pub before_test : List ℕ
  pub psql_forked : Bool
  pub during_psql : List ℕ
  pub psql_end : WaitStatus
  pub cmdqd_end : WaitStatus

-- `psql` has ended.
unfoldable pub after_psql : WaitStatus → WaitStatus → Wrapper → Result Exit
after_psql cmdqd_end (exited code) s = clean_exit cmdqd_end code s
after_psql cmdqd_end (signaled sig_num) s = clean_exit cmdqd_end (128 + sig_num) s
after_psql cmdqd_end unknown s = clean_exit cmdqd_end exit_psql_weird_wstatus s

-- The daemon is ready: here the failure of `fork` does not go through `clean_exit`.
unfoldable pub run_psql : World → Wrapper → Result Exit
run_psql w s =
    if w.psql_forked
    then behind (handle_signals w.cmdqd_end w.during_psql s) (after_psql w.cmdqd_end w.psql_end)
    else exit_with exit_psql_fork_error s

unfoldable pub after_sleep : World → Wrapper → Result Exit
after_sleep w s =
    if s.cmdqd_is_ready then run_psql w s else clean_exit w.cmdqd_end exit_cmdqd_sigusr1_timeout s

unfoldable pub start_cmdqd : World → Wrapper → Result Exit
start_cmdqd w s =
    if w.cmdqd_forked
    then behind (handle_signals w.cmdqd_end w.before_test (record s { cmdqd = running }))
        (after_sleep w)
    else exit_with exit_cmdqd_fork_error s

abbrev pub after_args : World → Option (Option Bytes) → Result Exit
after_args w none = exit_with exit_psql_d_opt_arg_missing new_wrapper
after_args w (some db) =
    behind (handle_signals w.cmdqd_end w.before_fork new_wrapper) (start_cmdqd w)

unfoldable pub with_cmdqd : List Bytes → World → Result Exit
with_cmdqd args w =
    if w.cmdqd_bin_is_set
    then after_args w (database args none)
    else exit_with exit_cmdqd_bin_unspecified new_wrapper
