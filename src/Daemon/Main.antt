-- ===== src/Daemon/Main.antt =====
-- `main` of pg_cmdqd/pg_cmd_queue_daemon.cpp from its environment and arguments to its exit code,
-- with `make_instance` and `join_all_threads` (pg_cmdqd/cmdqueuerunnermanager.cpp).
pub mod Exit
pub mod First
pub mod Ends
use pg_cmd_queue.Base.{
  ℕ, ◌&&◌, Bool, true, false, Option, none, some, List, [], ◌∷◌, Bytes, if◌then◌else◌, Result, ok,
  err, null_this, cmd_line_parse_error, out_of_fuel, ◌>>=◌,
}
use pg_cmd_queue.Logger.{info}
use pg_cmd_queue.Daemon.Options.{
  Options, Parsed, options, help, usage_error, uncaught, read_env, parse_command_line,
}
use pg_cmd_queue.Daemon.Signals.{SigRecv, sig_num_received}
use pg_cmd_queue.Daemon.Connection.{ConnStatus, Attempt, maintain_connection}
use pg_cmd_queue.Daemon.ClassNames.{Classes, get_cmd_class_names, list_queue_names}
use pg_cmd_queue.Daemon.Manager.{Manager, Runner, Runners, SelectTry}
use pg_cmd_queue.Daemon.Listen.{Listening, Listened, with_manager, main_run}

-- What the environment, libpq, the kernel and the runner threads answer during a run. `attempts` is
-- for the first call of `maintain_connection`, `sig_recv` is what the handler has marked by the end,
-- `running` which threads have `_running` set then, and `thread_ends` whether the thread of such a
-- runner returns.
pub record Surroundings : Type 0 where
  pub log_level : Option Bytes
  pub log_times : Option Bytes
  pub attempts : List Attempt
  pub classes : Classes
  pub tries : List SelectTry
  pub listening : Listening
  pub sig_recv : SigRecv
  pub running : Bytes → Bool
  pub thread_ends : Runner → Bool

-- The variables of `main` before the environment is read, and the logger's members.
abbrev pub initial_options : Options
initial_options = record {
  log_level = info;
  log_times = true;
  explicit_cmd_classes = [];
  conn_str = [];
  emit_sigusr1_when_ready = false;
  list_mode = false;
}

-- A manager as the constructor leaves it.
abbrev pub make_instance : Manager
make_instance = record {
  nix_cmd_queue_runners = [];
  sql_cmd_queue_runners = [];
  old_cmd_classes = [];
  new_cmd_classes = [];
  keep_running = true;
  signals_blocked = false;
}

-- Whether each `join` returns: a thread that does not return is waited for without end.
abbrev pub join_each : (Runner → Bool) → Runners → Bool
join_each thread_ends [] = true
join_each thread_ends ((key, r) ∷ rs) = thread_ends r && join_each thread_ends rs

unfoldable pub join_all_threads : (Runner → Bool) → Manager → Result Manager
join_all_threads thread_ends m =
    if join_each thread_ends m.nix_cmd_queue_runners
      && join_each thread_ends m.sql_cmd_queue_runners
    then ok m
    else err out_of_fuel

-- How `main` ends: with the usage and an exit code, with the queues listed and an exit code, or
-- with the daemon's work done, and then with 0.
pub data Outcome : Type 0 where
  usage : ℕ → Outcome
  listed : Bytes → ℕ → Outcome
  ended : Listened → Outcome

abbrev pub exit_code : Outcome → ℕ
exit_code (usage code) = code
exit_code (listed printed code) = code
exit_code (ended l) = 0

-- `sig_num_received({SIGQUIT, SIGTERM, SIGINT})`, of `stop_all_runners`.
abbrev pub end_signals : List ℕ
end_signals = 3 ∷ 15 ∷ 2 ∷ []

unfoldable pub end_signal : Surroundings → ℕ
end_signal s = sig_num_received s.sig_recv end_signals

abbrev pub with_options : Parsed → (Options → Result Outcome) → Result Outcome
with_options (options o) k = k o
with_options help k = ok (usage 0)
with_options usage_error k = ok (usage 2)
with_options uncaught k = err cmd_line_parse_error

abbrev pub print_queues : List Bytes → Outcome
unfolding list_queue_names
print_queues queues = let (printed, code) = list_queue_names queues in listed printed code

unfoldable pub run_list_mode : Surroundings → Result Outcome
run_list_mode s =
    get_cmd_class_names s.attempts none s.classes >>= λ queues. ok (print_queues queues)

-- Behind the first `maintain_connection`: `PQ::execParams` reads a member of the connection.
abbrev pub with_connection : Surroundings → Options → Option ConnStatus → Result Outcome
with_connection s o none = err null_this
with_connection s o (some status) =
    main_run o.emit_sigusr1_when_ready s.tries s.listening (end_signal s) s.running make_instance
    >>= λ l. join_all_threads s.thread_ends l.manager >>= λ m. ok (ended (with_manager l m))

unfoldable pub run_daemon : Surroundings → Options → Result Outcome
run_daemon s o = maintain_connection false s.attempts none >>= λ c. with_connection s o c.conn

abbrev pub run : Surroundings → Options → Result Outcome
run s o = let daemon = run_daemon s o in if o.list_mode then run_list_mode s else daemon

-- `args` is `argv[1]` to `argv[argc - 1]`.
unfoldable pub main : Surroundings → List Bytes → Result Outcome
main s args =
    with_options (read_env s.log_level s.log_times initial_options)
      (λ o. with_options (parse_command_line args o) (run s))
