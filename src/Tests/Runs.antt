-- ===== src/Tests/Runs.antt =====
-- The theorems on whole runs of a runner's thread and of the logger's thread, at concrete
-- inputs.
use pg_cmd_queue.Base.{
  ◌≡◌, refl, Bool, true, false, none, some, List, [], ◌∷◌, Bytes, codes, ok, arith,
}
use pg_cmd_queue.Logger.{info, debug1}
use pg_cmd_queue.Logger.Writer.{LogLine, Logger, new_logger, QueueName, log_file, std_out}
use pg_cmd_queue.Logger.Writer.Deleted.{delete_logger, delete_logger-outputs}
use pg_cmd_queue.Logger.Writer.Posted.{
  LogStep, logs, sets_path, sets_level, sets_reload, stops_running, posts, writes, log_steps,
  AllPosted, log_steps-AllPosted,
}
use pg_cmd_queue.Daemon.Connection.{connection_ok}
use pg_cmd_queue.Runner.Select.{
  begin_transaction, select_oldest, select_notify, runs_cmd, update_cmd, commit_transaction,
  enter_reselect_round, runner_session_start, row, no_row, trans_other, trans_inerror,
  select_failed, Round, SelectState, select_round, select_statement, is_random_round, after_select,
  no_cmd, after_enter, end_round,
}
use pg_cmd_queue.Runner.Wait.{
  ready, at_end, Turn, heard, idle, poll_interrupted, stopped, turn, after_wait, after_ready,
  after_kill, wait_loop,
}
use pg_cmd_queue.Runner.Run.{FullRound, Session, by_signal, new_session, run_rounds, run}
use pg_cmd_queue.Runner.Run.Followed.{run_rounds-payload}
use pg_cmd_queue.Runner.Run.Stopped.{ClosedThread, run-ClosedThread}

-- The four bytes of a signal's number are in the kill pipe.
abbrev pub killed : Turn
killed = idle (
    ready
      (record { consumed = none; kill = some (record { sig_num_bytes_total = 4; last = at_end }) }))

-- No command is there.
abbrev pub nothing_to_do : Round
nothing_to_do = record {
  selected = no_row;
  update_ok = true;
  entered_round = some 1;
  transaction_status = trans_other;
}

-- The command of the notification is there.
abbrev something_to_do : Round
something_to_do = record nothing_to_do { selected = row (codes "7") none }

-- A notification of the command comes while the runner waits.
abbrev first_round : FullRound
first_round = record {
  round = nothing_to_do;
  turns = idle poll_interrupted ∷ heard (codes "(q,7,)") ∷ [];
}

abbrev second_round : FullRound
second_round = record { round = something_to_do; turns = killed ∷ [] }

abbrev pub waiting : SelectState
waiting = record {
  notify_cmd = none;
  reselect_round = 1;
  postponed = true;
  sent =
      runner_session_start ∷ begin_transaction ∷ select_oldest ∷ enter_reselect_round
      ∷ commit_transaction ∷ [];
}

run_rounds-payload_example :
    run_rounds
      (codes "q")
      none
      (first_round ∷ second_round ∷ [])
      (new_session (runner_session_start ∷ []))
    ≡ ok (
        by_signal (record waiting {
          sent =
              runner_session_start
              ∷ begin_transaction
              ∷ select_oldest
              ∷ enter_reselect_round
              ∷ commit_transaction
              ∷ begin_transaction
              ∷ select_notify (codes "7") none
              ∷ runs_cmd (codes "7") none
              ∷ update_cmd
              ∷ commit_transaction
              ∷ [];
        }))
unfolding select_round select_statement is_random_round after_select no_cmd after_enter end_round
    turn after_wait after_ready after_kill wait_loop
run_rounds-payload_example =
    run_rounds-payload (codes "q") none first_round second_round []
      (new_session (runner_session_start ∷ [])) waiting (codes "7") none
      (idle poll_interrupted ∷ []) [] stopped refl refl (refl, tt) (ground arith) refl refl refl

-- The `SELECT` fails within a transaction; then a signal comes.
abbrev sessions : List Session
sessions =
    record {
      known_status = connection_ok;
      attempts = record { signalled = false; status = connection_ok } ∷ [];
      started = true;
      rounds =
          record {
            round = record nothing_to_do {
              selected = select_failed;
              transaction_status = trans_inerror;
            };
            turns = killed ∷ [];
          }
          ∷ [];
    }
    ∷ []

run-ClosedThread_example : ClosedThread (run (codes "q") none sessions false [])
run-ClosedThread_example = run-ClosedThread (codes "q") none sessions false []

abbrev vsnprintf : Bytes → Bytes
vsnprintf format = format

abbrev file_takes : Bytes → Bool
file_takes real_line = true

abbrev logger : Logger
logger = record {
  log_path = codes "/log";
  cur_log_level = info;
  lines = [];
  lines_pending = 0;
  running = true;
  file = true;
  also_log_to_std = true;
  reload = false;
  log_times = false;
  written = [];
}

abbrev queue : QueueName
queue = record { cmd_class_identity = codes "q"; ansi_fg = codes "[34m" }

abbrev steps : List LogStep
steps =
    sets_level info
    ∷ sets_path (codes "/log")
    ∷ logs none [] info (codes "hello")
    ∷ sets_reload
    ∷ posts
    ∷ writes true []
    ∷ logs none [] info (codes "50%")
    ∷ posts
    ∷ logs (some queue) [] debug1 (codes "not shown")
    ∷ logs (some queue) [] info (codes "bye")
    ∷ posts
    ∷ stops_running
    ∷ []

log_steps-AllPosted_example :
    AllPosted (log_steps vsnprintf file_takes steps (record { logger = new_logger; unposted = 0 }))
log_steps-AllPosted_example =
    log_steps-AllPosted vsnprintf file_takes steps (record { logger = new_logger; unposted = 0 })
      (ground arith)

abbrev two_lines : List LogLine
two_lines =
    record { line = codes "one\ntwo"; also_to_std_out = true }
    ∷ record { line = codes "three"; also_to_std_out = false }
    ∷ []

-- A logger whose two lines are not yet written.
abbrev filled : Logger
filled = record logger { lines = two_lines; lines_pending = 2; running = true }

delete_logger-outputs_example :
    (d : Logger) × (delete_logger file_takes 3 true [] filled ≡ ok d)
    × (d.lines ≡ [])
    × (d.written
        ≡ (log_file, codes "one")
          ∷ (std_out, codes "one")
          ∷ (log_file, codes "two")
          ∷ (std_out, codes "two")
          ∷ (log_file, codes "three")
          ∷ [])
    × (d.file ≡ false)
delete_logger-outputs_example =
    delete_logger-outputs file_takes (λ s. refl) 3 true [] filled refl refl (ground arith)
      (ground arith) (ground arith)
