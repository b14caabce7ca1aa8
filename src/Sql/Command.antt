-- ===== src/Sql/Command.antt =====
-- The data of `SqlQueueCmd` and its `run_cmd`, `handle_sql_fatality` and `receive_notice`
-- (pg_cmdqd/sqlqueuecmd.cpp). The server is a function: what it answers to a statement, behind the
-- statements sent before. Every statement sent is recorded.
use pg_cmd_queue.Base.{
  ℕ, Bool, true, false, Option, none, some, List, [], ◌∷◌, ◌++◌, Bytes, if◌then◌else◌, Result, ok,
  err, null_this, ◌>>=◌,
}
use pg_cmd_queue.Nix.Command.{QueueCmdMetadata}

-- `ExecStatusType`.
pub data ExecStatus : Type 0 where
  empty_query command_ok tuples_ok copy_out copy_in bad_response nonfatal_error fatal_error :
      ExecStatus

-- `std::map<char, std::optional<std::string>>`, its keys in order.
abbrev pub ErrorFields : Type 0
ErrorFields = List (ℕ × Option Bytes)

pub record SqlQueueCmd : Type 0 where
  pub is_valid : Bool
  pub meta : QueueCmdMetadata
  pub cmd_sql : Bytes
  pub cmd_sql_result_status : Bytes
  pub cmd_sql_fatal_error : Option ErrorFields
  pub cmd_sql_nonfatal_errors : List ErrorFields

-- The statements that `run_cmd` sends: `SAVEPOINT pre_run_cmd`, the command's own,
-- `SET CONSTRAINTS ALL IMMEDIATE`, `ROLLBACK TO SAVEPOINT pre_run_cmd` and
-- `RELEASE SAVEPOINT pre_run_cmd`.
pub data Statement : Type 0 where
  set_savepoint : Statement
  sql : Bytes → Statement
  set_constraints rollback_to_savepoint release_savepoint : Statement

-- A result, with the error fields of the notices that came before it.
pub record Answer : Type 0 where
  pub status : ExecStatus
  pub error_fields : ErrorFields
  pub notices : List ErrorFields

-- The connection: the statements sent, and the `arg` that the notice receiver is given: whether it
-- points to the command.
pub record Conn : Type 0 where
  pub sent : List Statement
  pub receiver_has_this : Bool

abbrev pub is_command_ok : ExecStatus → Bool
is_command_ok command_ok = true
is_command_ok _ = false

abbrev pub is_success : ExecStatus → Bool
is_success command_ok = true
is_success tuples_ok = true
is_success _ = false

-- `receive_notice` for each notice: on a null `this` it cannot append.
unfoldable pub receive_notices : Bool → List ErrorFields → SqlQueueCmd → Result SqlQueueCmd
receive_notices has_this [] cmd = ok cmd
receive_notices has_this (n ∷ notices) cmd =
    if has_this
    then receive_notices has_this notices
        (record cmd { cmd_sql_nonfatal_errors = cmd.cmd_sql_nonfatal_errors ++ n ∷ [] })
    else err null_this

-- `_sql_bookkeeping_has_failed`, `_sql_cmd_itself_has_failed`, the command and the connection.
pub record Running : Type 0 where
  pub bookkeeping_failed : Bool
  pub cmd_failed : Bool
  pub cmd : SqlQueueCmd
  pub conn : Conn

-- `PQresStatus` is a parameter, and so is the server.
module _ (res_status : ExecStatus → Bytes) (server : List Statement → Statement → Answer) where
  -- `PQ::exec`.
  unfoldable pub exec : Statement → Running → Result (Answer × Running)
  exec statement s =
      let answer = server s.conn.sent statement in
      receive_notices s.conn.receiver_has_this answer.notices s.cmd >>= λ cmd. ok (
        answer,
        record s {
          cmd = cmd;
          conn = record {
            sent = s.conn.sent ++ statement ∷ [];
            receiver_has_this = s.conn.receiver_has_this;
          };
        },
      )

  -- `handle_sql_fatality` logs, and returns the error fields.
  unfoldable pub handle_sql_fatality : Answer → Option ErrorFields
  handle_sql_fatality answer = some answer.error_fields

  abbrev fail : Answer → SqlQueueCmd → SqlQueueCmd
  fail answer cmd = record cmd {
    cmd_sql_result_status = res_status answer.status;
    cmd_sql_fatal_error = handle_sql_fatality answer;
  }

  unfoldable pub start_savepoint : Running → Result Running
  start_savepoint s = exec set_savepoint s >>= λ (answer, s1).
      if is_command_ok answer.status
      then ok s1
      else ok (record s1 { bookkeeping_failed = true; cmd = fail answer s1.cmd })

  unfoldable pub run_sql : Running → Result Running
  run_sql s =
      if s.bookkeeping_failed
      then ok s
      else exec (sql s.cmd.cmd_sql) s >>= λ (answer, s1).
          if is_success answer.status
          then ok (record s1 {
            cmd = record s1.cmd { cmd_sql_result_status = res_status answer.status };
          })
          else ok (record s1 { cmd_failed = true; cmd = fail answer s1.cmd })

  abbrev has_fatal_error : SqlQueueCmd → Bool
  has_fatal_error cmd = elim cmd.cmd_sql_fatal_error [ none ↦ false | some e ↦ true ]

  unfoldable pub check_constraints : Running → Result Running
  check_constraints s =
      if has_fatal_error s.cmd
      then ok s
      else exec set_constraints s >>= λ (answer, s1).
          if is_command_ok answer.status
          then ok s1
          else ok (record s1 { cmd_failed = true; cmd = fail answer s1.cmd })

  -- A failure here is logged, and no member of the command changes.
  unfoldable pub end_savepoint : Running → Result Running
  end_savepoint s =
      if s.bookkeeping_failed
      then ok s
      else exec (if s.cmd_failed then rollback_to_savepoint else release_savepoint) s
        >>= λ (answer, s1).
            if is_command_ok answer.status
            then ok s1
            else ok (record s1 { bookkeeping_failed = true })

  -- The receiver is set with a null `arg`, and the old one put back at the end.
  unfoldable pub run_cmd : SqlQueueCmd → Result (SqlQueueCmd × List Statement)
  run_cmd cmd =
      start_savepoint (record {
        bookkeeping_failed = false;
        cmd_failed = false;
        cmd = cmd;
        conn = record { sent = []; receiver_has_this = false };
      })
      >>= run_sql
      >>= check_constraints
      >>= end_savepoint
      >>= λ s. ok (s.cmd, s.conn.sent)
