-- ===== src/Runner/Command.antt =====
-- What `CmdQueueRunner<T>::_run` (pg_cmdqd/cmdqueuerunner.h) does with the row that it has
-- selected: it makes a command of it, runs that, and sends the `UPDATE`. What the template uses of
-- `T` is a `CmdType`, with one for each of the two classes it is made for.
pub mod Updates
pub mod SqlUpdates
use pg_cmd_queue.Base.{
  ℕ, ℤ, Option, none, some, List, [], ◌∷◌, Bytes, codes, length, Result, ok, err, ◌>>=◌,
}
use pg_cmd_queue.Pq.Rows.{PgResult, FieldNumbers}
use pg_cmd_queue.Pq.Exec.{Call, exec_prepared}
use pg_cmd_queue.Nix.Command.{
  NixQueueCmd, QueueCmdMetadata, stamp_start_time, stamp_end_time, started, ended, update_params,
  update_param_lengths, update_param_formats,
}
use pg_cmd_queue.Nix.Row.{nix_cmd_of_row}
use pg_cmd_queue.Nix.Run.{Ran}
use pg_cmd_queue.Sql.Command.{SqlQueueCmd, Statement}
use pg_cmd_queue.Sql.Params
use pg_cmd_queue.Sql.Row.{sql_cmd_of_row}

-- The members of `T`: the constructor from a row, the stamps on `meta`, `run_cmd`, and the arrays
-- of the `UPDATE`.
pub record CmdType (T : Type 0) : Type 0 where
  pub of_row : PgResult → ℕ → FieldNumbers → Result T
  pub stamp_start : ℕ → T → T
  pub stamp_end : ℕ → T → T
  pub run_cmd : T → Result T
  pub params : T → List (Option Bytes)
  pub lengths : T → List ℤ
  pub formats : T → List ℕ

-- The two times are those of the clock.
module _ {T : Type 0} (t : CmdType T) where
  unfoldable pub update_cmd : T → Call
  update_cmd cmd =
      exec_prepared (codes "update_cmd") (length (t.params cmd)) (t.params cmd)
        (some (t.lengths cmd)) (some (t.formats cmd)) 0

  unfoldable pub handle_row : PgResult → FieldNumbers → ℕ → ℕ → Result Call
  handle_row select_result selected_field_numbers start_time end_time =
      t.of_row select_result 0 selected_field_numbers >>= λ queue_cmd.
      t.run_cmd (t.stamp_start start_time queue_cmd) >>= λ done.
      ok (update_cmd (t.stamp_end end_time done))

abbrev pub ran_cmd : Result Ran → Result NixQueueCmd
ran_cmd r = r >>= λ ran. ok ran.cmd

-- `run` is `run_cmd` with the answers of the kernel; a time and an `int` are printed by functions.
abbrev pub nix_cmd_type :
    (ℕ → Bytes) → (ℤ → Bytes) → (NixQueueCmd → Result Ran) → CmdType NixQueueCmd
nix_cmd_type format_time to_string run = record {
  of_row = nix_cmd_of_row;
  stamp_start = started;
  stamp_end = ended;
  run_cmd = λ cmd. ran_cmd (run cmd);
  params = update_params format_time to_string;
  lengths = update_param_lengths;
  formats = λ cmd. update_param_formats;
}

abbrev pub sent_by : Result (SqlQueueCmd × List Statement) → Result SqlQueueCmd
sent_by r = r >>= λ (cmd, sent). ok cmd

-- `run` is `run_cmd` with the server.
abbrev pub sql_cmd_type :
    (ℕ → Bytes) → (SqlQueueCmd → Result (SqlQueueCmd × List Statement)) → CmdType SqlQueueCmd
sql_cmd_type format_time run = record {
  of_row = sql_cmd_of_row;
  stamp_start = λ now cmd. record cmd { meta = stamp_start_time now cmd.meta };
  stamp_end = λ now cmd. record cmd { meta = stamp_end_time now cmd.meta };
  run_cmd = λ cmd. sent_by (run cmd);
  params = Params.update_params format_time;
  lengths = λ cmd. Params.update_param_lengths;
  formats = λ cmd. Params.update_param_formats;
}
