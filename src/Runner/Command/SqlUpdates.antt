-- ===== src/Runner/Command/SqlUpdates.antt =====
-- The values of the `UPDATE` that the server gets for a SQL command of the queue
-- (pg_cmdqd/cmdqueuerunner.h, pg_cmdqd/sqlqueuecmd.cpp).
use pg_cmd_queue.Base.{
  ℕ, ℤ, pos, ◌≡◌, refl, ap, ◌∙◌, Option, some, List, [], ◌∷◌, ◌++◌, map, false, Bytes, codes,
  Result, ok, ◌>>=◌,
}
use pg_cmd_queue.Text.Quote.{as_text_array}
use pg_cmd_queue.Pq.Rows.{PgResult, FieldNumbers, value_at, is_null_at}
use pg_cmd_queue.Pq.Exec.{raw_value, exec_prepared}
use pg_cmd_queue.Pq.Exec.Bound.{Reads, bound, bound_value}
use pg_cmd_queue.Nix.Command.{new_metadata, stamp_start_time, stamp_end_time}
use pg_cmd_queue.Nix.Row.RoundTrip.{MetadataRow, loaded_metadata, metadata_of_row-written}
use pg_cmd_queue.Sql.Command.{ErrorFields, ExecStatus, SqlQueueCmd, Statement, Answer, run_cmd}
use pg_cmd_queue.Sql.Row.{is_space, start_cmd}
use pg_cmd_queue.Sql.Row.Trimmed.{AllSpaces, sql_cmd_of_row-trimmed}
use pg_cmd_queue.Sql.Run.{KeptAsTold, run_cmd-EndsKept}
use pg_cmd_queue.Sql.Params.{error_text, update_params, update_param_lengths, update_param_formats}
use pg_cmd_queue.Runner.Command.{sql_cmd_type, sent_by, update_cmd, handle_row}
use pg_cmd_queue.Runner.Command.Updates.{text_param, bound_value-text}

module _ (format_time : ℕ → Bytes) where
  -- The values of the `UPDATE` for a command: all are texts.
  abbrev pub update_values : SqlQueueCmd → List (Option Bytes)
  update_values cmd = map text_param (update_params format_time cmd)

  pub bound-update_cmd :
      (read : ℕ → ℤ → Bytes → Bytes) (run : SqlQueueCmd → Result (SqlQueueCmd × List Statement))
      (cmd : SqlQueueCmd)
      → Reads read
      → bound read (update_cmd (sql_cmd_type format_time run) cmd) ≡ ok (update_values cmd)
  unfolding update_cmd exec_prepared update_params update_param_lengths update_param_formats
  bound-update_cmd read run cmd r =
      let text : (value : Option Bytes)
          → bound_value read 0 (pos 0) (raw_value value) ≡ text_param value =
        λ value. bound_value-text read (pos 0) value r in
      simp (text, r.text) refl

  -- A command as its row gives it, with the time of its start.
  abbrev pub started_cmd : Bytes → Bytes → Bytes → Option Bytes → Bytes → ℕ → SqlQueueCmd
  unfolding loaded_metadata stamp_start_time new_metadata
  started_cmd identity relname cmd_id cmd_subid cmd_sql start_time =
      record (start_cmd
        (stamp_start_time start_time (loaded_metadata identity relname cmd_id cmd_subid))) {
          cmd_sql = cmd_sql;
        }

  -- The values of the `UPDATE`, by the status and the fatal error that a run has left.
  abbrev pub outcome_values :
      Bytes → Option Bytes → ℕ → ℕ → Bytes → Option ErrorFields → List (Option Bytes)
  outcome_values cmd_id cmd_subid start_time end_time status error =
      text_param (some cmd_id)
      ∷ text_param cmd_subid
      ∷ text_param (some (format_time start_time))
      ∷ text_param (some (format_time end_time))
      ∷ text_param (some status)
      ∷ some (codes "null")
      ∷ text_param (error_text error)
      ∷ some (codes "{}")
      ∷ []

  ended_values :
      (identity relname cmd_id : Bytes) (cmd_subid : Option Bytes) (cmd_sql : Bytes)
      (start_time end_time : ℕ) (d : SqlQueueCmd)
      → d.meta ≡ (started_cmd identity relname cmd_id cmd_subid cmd_sql start_time).meta
      → d.cmd_sql_nonfatal_errors ≡ []
      → update_values (record d { meta = stamp_end_time end_time d.meta })
        ≡ outcome_values cmd_id cmd_subid start_time end_time d.cmd_sql_result_status
            d.cmd_sql_fatal_error
  unfolding update_params loaded_metadata stamp_start_time stamp_end_time new_metadata as_text_array
  ended_values identity relname cmd_id cmd_subid cmd_sql start_time end_time d m n =
      simp (m, n) refl

  -- From a row of the queue to the values of its `UPDATE`, if the server sends no notices, and
  -- reads parameters as libpq documents: the command is run, and the `UPDATE` tells what the
  -- transaction then keeps. If the error is there, nothing is kept; if it is null, the row's
  -- statement, less the spaces round it, is what is kept, unless the server refused to release the
  -- savepoint: then the error is null, and nothing is kept.
  pub handle_row-kept :
      (res_status : ExecStatus → Bytes) (server : List Statement → Statement → Answer)
      (read : ℕ → ℤ → Bytes → Bytes) (res : PgResult) (numbers : FieldNumbers)
      (identity relname cmd_id : Bytes) (cmd_subid : Option Bytes) (before : Bytes) (c : ℕ)
      (mid : Bytes) (d : ℕ) (behind : Bytes) (start_time end_time : ℕ)
      → Reads read
      → MetadataRow res 0 numbers identity relname cmd_id cmd_subid
      → is_null_at res 0 numbers (codes "cmd_sql") ≡ ok false
      → value_at res 0 numbers (codes "cmd_sql") ≡ ok (before ++ c ∷ (mid ++ d ∷ behind))
      → AllSpaces before
      → is_space c ≡ false
      → is_space d ≡ false
      → AllSpaces behind
      → ((sent : List Statement) (statement : Statement) → (server sent statement).notices ≡ [])
      → (done : SqlQueueCmd) × (sent : List Statement) × (run_cmd res_status server
            (started_cmd identity relname cmd_id cmd_subid (c ∷ (mid ++ d ∷ [])) start_time)
          ≡ ok (done, sent))
        × (handle_row
                (sql_cmd_type format_time (run_cmd res_status server))
                res
                numbers
                start_time
                end_time
              >>= bound read
            ≡ ok (
                outcome_values cmd_id cmd_subid start_time end_time done.cmd_sql_result_status
                  done.cmd_sql_fatal_error))
        × KeptAsTold server (c ∷ (mid ++ d ∷ [])) done.cmd_sql_fatal_error sent
  unfolding handle_row loaded_metadata stamp_start_time new_metadata
  handle_row-kept res_status server read res numbers identity relname cmd_id cmd_subid before c mid
        d behind start_time end_time r m n v hb hc hd he quiet =
      let cmd_sql = c ∷ (mid ++ d ∷ []) in
      let run = run_cmd res_status server in
      let t = sql_cmd_type format_time run in
      let start = started_cmd identity relname cmd_id cmd_subid cmd_sql start_time in
      let (done, sent, q, (same, none_yet, k)) =
        run_cmd-EndsKept res_status server start quiet refl in
      let loaded =
        sql_cmd_of_row-trimmed res 0 numbers (loaded_metadata identity relname cmd_id cmd_subid)
          before c mid d behind
          (metadata_of_row-written res 0 numbers identity relname cmd_id cmd_subid m) n v hb hc hd
          he in
      (
        done,
        sent,
        q,
        ap
              (λ o.
                (o >>= λ queue_cmd. t.run_cmd (t.stamp_start start_time queue_cmd) >>= λ done.
                ok (update_cmd t (t.stamp_end end_time done)))
                >>= bound read)
              loaded
            ∙ ap
                (λ o.
                  (sent_by o >>= λ done. ok (update_cmd t (t.stamp_end end_time done)))
                  >>= bound read)
                q
            ∙ bound-update_cmd read run (t.stamp_end end_time done) r
            ∙ ap ok (
                ended_values identity relname cmd_id cmd_subid cmd_sql start_time end_time done same
                  none_yet),
        k,
      )
