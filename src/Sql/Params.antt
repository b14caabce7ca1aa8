-- ===== src/Sql/Params.antt =====
-- The parameters of the `UPDATE` of a `SqlQueueCmd` (pg_cmdqd/sqlqueuecmd.cpp).
use pg_cmd_queue.Base.{ℕ, ℤ, Option, none, some, List, [], ◌∷◌, map, Bytes, codes}
use pg_cmd_queue.Text.Quote.{as_text_array, as_text_composite_value}
use pg_cmd_queue.Sql.Command.{ErrorFields, SqlQueueCmd}

-- `PQ::values_to_vector`.
unfoldable pub values_to_vector : ErrorFields → List (Option Bytes)
values_to_vector [] = []
values_to_vector ((key, value) ∷ m) = value ∷ values_to_vector m

abbrev pub error_text : Option ErrorFields → Option Bytes
error_text none = none
error_text (some e) = some (as_text_composite_value (values_to_vector e))

-- `formatString("%f", …)` of a time is the C library's printing.
module _ (format_time : ℕ → Bytes) where
  unfoldable pub update_params : SqlQueueCmd → List (Option Bytes)
  update_params cmd =
      some cmd.meta.cmd_id
      ∷ cmd.meta.cmd_subid
      ∷ some (format_time cmd.meta.cmd_runtime_start)
      ∷ some (format_time cmd.meta.cmd_runtime_end)
      ∷ some cmd.cmd_sql_result_status
      ∷ some (codes "null")
      ∷ error_text cmd.cmd_sql_fatal_error
      ∷ some (
          as_text_array
            (map (λ e. as_text_composite_value (values_to_vector e)) cmd.cmd_sql_nonfatal_errors))
      ∷ []

unfoldable pub update_param_lengths : List ℤ
update_param_lengths = []

unfoldable pub update_param_formats : List ℕ
update_param_formats = []
