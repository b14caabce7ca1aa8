-- ===== src/Nix/UpdateText.antt =====
-- `NixQueueCmd::update_stmt` (pg_cmdqd/nixqueuecmd.cpp): the text of the `UPDATE` that the program
-- pg_cmdqd/pg_nix_queue_cmd.cpp prints. What libpq escapes and how the C library prints numbers are
-- functions.
use pg_cmd_queue.Base.{
  ℕ, ℤ, pos, Option, none, some, ◌++◌, Bytes, codes, Result, ok, err, null_this, ◌>>=◌,
}
use pg_cmd_queue.Text.Scan.{c_str}
use pg_cmd_queue.Nix.Command.{NixQueueCmd}

-- `PQ::escapeLiteral`: a string is made of a null pointer where libpq fails.
unfoldable pub escape_literal : (Bytes → Option Bytes) → Bytes → Result Bytes
escape_literal pq_escape_literal str = elim (pq_escape_literal str) [
  | none ↦ err null_this
  | some to ↦ ok to
]

module _ (format_time : ℕ → Bytes) (to_string : ℤ → Bytes) (escape_bytea : Bytes → Bytes)
    (pq_escape_literal : Bytes → Option Bytes) where
  abbrev code_or_null : Option ℕ → Bytes
  code_or_null none = codes "NULL"
  code_or_null (some i) = to_string (pos i)

  abbrev int_or_null : Option ℤ → Bytes
  int_or_null none = codes "NULL"
  int_or_null (some i) = to_string i

  unfoldable pub literal_or_null : Option Bytes → Result Bytes
  literal_or_null none = ok (codes "NULL")
  literal_or_null (some str) = escape_literal pq_escape_literal str

  unfoldable pub update_stmt : NixQueueCmd → Result Bytes
  update_stmt cmd = literal_or_null cmd.meta.cmd_subid >>= λ subid. ok (
      codes "\nUPDATE\n    "
      ++ (c_str cmd.meta.cmd_class_identity
          ++ (codes "\nSET\n    cmd_runtime = tstzrange(to_timestamp("
              ++ (format_time cmd.meta.cmd_runtime_start
                  ++ (codes "), to_timestamp("
                      ++ (format_time cmd.meta.cmd_runtime_end
                          ++ (codes "))\n    ,cmd_exit_code = "
                              ++ (code_or_null cmd.cmd_exit_code
                                  ++ (codes "\n    ,cmd_term_sig = "
                                      ++ (int_or_null cmd.cmd_term_sig
                                          ++ (codes "\n    ,cmd_stdout = '"
                                              ++ (c_str (escape_bytea cmd.cmd_stdout)
                                                  ++ (codes "'\n    ,cmd_stderr = '"
                                                      ++ (c_str (escape_bytea cmd.cmd_stderr)
                                                          ++ (codes "'\nWHERE\n    cmd_id = '"
                                                            ++ (c_str cmd.meta.cmd_id
                                                            ++ (codes
                                                            "'\n    AND cmd_subid IS NOT DISTINCT from "
                                                            ++ (c_str subid
                                                            ++ codes "\n"))))))))))))))))))
