-- ===== src/Tests/Rows.antt =====
-- The theorems on what is loaded from rows, texts and the environment at concrete inputs.
use pg_cmd_queue.Base.{
  ℕ, zero, suc, ◌==◌, ◌≡◌, refl, pos, true, false, Option, none, some, List, [], ◌∷◌, Bytes, codes,
  Result, ok, err, invalid_argument, Fault, ◌>>=◌, arith,
}
use pg_cmd_queue.Pq.Rows.{PgResult, FieldNumbers, fnumbers, value_at, nullable_at, is_null_at}
use pg_cmd_queue.Sql.Row.{start_cmd, sql_cmd_of_row}
use pg_cmd_queue.Sql.Row.Trimmed.{sql_cmd_of_row-trimmed}
use pg_cmd_queue.Sys.Environ.{Env, environ_to_unordered_map, environ_to_unordered_map-vars}
use pg_cmd_queue.Text.Quote.{as_text_array, as_text_hstore, as_text_hstore_nullable}
use pg_cmd_queue.Text.Hstore.{from_text_hstore}
use pg_cmd_queue.Text.Hstore.RoundTrip.{from_text_hstore-plain}
use pg_cmd_queue.Text.Hstore.Nulls.{from_text_hstore-null}
use pg_cmd_queue.Nix.Command.{QueueCmdMetadata, new_metadata, NixQueueCmd}
use pg_cmd_queue.Nix.Row.{metadata_of_row, nix_cmd_of_row}
use pg_cmd_queue.Nix.Row.RoundTrip.{MetadataRow}
use pg_cmd_queue.Nix.Child.{dupped, dup_interrupted, Answers, executes, run_forked_child}
use pg_cmd_queue.Nix.Child.Row.{run_forked_child-nix_cmd_of_row}
use pg_cmd_queue.Daemon.Queue.{CmdQueue}

abbrev pub nth : List Bytes → ℕ → Bytes
nth [] n = []
nth (c ∷ cs) zero = c
nth (c ∷ cs) (suc n) = nth cs n

abbrev pub env : Env
env = (codes "A", codes "x=y") ∷ (codes "B", []) ∷ []

abbrev pub argv : List Bytes
argv = codes "echo" ∷ codes "it\"s, {so}" ∷ []

abbrev names : List Bytes
names =
    codes "cmd_class_identity"
    ∷ codes "cmd_class_relname"
    ∷ codes "cmd_id"
    ∷ codes "cmd_subid"
    ∷ codes "cmd_argv"
    ∷ codes "cmd_env"
    ∷ codes "cmd_stdin"
    ∷ codes "cmd_sql"
    ∷ []

abbrev values : List Bytes
values =
    codes "q"
    ∷ codes "q"
    ∷ codes "7"
    ∷ []
    ∷ as_text_array argv
    ∷ as_text_hstore env
    ∷ codes "input"
    ∷ codes " \n SELECT 1;\n"
    ∷ []

-- A row of the queue `q`; its `cmd_subid` is null.
abbrev pub res : PgResult
res = record {
  n_fields = 8;
  field_name = nth names;
  value = λ row. nth values;
  is_null = λ row n. n == 3;
}

abbrev pub numbers : FieldNumbers
numbers =
    (codes "cmd_class_identity", 0)
    ∷ (codes "cmd_class_relname", 1)
    ∷ (codes "cmd_id", 2)
    ∷ (codes "cmd_subid", 3)
    ∷ (codes "cmd_argv", 4)
    ∷ (codes "cmd_env", 5)
    ∷ (codes "cmd_stdin", 6)
    ∷ (codes "cmd_sql", 7)
    ∷ []

fnumbers-res : fnumbers res ≡ numbers
unfolding fnumbers
fnumbers-res = refl

pub metadata : MetadataRow res 0 numbers (codes "q") (codes "q") (codes "7") none
unfolding value_at nullable_at
metadata = record {
  identity_column = refl;
  relname_column = refl;
  id_column = refl;
  subid_column = refl;
}

abbrev answers : Answers
answers = record {
  dup_stdin = dup_interrupted ∷ dupped ∷ [];
  dup_stdout = dupped ∷ [];
  dup_stderr = dupped ∷ [];
  rlim_cur = 6;
  setpgid_ok = true;
  exec_ok = true;
}

run_forked_child-nix_cmd_of_row_example :
    (nix_cmd_of_row res 0 numbers >>= run_forked_child 10 13 15 (some (codes "/bin")) answers)
    ≡ ok (
        executes (codes "echo") argv ((codes "PATH", codes "/bin") ∷ env) (record {
          dups = (10, 0) ∷ (13, 1) ∷ (15, 2) ∷ [];
          closes = 3 ∷ 4 ∷ 5 ∷ [];
          masked = false;
        }))
unfolding value_at is_null_at
run_forked_child-nix_cmd_of_row_example =
    run_forked_child-nix_cmd_of_row res 0 numbers (codes "q") (codes "q") (codes "7") none
      (codes "echo") (codes "it\"s, {so}" ∷ []) env (codes "input") 10 13 15 (codes "/bin") answers
      metadata refl refl refl refl refl (ground arith) (ground arith) (ground arith) (ground arith)
      tt tt tt refl refl

abbrev cmd : NixQueueCmd
cmd = record {
  is_valid = true;
  flush_stderr_pos = 0;
  meta = new_metadata (codes "q") (codes "q") (codes "7") none;
  cmd_argv = argv;
  cmd_env = env;
  cmd_stdin = [];
  cmd_term_sig = none;
  cmd_exit_code = none;
  cmd_stdout = [];
  cmd_stderr = [];
}

from_text_hstore-plain_example :
    from_text_hstore (as_text_hstore env)
    ≡ ok ((codes "A", some (codes "x=y")) ∷ (codes "B", some []) ∷ [])
from_text_hstore-plain_example = from_text_hstore-plain env (ground arith) (ground arith)

from_text_hstore-null_example :
    from_text_hstore
      (as_text_hstore_nullable ((codes "A", none) ∷ (codes "B", some (codes "v")) ∷ []))
    ≡ ok ((codes "A", some (codes "B")) ∷ [])
from_text_hstore-null_example =
    from_text_hstore-null (codes "A") (codes "B") (codes "v") (ground arith) (ground arith)
      (ground arith) (ground arith)

abbrev loaded : QueueCmdMetadata
loaded = record (new_metadata (codes "q") (codes "q") (codes "7") none) { is_valid = true }

sql_cmd_of_row-trimmed_example :
    sql_cmd_of_row res 0 numbers ≡ ok (record (start_cmd loaded) { cmd_sql = codes "SELECT 1;" })
unfolding value_at is_null_at nullable_at metadata_of_row
sql_cmd_of_row-trimmed_example =
    sql_cmd_of_row-trimmed res 0 numbers loaded (codes " \n ") b'S' (codes "ELECT 1") b';'
      (codes "\n") refl refl refl (ground arith) refl refl (ground arith)

environ_to_unordered_map-vars_example :
    environ_to_unordered_map (codes "A=x=y" ∷ codes "B=" ∷ []) ≡ ok env
environ_to_unordered_map-vars_example = environ_to_unordered_map-vars env (ground arith)

abbrev error_field : ℕ → Option Bytes
error_field n = some (n ∷ [])

abbrev no_double : Bytes → Result ℕ
no_double s = err invalid_argument

abbrev message : Bytes → Fault → Bytes
message identity e = identity

abbrev unset : CmdQueue ℕ
unset = record {
  is_valid = false;
  validation_error_message = [];
  cmd_class_identity = [];
  cmd_class_relname = [];
  cmd_signature_class_relname = [];
  queue_runner_role = none;
  queue_notify_channel = none;
  queue_reselect_interval_msec = pos 0;
  queue_reselect_randomized_every_nth = none;
  queue_cmd_timeout_sec = 0;
  ansi_fg = [];
}
