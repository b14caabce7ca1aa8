-- ===== src/Nix/Child/Row.antt =====
-- From a row of the queue to the program that is executed (pg_cmdqd/nixqueuecmd.cpp).
use pg_cmd_queue.Base.{
  ℕ, ◌-◌, true, false, Option, some, List, [], ◌∷◌, Bytes, codes, ok, ◌>>=◌, ◌≡◌, refl, ap, ◌∙◌,
}
use pg_cmd_queue.Text.Quote.{as_text_array, as_text_hstore}
use pg_cmd_queue.Text.Array.RoundTrip.{NoBackslash}
use pg_cmd_queue.Text.Hstore.RoundTrip.{PlainPairs, PlainKeys}
use pg_cmd_queue.Pq.Rows.{PgResult, FieldNumbers, value_at, is_null_at}
use pg_cmd_queue.Sys.Environ.{PlainNames}
use pg_cmd_queue.Nix.Command.{new_nix_queue_cmd}
use pg_cmd_queue.Nix.Row.{nix_cmd_of_row}
use pg_cmd_queue.Nix.Row.RoundTrip.{MetadataRow, loaded_cmd, nix_cmd_of_row-written}
use pg_cmd_queue.Nix.Child.{close_from, executes, Answers, run_forked_child}
use pg_cmd_queue.Nix.Child.Execs.{Dups, run_forked_child-executes}

-- From a row whose arguments `as_text_array` wrote and whose environment `as_text_hstore` wrote, the
-- child executes the program with just these arguments, and with the daemon's `PATH` and these
-- variables as its environment; if the arguments have no backslash, the environment is one that
-- `from_text_hstore` reads back, its names have no equals sign and are not `PATH`, and the calls
-- succeed.
pub run_forked_child-nix_cmd_of_row :
    (res : PgResult) (row : ℕ) (numbers : FieldNumbers) (identity relname cmd_id : Bytes)
    (cmd_subid : Option Bytes) (arg : Bytes) (args : List Bytes) (env : List (Bytes × Bytes))
    (stdin : Bytes) (stdin_read stdout_write stderr_write : ℕ) (path : Bytes) (a : Answers)
    → MetadataRow res row numbers identity relname cmd_id cmd_subid
    → is_null_at res row numbers (codes "cmd_argv") ≡ ok false
    → value_at res row numbers (codes "cmd_argv") ≡ ok (as_text_array (arg ∷ args))
    → is_null_at res row numbers (codes "cmd_env") ≡ ok false
    → value_at res row numbers (codes "cmd_env") ≡ ok (as_text_hstore env)
    → value_at res row numbers (codes "cmd_stdin") ≡ ok stdin
    → NoBackslash (arg ∷ args)
    → PlainPairs env
    → PlainKeys [] env
    → PlainNames ((codes "PATH", path) ∷ []) env
    → Dups a.dup_stdin
    → Dups a.dup_stdout
    → Dups a.dup_stderr
    → a.setpgid_ok ≡ true
    → a.exec_ok ≡ true
    → (nix_cmd_of_row res row numbers
        >>= run_forked_child stdin_read stdout_write stderr_write (some path) a)
      ≡ ok (
          executes arg (arg ∷ args) ((codes "PATH", path) ∷ env) (record {
            dups = (stdin_read, 0) ∷ (stdout_write, 1) ∷ (stderr_write, 2) ∷ [];
            closes = close_from 3 (a.rlim_cur - 3);
            masked = false;
          }))
unfolding loaded_cmd new_nix_queue_cmd
run_forked_child-nix_cmd_of_row res row numbers identity relname cmd_id cmd_subid arg args env stdin
      r w e path a m na va ne ve vs nb pp pk pn d0 d1 d2 s x =
    let cmd = loaded_cmd identity relname cmd_id cmd_subid (arg ∷ args) env stdin in
    ap (λ c. c >>= run_forked_child r w e (some path) a)
      (nix_cmd_of_row-written res row numbers identity relname cmd_id cmd_subid (arg ∷ args) env
        stdin m na va ne ve vs nb pp pk)
    ∙ run_forked_child-executes r w e path a cmd arg args refl pn d0 d1 d2 s x
