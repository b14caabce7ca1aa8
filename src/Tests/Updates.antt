-- ===== src/Tests/Updates.antt =====
-- The theorems on a command's way from its row to the `UPDATE` at concrete inputs.
use pg_cmd_queue.Base.{
  ℕ, ◌==◌, if◌then◌else◌, length, take, ap, ℤ, pos, negsuc, ◌≡◌, refl, none, some, [], ◌∷◌, Bytes,
  codes, ok, ◌>>=◌, inl, List, arith,
}
use pg_cmd_queue.Text.Scan.{c_str}
use pg_cmd_queue.Pq.Rows.{value_at, is_null_at}
use pg_cmd_queue.Pq.Exec.Bound.{Reads, bound}
use pg_cmd_queue.Nix.Poll.{running}
use pg_cmd_queue.Nix.Io.{read_all}
use pg_cmd_queue.Nix.Run.Chunks.{QuietRounds}
use pg_cmd_queue.Nix.Run.{forked, Ran, run_cmd}
use pg_cmd_queue.Nix.Run.Outputs.{run_cmd-captured}
use pg_cmd_queue.Runner.Command.{handle_row, nix_cmd_type}
use pg_cmd_queue.Runner.Command.Updates.{handle_row-bound}
use pg_cmd_queue.Sql.Command
use pg_cmd_queue.Sql.Run.{KeptAsTold}
use pg_cmd_queue.Runner.Command.SqlUpdates.{started_cmd, outcome_values, handle_row-kept}
use pg_cmd_queue.Runner.Command.{sql_cmd_type}
use pg_cmd_queue.Tests.Loops.{status_name, server, answer_to-quiet}
use pg_cmd_queue.Tests.Nix.{message, cmd, busy, final}
use pg_cmd_queue.Tests.Rows.{res, numbers, metadata, argv, env}

-- Each of the two rounds gives some output and meets no error.
plain : QuietRounds (codes "input") (busy ∷ busy ∷ [])
unfolding read_all
plain = ((ground arith, (inl refl, (tt, tt))), ((ground arith, (inl refl, (tt, tt))), tt))

run_cmd-captured_example :
    (ran : Ran) × (position : ℕ) × (run_cmd message 20
        (forked none none)
        (busy ∷ busy ∷ final ∷ [])
        []
        running
        cmd
      ≡ ok ran)
    × (ran.cmd ≡ record cmd {
      cmd_exit_code = some 0;
      cmd_stdout = codes "outout";
      cmd_stderr = codes "one\ntwo";
      flush_stderr_pos = position;
    })
    × (ran.kills ≡ [])
unfolding read_all
run_cmd-captured_example =
    run_cmd-captured message 20 (busy ∷ busy ∷ []) final [] [] running cmd 0 (ground arith) plain
      (ground arith) refl refl

abbrev format_time : ℕ → Bytes
format_time n = codes "1.5"

abbrev to_string : ℤ → Bytes
to_string n = codes "0"

-- A text ends at its zero byte, and a binary value has its length.
abbrev read : ℕ → ℤ → Bytes → Bytes
read format (pos n) value = if format == 1 then take n value else c_str value
read format (negsuc n) value = c_str value

take_all : (value : Bytes) → take (length value) value ≡ value
take_all [] = refl
take_all (b ∷ value) = ap (λ bs. b ∷ bs) (take_all value)

texts : (n : ℤ) (value : Bytes) → read 0 n value ≡ c_str value
texts (pos n) value = refl
texts (negsuc n) value = refl

reads : Reads read
reads = record { text = texts; binary = take_all }

handle_row-bound_example :
    (handle_row
        (nix_cmd_type format_time to_string
          (run_cmd message 20 (forked none none) (busy ∷ busy ∷ final ∷ []) [] running))
        res
        numbers
        1
        2
      >>= bound read)
    ≡ ok (
        some (codes "7")
        ∷ none
        ∷ some (codes "1.5")
        ∷ some (codes "1.5")
        ∷ some (codes "0")
        ∷ none
        ∷ some (codes "outout")
        ∷ some []
        ∷ [])
unfolding value_at is_null_at read_all
handle_row-bound_example =
    handle_row-bound format_time to_string message 20 read res numbers (codes "q") (codes "q")
      (codes "7") none argv env (codes "input") 1 2 (busy ∷ busy ∷ []) final [] [] running 0 reads
      metadata refl refl refl refl refl (ground arith) (ground arith) (ground arith) plain
      (ground arith) refl refl (ground arith) (ground arith)

-- The row's command is `SELECT 1;`, and the server refuses the deferred constraints.
handle_row-kept_example :
    (done : Command.SqlQueueCmd) × (sent : List Command.Statement) × (Command.run_cmd status_name
        server
        (started_cmd format_time (codes "q") (codes "q") (codes "7") none (codes "SELECT 1;") 1)
      ≡ ok (done, sent))
    × ((handle_row (sql_cmd_type format_time (Command.run_cmd status_name server)) res numbers 1 2
          >>= bound read)
        ≡ ok (
            outcome_values format_time
              (codes "7")
              none
              1
              2
              done.cmd_sql_result_status
              done.cmd_sql_fatal_error))
    × KeptAsTold server (codes "SELECT 1;") done.cmd_sql_fatal_error sent
unfolding value_at is_null_at
handle_row-kept_example =
    handle_row-kept format_time status_name server read res numbers (codes "q") (codes "q")
      (codes "7") none (codes " \n ") b'S' (codes "ELECT 1") b';' (codes "\n") 1 2 reads metadata
      refl refl (ground arith) refl refl (ground arith) (λ sent. answer_to-quiet)
