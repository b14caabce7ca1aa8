-- ===== src/Tests/Loops.antt =====
-- The theorems on the logger, the connection, the received signals, the runner and the SQL commands
-- at concrete inputs.
use pg_cmd_queue.Base.{
  ℕ, ◌≤◌, ◌==◌, ◌≡◌, refl, Bool, false, none, some, List, [], ◌∷◌, Bytes, codes, ok, arith,
}
use pg_cmd_queue.Daemon.Connection.{
  connection_ok, connection_bad, Attempt, Connecting, maintain_connection, maintain_connection_ends,
  backoffs,
}
use pg_cmd_queue.Runner.Wait.{
  Turn, heard, idle, poll_interrupted, notified, turn, after_wait, wait_loop,
}
use pg_cmd_queue.Runner.Notify.{wait_loop-payload}
use pg_cmd_queue.Text.Composite.Plain.{PlainFields}
use pg_cmd_queue.Sql.Command.{
  ExecStatus, command_ok, fatal_error, Answer, Statement, set_savepoint, sql, set_constraints,
  rollback_to_savepoint, release_savepoint,
}

-- `SIGTERM` was received.
abbrev received : ℕ → Bool
received n = n == 15

abbrev refused : Attempt
refused = record { signalled = false; status = connection_bad }

abbrev accepted : Attempt
accepted = record { signalled = false; status = connection_ok }

maintain_connection_ends_example :
    (d : Connecting) × (n : ℕ) × (maintain_connection false (refused ∷ refused ∷ accepted ∷ []) none
      ≡ ok d)
    × (d.slept ≡ backoffs 0 n)
    × (n ≤ 2)
maintain_connection_ends_example =
    maintain_connection_ends false (refused ∷ refused ∷ []) accepted [] refl

abbrev connected : Connecting
connected = record { conn = some connection_ok; slept = 1 ∷ 2 ∷ [] }

abbrev interrupted : Turn
interrupted = idle poll_interrupted

fields-PlainFields : PlainFields (some (codes "q") ∷ some (codes "7") ∷ none ∷ [])
fields-PlainFields = ground arith

wait_loop-payload_example :
    wait_loop (codes "q") (interrupted ∷ heard (codes "(q,7,)") ∷ [])
    ≡ ok (notified (codes "7") none)
unfolding turn after_wait
wait_loop-payload_example =
    wait_loop-payload (codes "q") (codes "7") none (interrupted ∷ []) [] fields-PlainFields
      (refl, tt)

abbrev pub status_name : ExecStatus → Bytes
status_name e = codes "status"

-- A server that refuses the deferred constraints.
abbrev answer_to : Statement → Answer
answer_to set_constraints = record { status = fatal_error; error_fields = []; notices = [] }
answer_to _ = record { status = command_ok; error_fields = []; notices = [] }

abbrev pub server : List Statement → Statement → Answer
server sent = answer_to

pub answer_to-quiet : (statement : Statement) → (answer_to statement).notices ≡ []
answer_to-quiet set_savepoint = refl
answer_to-quiet (sql s) = refl
answer_to-quiet set_constraints = refl
answer_to-quiet rollback_to_savepoint = refl
answer_to-quiet release_savepoint = refl
