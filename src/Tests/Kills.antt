-- ===== src/Tests/Kills.antt =====
-- The theorems on the signals that runner threads are sent, and on a command in the log, at
-- concrete inputs.
use pg_cmd_queue.Base.{
  ◌≡◌, refl, true, false, none, [], ◌∷◌, Bytes, codes, ok, if◌then◌else◌, arith,
}
use pg_cmd_queue.Daemon.Signals.{wrote, write_failed}
use pg_cmd_queue.Daemon.Connection.{connection_ok, connection_bad}
use pg_cmd_queue.Runner.Kill.{kill}
use pg_cmd_queue.Runner.Kill.Pieces.{EndsAtZero, kill-EndsAtZero}
use pg_cmd_queue.Runner.Select.{
  begin_transaction, select_oldest, enter_reselect_round, commit_transaction, runner_session_start,
  select_round, select_statement, is_random_round, after_select, no_cmd, after_enter, end_round,
}
use pg_cmd_queue.Runner.Wait.{idle, poll_interrupted, at_end}
use pg_cmd_queue.Runner.Run.{signalled, Session, run}
use pg_cmd_queue.Runner.Run.Killed.{run-killed}
use pg_cmd_queue.Nix.CmdLine.{Quotes, in_quotes, has_special, cmd_line}
use pg_cmd_queue.Nix.CmdLine.Words.{words_from, words-cmd_line}
use pg_cmd_queue.Tests.Nix.{cmd}
use pg_cmd_queue.Tests.Runs.{killed, nothing_to_do}

kill-EndsAtZero_example :
    EndsAtZero
      (wrote 3 ∷ write_failed ∷ wrote 1 ∷ wrote 0 ∷ [])
      (kill true (wrote 3 ∷ write_failed ∷ wrote 1 ∷ wrote 0 ∷ []))
kill-EndsAtZero_example = kill-EndsAtZero (wrote 3 ∷ write_failed ∷ wrote 1 ∷ wrote 0 ∷ [])

abbrev session : Session
session = record {
  known_status = connection_bad;
  attempts =
      record { signalled = false; status = connection_bad }
      ∷ record { signalled = false; status = connection_ok }
      ∷ [];
  started = true;
  rounds = record { round = nothing_to_do; turns = idle poll_interrupted ∷ killed ∷ [] } ∷ [];
}

run-killed_example :
    run (codes "q") none (session ∷ []) false []
    ≡ ok (record {
      cause = signalled;
      running = false;
      sent =
          runner_session_start ∷ begin_transaction ∷ select_oldest ∷ enter_reselect_round
          ∷ commit_transaction ∷ [];
    })
unfolding select_round select_statement is_random_round after_select no_cmd after_enter end_round
run-killed_example =
    run-killed (codes "q") none session []
      (record { signalled = false; status = connection_bad } ∷ []) []
      (record { round = nothing_to_do; turns = idle poll_interrupted ∷ killed ∷ [] }) []
      (idle poll_interrupted ∷ []) [] at_end refl (refl, refl, tt) refl refl refl refl tt

abbrev regex_replace : Bytes → Bytes
regex_replace arg = if has_special arg then in_quotes arg else arg

quotes : Quotes regex_replace
quotes = record { matched = λ arg l h. simp h refl; kept = λ arg l h. simp h refl }

words-cmd_line_example :
    words_from false [] (
      cmd_line regex_replace
        (record cmd { cmd_argv = codes "echo" ∷ codes "a b" ∷ [] ∷ codes "$c" ∷ [] }))
    ≡ codes "echo" ∷ codes "a b" ∷ [] ∷ codes "$c" ∷ []
words-cmd_line_example =
    words-cmd_line regex_replace quotes
      (record cmd { cmd_argv = codes "echo" ∷ codes "a b" ∷ [] ∷ codes "$c" ∷ [] }) (codes "echo")
      (codes "a b" ∷ [] ∷ codes "$c" ∷ []) refl (ground arith)
