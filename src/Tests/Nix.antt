-- ===== src/Tests/Nix.antt =====
-- The theorems on pg_cmdqd/nixqueuecmd.cpp at concrete inputs.
use pg_cmd_queue.Base.{
  ℕ, ℤ, Result, Option, ◌++◌, ◌<◌, ◌≤◌, ◌≢◌, ◌≡◌, refl, ◌⊎◌, true, false, none, some, List, [], ◌∷◌,
  Bytes, codes, ok, arith,
}
use pg_cmd_queue.Logger.{error}
use pg_cmd_queue.Nix.Command.{started, NixQueueCmd}
use pg_cmd_queue.Nix.UpdateText.{update_stmt}
use pg_cmd_queue.Tools.QueueCmdMain.{MainEnd, made_cmd, main}
use pg_cmd_queue.Tools.QueueCmdMain.Ends.{EndsAs, written_args, main-EndsAs}
use pg_cmd_queue.Nix.Flush.{flush_stderr}
use pg_cmd_queue.Nix.Flush.Lines.{flush_stderr-text_lines}
use pg_cmd_queue.Nix.Io.{
  Errno, eintr, eagain, WriteAnswer, wrote, write_failed, got, write_stdin, read_all,
}
use pg_cmd_queue.Nix.Io.Bounds.{write_stdin_outcome}
use pg_cmd_queue.Nix.Poll.{
  exited, running, reaped_with, Revents, timed_out, events, Round, PollState, poll_start,
  poll_round, poll_loop, sigabrt, sigterm, poll_failed, reap, reap_new, after_poll, on_events,
  on_stdin, on_stdout, after_stdout, on_stderr, on_timeout,
}
use pg_cmd_queue.Nix.Poll.Signals.{SignalRule, Behind, poll_round-SignalRule, poll_loop_kills}
use pg_cmd_queue.Nix.Run.{forked, Ran, run_cmd}
use pg_cmd_queue.Nix.Run.Status.{HasStatus, run_cmd-HasStatus}

abbrev pub message : Errno → Bytes
message e = codes "failed"

abbrev nothing : Revents
nothing = record { ready = false; gone = false }

abbrev something : Revents
something = record { ready = true; gone = false }

-- A command that has written two lines to its standard error.
abbrev pub cmd : NixQueueCmd
cmd = record {
  is_valid = true;
  flush_stderr_pos = 0;
  meta = record {
    cmd_class_identity = codes "q";
    cmd_class_relname = codes "q";
    cmd_id = codes "1";
    cmd_subid = none;
    cmd_runtime_start = 0;
    cmd_runtime_end = 0;
    is_valid = true;
  };
  cmd_argv = codes "cat" ∷ [];
  cmd_env = [];
  cmd_stdin = codes "input";
  cmd_term_sig = none;
  cmd_exit_code = none;
  cmd_stdout = [];
  cmd_stderr = codes "one\ntwo";
}

abbrev no_input : NixQueueCmd
no_input = record cmd { cmd_stdin = [] }

-- A round in which the child is running and its standard output can be read.
abbrev pub busy : Round
busy = record {
  top_time = 0;
  waited = running;
  polled = events nothing something nothing;
  poll_time = 5;
  last_wait = reaped_with (exited 0);
  writes = [];
  stdout_reads = got (codes "out") ∷ [];
  stderr_reads = [];
}

-- The timeout has come.
abbrev late : Round
late = record busy { polled = timed_out; poll_time = 20 }

-- The child has ended, and the pipes are idle.
abbrev pub final : Round
final = record late { waited = reaped_with (exited 0); poll_time = 30 }

-- The pipe to the child takes two bytes.
abbrev full : Round
full = record busy { polled = events something nothing nothing; writes = wrote 2 ∷ [] }

flush_stderr-text_lines_example :
    flush_stderr error true cmd []
    ≡ ok (record cmd { flush_stderr_pos = 7 }, (error, codes "one") ∷ (error, codes "two") ∷ [])
flush_stderr-text_lines_example = flush_stderr-text_lines error cmd [] refl

-- The line end comes after the flush.
abbrev half : NixQueueCmd
half = record cmd { cmd_stderr = codes "one"; flush_stderr_pos = 0 }

abbrev half_flushed : NixQueueCmd
half_flushed = record half { flush_stderr_pos = 3 }

abbrev whole : NixQueueCmd
whole = record half_flushed { cmd_stderr = codes "one more\n" }

abbrev answers : List WriteAnswer
answers = wrote 2 ∷ write_failed eintr ∷ wrote 3 ∷ []

write_stdin_outcome_example :
    let w = write_stdin answers (codes "input") 0 in
    (0 ≤ w.cum_stdin_bytes_written)
    × (((w.cum_stdin_bytes_written ≡ 5) × (w.write_error ≡ none))
        ⊎ ((w.cum_stdin_bytes_written < 5) × (w.write_error ≢ none)))
write_stdin_outcome_example =
    write_stdin_outcome answers (codes "input") 0 (omega arith) (omega arith, (omega arith, tt))

poll_round-SignalRule_example :
    SignalRule 10 late (poll_start cmd []) (poll_round message 10 late (poll_start cmd []))
poll_round-SignalRule_example = poll_round-SignalRule message 10 late (poll_start cmd [])

-- The state that the loop has left behind.
abbrev left : PollState
left = record {
  cmd = record cmd { cmd_stdout = codes "out" };
  logged = [];
  kills = sigterm ∷ [];
  cum_stdin_bytes_written = 0;
  stdin_open = true;
  stdin_events = true;
  stdin_fd = true;
  stdout_fd = true;
  stderr_fd = true;
  tried_sigterm = true;
  sigterm_time = 20;
  res_pid = reaped_with (exited 0);
  reaped = true;
}

poll_loop_kills_example : Behind message left.kills
unfolding poll_loop poll_round reap reap_new after_poll on_events on_stdin on_stdout after_stdout
    on_stderr on_timeout poll_start read_all
poll_loop_kills_example =
    poll_loop_kills message 10 (busy ∷ late ∷ final ∷ []) cmd [] {t = left} refl

abbrev ended_busy : PollState
ended_busy = record left {
  cmd = record cmd { cmd_term_sig = some sigabrt; cmd_stderr = codes "poll() error: failed" };
  kills = [];
  tried_sigterm = false;
  sigterm_time = 0;
  res_pid = running;
  reaped = false;
}

abbrev broken : Round
broken = record busy { polled = poll_failed eagain }

abbrev ended_no_input : PollState
ended_no_input = record left {
  cmd = record no_input { cmd_stdout = codes "out" };
  kills = [];
  stdin_events = false;
  tried_sigterm = false;
  sigterm_time = 0;
}

run_cmd-HasStatus_example :
    (ran : Ran) × (run_cmd message 10 (forked none none) (busy ∷ late ∷ final ∷ []) [] running cmd
      ≡ ok ran)
    × HasStatus ran.cmd
run_cmd-HasStatus_example =
    run_cmd-HasStatus message 10 (busy ∷ late ∷ []) final [] [] running cmd (forked none none) tt
      (ground arith, (ground arith, (ground arith, tt))) (ground arith, refl) (omega arith)

abbrev printed_time : ℕ → Bytes
printed_time n = codes "0.000000"

abbrev printed_int : ℤ → Bytes
printed_int i = codes "0"

abbrev quoted : Bytes → Option Bytes
quoted s = some (b'\'' ∷ (s ++ codes "'"))

abbrev update_text : NixQueueCmd → Result Bytes
update_text = update_stmt printed_time printed_int (λ s. s) quoted

abbrev run : NixQueueCmd → Result Ran
run = run_cmd message 0 (forked none none) (busy ∷ late ∷ final ∷ []) [] running

main-EndsAs_example :
    (ran : Ran) × (e : MainEnd) × (run
        (started 1 (made_cmd (written_args (codes "q") (codes "7") none (codes "cat" ∷ [])) []))
      ≡ ok ran)
    × (main update_text run [] 1 2 (codes "q" ∷ codes "7" ∷ codes "--" ∷ codes "cat" ∷ [])
        ≡ ok ([], e))
    × EndsAs e ran.cmd.cmd_exit_code ran.cmd.cmd_term_sig
main-EndsAs_example =
    main-EndsAs update_text [] 1 2 message (forked none none) (busy ∷ late ∷ []) final [] [] running
      (codes "q") (codes "7") none (codes "cat") [] refl refl tt tt
      (ground arith, (ground arith, (ground arith, tt))) (ground arith, refl)

abbrev gave_up : Ran
gave_up = record {
  cmd = record cmd { cmd_stderr = codes "fork() failed: failed"; cmd_term_sig = some sigabrt };
  logged = [];
  kills = [];
  masked = true;
}
