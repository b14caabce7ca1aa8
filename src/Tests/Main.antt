-- ===== src/Tests/Main.antt =====
-- The theorems on the daemon's `main` at concrete inputs.
use pg_cmd_queue.Base.{
  ℕ, ◌≡◌, refl, Bool, true, false, none, some, List, [], ◌∷◌, ◌++◌, codes, ok, err, null_this, not,
  ◌||◌, ap, ◌∙◌, arith,
}
use pg_cmd_queue.Daemon.Signals.{mark_received}
use pg_cmd_queue.Daemon.Connection.{connection_ok, connection_bad}
use pg_cmd_queue.Daemon.Manager.{Runner, kill}
use pg_cmd_queue.Daemon.Manager.Started.{kill_running}
use pg_cmd_queue.Daemon.Options.{read_env, parse_command_line, parse_args}
use pg_cmd_queue.Daemon.Listen.{poll_interrupted, Listened}
use pg_cmd_queue.Daemon.Listen.Whole.{Ended}
use pg_cmd_queue.Daemon.Main.{Surroundings, initial_options, ended, main}
use pg_cmd_queue.Daemon.Main.Exit.{SucceededOrUsage, main_exit_codes}
use pg_cmd_queue.Daemon.Main.Ends.{killed_turns, main-ends, main-signalled_first}
use pg_cmd_queue.Tests.Listen.{nix_queue, sql_queue, pieces}
use pg_cmd_queue.Tests.Rows.{res}

-- A thread ends if it is not running, or has been told something.
abbrev is_told : List ℕ → Bool
is_told [] = false
is_told (_ ∷ _) = true

abbrev thread_ends : Runner → Bool
thread_ends r = not r.running || is_told r.signals

is_told-append : (signals : List ℕ) → is_told (signals ++ 15 ∷ []) ≡ true
is_told-append [] = refl
is_told-append (_ ∷ _) = refl

told_ends : (r : Runner) → r.running ≡ true → thread_ends (kill 15 r) ≡ true
told_ends r h =
    ap (λ b. thread_ends (kill 15 (record { running = b; signals = r.signals }))) h
    ∙ ap thread_ends (kill_running 15 r.signals)
    ∙ is_told-append r.signals

abbrev surroundings : Surroundings
surroundings = record {
  log_level = none;
  log_times = none;
  attempts =
      record { signalled = false; status = connection_bad }
      ∷ record { signalled = false; status = connection_ok }
      ∷ [];
  classes = record { tuples_ok = true; n_tuples = 1; result = res };
  tries =
      record { rows = some (some nix_queue ∷ none ∷ some sql_queue ∷ []); signalled = false } ∷ [];
  listening = record {
    listen_ok = true;
    has_socket = true;
    turns = killed_turns (poll_interrupted ∷ []) pieces [] [];
  };
  sig_recv = mark_received 15 (λ n. false);
  running = λ cls. true;
  thread_ends = thread_ends;
}

main-ends_example :
    (l : Listened) × (main surroundings (codes "--no-log-times" ∷ codes "dbname=x" ∷ [])
      ≡ ok (ended l))
    × (l.manager.old_cmd_classes ≡ codes "a" ∷ codes "b" ∷ [])
    × Ended 15 (ok l)
unfolding read_env parse_command_line parse_args
main-ends_example =
    main-ends surroundings (codes "--no-log-times" ∷ codes "dbname=x" ∷ []) initial_options
      (record { signalled = false; status = connection_bad } ∷ []) []
      (some nix_queue ∷ none ∷ some sql_queue ∷ []) false [] (poll_interrupted ∷ []) pieces [] []
      (3 ∷ []) 15 (2 ∷ []) refl refl refl refl (refl, refl, tt) refl (ground arith) refl tt tt refl
      (refl, tt) refl (λ cls. refl) told_ends

-- A signal is there from the start.
abbrev signalled_first : Surroundings
signalled_first = record surroundings {
  attempts = record { signalled = true; status = connection_bad } ∷ [];
}

main-signalled_first_example : main signalled_first (codes "dbname=x" ∷ []) ≡ err null_this
unfolding read_env parse_command_line parse_args
main-signalled_first_example =
    main-signalled_first signalled_first (codes "dbname=x" ∷ []) initial_options
      (record { signalled = true; status = connection_bad }) [] refl refl refl refl refl

main_exit_codes_example :
    SucceededOrUsage (main surroundings (codes "--list-queue-names" ∷ codes "--cmd-queue" ∷ []))
main_exit_codes_example =
    main_exit_codes surroundings (codes "--list-queue-names" ∷ codes "--cmd-queue" ∷ [])
