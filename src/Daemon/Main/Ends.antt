-- ===== src/Daemon/Main/Ends.antt =====
-- The daemon's `main` (pg_cmdqd/pg_cmd_queue_daemon.cpp) with a connection, up to its end, and
-- without one.
use pg_cmd_queue.Base.{
  ℕ, Bool, true, false, Option, none, some, List, [], ◌∷◌, ◌++◌, Bytes, Result, ok, err, null_this,
  ◌≡◌, refl, ◌∙◌, arith,
}
use mathlib.Core.Path.{subst, ap}
use pg_cmd_queue.Daemon.Options.{Options, options, read_env, parse_command_line}
use pg_cmd_queue.Daemon.Connection.{
  Failed, maintain_connection-connects, Attempt, ConnStatus, connection_ok, connect_loop,
  maintain_connection,
}
use pg_cmd_queue.Daemon.Manager.{
  CmdQueue, Manager, Runner, Runners, SelectTry, kill, kill_each, stop_all_runners, observe,
  observe_each,
}
use pg_cmd_queue.Daemon.Main.First.{first_refresh}
use pg_cmd_queue.Daemon.Manager.Refresh.{KnownRows, row_classes}
use pg_cmd_queue.Daemon.Listen.{
  ReadAnswer, nothing, ListenTurn, ready, Listened, listen_for_queue_list_changes, main_run,
  emit_sigusr1, with_manager,
}
use pg_cmd_queue.Daemon.Listen.Killed.{Pieces, QuietTurns, listen_loop-kill}
use pg_cmd_queue.Daemon.Listen.Listed.{AllHaveRunners-same}
use pg_cmd_queue.Daemon.Listen.Whole.{Ended, stop_all_runners-Ended}
use pg_cmd_queue.Daemon.Signals.{NoneReceived, sig_num_received, sig_num_received_first}
use pg_cmd_queue.Daemon.Main.{
  end_signals, end_signal, Surroundings, initial_options, join_each, join_all_threads, Outcome,
  ended, with_connection, run_daemon, main,
}

join_each-kill_each :
    (thread_ends : Runner → Bool) (sig_num : ℕ) (running : Bytes → Bool) (rs : Runners)
    → ((cls : Bytes) → running cls ≡ true)
    → ((r : Runner) → r.running ≡ true → thread_ends (kill sig_num r) ≡ true)
    → join_each thread_ends (kill_each sig_num (observe_each running rs)) ≡ true
join_each-kill_each thread_ends sig_num running [] a h = refl
join_each-kill_each thread_ends sig_num running ((key, r) ∷ rs) a h =
    simp
      (
        h (record r { running = running key }) (a key),
        join_each-kill_each thread_ends sig_num running rs a h,
      )
      refl

join_all_threads-stop_all_runners :
    (thread_ends : Runner → Bool) (sig_num : ℕ) (running : Bytes → Bool) (m : Manager)
    → ((cls : Bytes) → running cls ≡ true)
    → ((r : Runner) → r.running ≡ true → thread_ends (kill sig_num r) ≡ true)
    → join_all_threads thread_ends (stop_all_runners sig_num (observe running m))
      ≡ ok (stop_all_runners sig_num (observe running m))
unfolding join_all_threads stop_all_runners observe
join_all_threads-stop_all_runners thread_ends sig_num running m a h =
    simp
      (
        join_each-kill_each thread_ends sig_num running m.nix_cmd_queue_runners a h,
        join_each-kill_each thread_ends sig_num running m.sql_cmd_queue_runners a h,
      )
      refl

emit_sigusr1-manager : (emit : Bool) (l : Listened) → (emit_sigusr1 emit l).manager ≡ l.manager
emit_sigusr1-manager emit l = ground arith

-- Turns in which nothing is ready, and then one in which the kill pipe is.
abbrev pub killed_turns :
    List ListenTurn → List ReadAnswer → List ReadAnswer → List ListenTurn → List ListenTurn
killed_turns quiet pieces unread turns =
    quiet ++ ready none (some (pieces ++ nothing ∷ unread)) ∷ turns

listen-kill :
    (emit : Bool) (quiet : List ListenTurn) (pieces unread : List ReadAnswer)
    (turns : List ListenTurn) (l : Listened)
    → QuietTurns quiet
    → Pieces pieces
    → l.manager.keep_running ≡ true
    → listen_for_queue_list_changes emit
        (record {
          listen_ok = true;
          has_socket = true;
          turns = killed_turns quiet pieces unread turns;
        })
        l
      ≡ ok (with_manager (emit_sigusr1 emit l) (record l.manager { keep_running = false }))
unfolding listen_for_queue_list_changes
listen-kill emit quiet pieces unread turns l q p h =
    simp (emit_sigusr1-manager emit l, listen_loop-kill quiet pieces unread turns l.manager q p h)
      refl

-- From a connection on: the main thread's work, and then the joining.
with_connection-ends :
    (s : Surroundings) (o : Options) (status : ConnStatus) (rows : List (Option CmdQueue))
    (signalled : Bool) (tries : List SelectTry) (quiet : List ListenTurn)
    (pieces unread : List ReadAnswer) (turns : List ListenTurn)
    → s.tries ≡ record { rows = some rows; signalled = signalled } ∷ tries
    → KnownRows rows
    → s.listening ≡ record {
      listen_ok = true;
      has_socket = true;
      turns = killed_turns quiet pieces unread turns;
    }
    → QuietTurns quiet
    → Pieces pieces
    → ((cls : Bytes) → s.running cls ≡ true)
    → ((r : Runner) → r.running ≡ true → s.thread_ends (kill (end_signal s) r) ≡ true)
    → (l : Listened) × (with_connection s o (some status) ≡ ok (ended l))
      × (l.manager.old_cmd_classes ≡ row_classes [] rows)
      × Ended (end_signal s) (ok l)
unfolding main_run stop_all_runners observe
with_connection-ends s o status rows signalled tries quiet pieces unread turns et k el q p rs h =
    let (m, em, c, a, running) = first_refresh rows signalled tries k in
    let l0 : Listened = record { manager = m; emitted = false; sigusr1_sent = 0 } in
    let stopped = record m { keep_running = false } in
    let l = with_manager (emit_sigusr1 o.emit_sigusr1_when_ready l0) stopped in
    (
      with_manager l (stop_all_runners (end_signal s) (observe s.running stopped)),
      simp
          (
            et,
            em,
            el,
            listen-kill o.emit_sigusr1_when_ready quiet pieces unread turns l0 q p running,
            join_all_threads-stop_all_runners s.thread_ends (end_signal s) s.running stopped rs h,
          )
          refl,
      c,
      stop_all_runners-Ended (end_signal s) s.running l
          (AllHaveRunners-same m.old_cmd_classes m stopped (λ cls. refl) a) rs,
    )

run_daemon-ends :
    (s : Surroundings) (o : Options) (before attempts : List Attempt) {out : Result Outcome}
    → s.attempts ≡ before ++ record { signalled = false; status = connection_ok } ∷ attempts
    → Failed before
    → with_connection s o (some connection_ok) ≡ out
    → run_daemon s o ≡ out
unfolding run_daemon
run_daemon-ends s o before attempts e f h =
    let (d, ed, dc) = maintain_connection-connects before attempts f in simp (e, ed, dc) h

main-run :
    (s : Surroundings) (args : List Bytes) (o : Options) {o' : Options}
    → read_env s.log_level s.log_times initial_options ≡ options o
    → parse_command_line args o ≡ options o'
    → o'.list_mode ≡ false
    → main s args ≡ run_daemon s o'
unfolding main
main-run s args o {o'} er ep h = simp (er, ep, h) refl

-- The whole run, with the number that is found at its end.
main-ends_with :
    (s : Surroundings) (args : List Bytes) (o : Options) {o' : Options}
    (before attempts : List Attempt) (rows : List (Option CmdQueue)) (signalled : Bool)
    (tries : List SelectTry) (quiet : List ListenTurn) (pieces unread : List ReadAnswer)
    (turns : List ListenTurn)
    → read_env s.log_level s.log_times initial_options ≡ options o
    → parse_command_line args o ≡ options o'
    → o'.list_mode ≡ false
    → s.attempts ≡ before ++ record { signalled = false; status = connection_ok } ∷ attempts
    → Failed before
    → s.tries ≡ record { rows = some rows; signalled = signalled } ∷ tries
    → KnownRows rows
    → s.listening ≡ record {
      listen_ok = true;
      has_socket = true;
      turns = killed_turns quiet pieces unread turns;
    }
    → QuietTurns quiet
    → Pieces pieces
    → ((cls : Bytes) → s.running cls ≡ true)
    → ((r : Runner) → r.running ≡ true → s.thread_ends (kill (end_signal s) r) ≡ true)
    → (l : Listened) × (main s args ≡ ok (ended l))
      × (l.manager.old_cmd_classes ≡ row_classes [] rows)
      × Ended (end_signal s) (ok l)
main-ends_with s args o {o'} before attempts rows signalled tries quiet pieces unread turns er ep lm
      ea f et k el q p rs h =
    let (l, e, c, a) =
      with_connection-ends s o' connection_ok rows signalled tries quiet pieces unread turns et k el
        q p rs h in
    (l, main-run s args o er ep lm ∙ run_daemon-ends s o' before attempts ea f e, c, a)

-- If the options can be read and do not ask for the list of queues, a connection succeeds at last,
-- the first `SELECT` gives queues of known templates, the signal comes when no notification has, every
-- runner has `_running` set by then and room in its pipe, and each such thread ends once it was told
-- to, the program comes to its end: each selected queue then has a runner, and each runner has the
-- first of SIGQUIT, SIGTERM and SIGINT that was received as the last number in its pipe.
pub main-ends :
    (s : Surroundings) (args : List Bytes) (o : Options) {o' : Options}
    (before attempts : List Attempt) (rows : List (Option CmdQueue)) (signalled : Bool)
    (tries : List SelectTry) (quiet : List ListenTurn) (pieces unread : List ReadAnswer)
    (turns : List ListenTurn) (earlier : List ℕ) (sig_num : ℕ) (others : List ℕ)
    → read_env s.log_level s.log_times initial_options ≡ options o
    → parse_command_line args o ≡ options o'
    → o'.list_mode ≡ false
    → s.attempts ≡ before ++ record { signalled = false; status = connection_ok } ∷ attempts
    → Failed before
    → s.tries ≡ record { rows = some rows; signalled = signalled } ∷ tries
    → KnownRows rows
    → s.listening ≡ record {
      listen_ok = true;
      has_socket = true;
      turns = killed_turns quiet pieces unread turns;
    }
    → QuietTurns quiet
    → Pieces pieces
    → end_signals ≡ earlier ++ sig_num ∷ others
    → NoneReceived s.sig_recv earlier
    → s.sig_recv sig_num ≡ true
    → ((cls : Bytes) → s.running cls ≡ true)
    → ((r : Runner) → r.running ≡ true → s.thread_ends (kill sig_num r) ≡ true)
    → (l : Listened) × (main s args ≡ ok (ended l))
      × (l.manager.old_cmd_classes ≡ row_classes [] rows)
      × Ended sig_num (ok l)
unfolding end_signal
main-ends s args o before attempts rows signalled tries quiet pieces unread turns earlier sig_num
      others er ep lm ea f et k el q p es nr sr rs =
    let first : sig_num_received s.sig_recv end_signals ≡ sig_num =
      ap (sig_num_received s.sig_recv) es
      ∙ (sig_num_received_first s.sig_recv earlier sig_num others nr sr).0 in
    subst
      (λ n.
        ((r : Runner) → r.running ≡ true → s.thread_ends (kill n r) ≡ true)
        → (l : Listened) × (main s args ≡ ok (ended l))
          × (l.manager.old_cmd_classes ≡ row_classes [] rows)
          × Ended n (ok l))
      first
      (main-ends_with s args o before attempts rows signalled tries quiet pieces unread turns er ep
        lm ea f et k el q p rs)

-- If a signal is received before the first attempt to connect, the program does not end by
-- itself: it reads a member of a connection that is not there.
pub main-signalled_first :
    (s : Surroundings) (args : List Bytes) (o : Options) {o' : Options} (a : Attempt)
    (attempts : List Attempt)
    → read_env s.log_level s.log_times initial_options ≡ options o
    → parse_command_line args o ≡ options o'
    → o'.list_mode ≡ false
    → s.attempts ≡ a ∷ attempts
    → a.signalled ≡ true
    → main s args ≡ err null_this
unfolding run_daemon maintain_connection connect_loop
main-signalled_first s args o {o'} a attempts er ep lm ea h =
    main-run s args o er ep lm ∙ simp (ea, h) refl
