-- ===== src/Runner/Run/Stopped.antt =====
-- How a runner's thread (pg_cmdqd/cmdqueuerunner.h) ends.
use pg_cmd_queue.Base.{
  ℕ, Bool, true, false, Option, none, some, List, [], ◌∷◌, ◌++◌, Bytes, if◌then◌else◌, Result, ok,
  err, null_this, ◌>>=◌, ◌≡◌,
}
use pg_cmd_queue.Daemon.Connection.{ConnStatus, Connecting, maintain_connection}
use pg_cmd_queue.Runner.Select.{
  Statement, runner_session_start, SelectState, Flow, waits, reconnects, leaves, select_round,
}
use pg_cmd_queue.Runner.Select.Transactions.{is_open, ClosedIfWaiting, select_round-ClosedIfWaiting}
use pg_cmd_queue.Runner.Wait.{
  Turn, Waited, notified, reselect, reconnect, leave_thread, stopped, wait_loop,
}
use pg_cmd_queue.Runner.Run.{
  FullRound, Session, RoundsEnd, to_reconnect, by_signal, returned, after_waited, after_round,
  run_rounds, signalled, not_started, gave_up, Thread, after_rounds, run_session, run, new_session,
}

-- No transaction is open behind a loop that a signal or a failed `poll` ended.
abbrev ClosedRounds : Result RoundsEnd → Type 0
ClosedRounds (ok (by_signal s)) = is_open s.sent ≡ false
ClosedRounds (ok (returned false s)) = is_open s.sent ≡ false
ClosedRounds _ = Unit

-- No transaction is open behind a thread that a signal ended, or that is no longer marked as
-- running although it gave up.
abbrev pub ClosedThread : Result Thread → Type 0
ClosedThread (ok t) = elim t.cause [
  | signalled ↦ is_open t.sent ≡ false
  | not_started ↦ Unit
  | gave_up ↦ elim t.running [ false ↦ is_open t.sent ≡ false | true ↦ Unit ]
]
ClosedThread (err e) = Unit

module _ (identity : Bytes) (randomized_every_nth : Option ℕ) where
  after_waited-ClosedRounds :
      (next : SelectState → Result RoundsEnd) (s : SelectState) (w : Result Waited)
      → ((s : SelectState) → ClosedRounds (next s))
      → is_open s.sent ≡ false
      → ClosedRounds (w >>= after_waited next s)
  after_waited-ClosedRounds next s (err e) k c = tt
  after_waited-ClosedRounds next s (ok (notified i j)) k c = k _
  after_waited-ClosedRounds next s (ok reselect) k c = k _
  after_waited-ClosedRounds next s (ok reconnect) k c = tt
  after_waited-ClosedRounds next s (ok leave_thread) k c = c
  after_waited-ClosedRounds next s (ok stopped) k c = c

  after_round-ClosedRounds :
      (turns : List Turn) (next : SelectState → Result RoundsEnd) (f : Result Flow)
      → ((s : SelectState) → ClosedRounds (next s))
      → ClosedIfWaiting f
      → ClosedRounds (f >>= after_round identity turns next)
  after_round-ClosedRounds turns next (err e) k c = tt
  after_round-ClosedRounds turns next (ok (leaves s)) k c = tt
  after_round-ClosedRounds turns next (ok (reconnects s)) k c = tt
  after_round-ClosedRounds turns next (ok (waits s)) k c =
      after_waited-ClosedRounds next s (wait_loop identity turns) k c

  run_rounds-ClosedRounds :
      (rounds : List FullRound) (s : SelectState)
      → ClosedRounds (run_rounds identity randomized_every_nth rounds s)
  unfolding run_rounds
  run_rounds-ClosedRounds [] s = tt
  run_rounds-ClosedRounds (t ∷ rounds) s =
      after_round-ClosedRounds t.turns (run_rounds identity randomized_every_nth rounds)
        (select_round randomized_every_nth t.round s) (run_rounds-ClosedRounds rounds)
        (select_round-ClosedIfWaiting randomized_every_nth t.round s)

  after_rounds-ClosedThread :
      (next : List Statement → Result Thread) (r : Result RoundsEnd)
      → ((sent : List Statement) → ClosedThread (next sent))
      → ClosedRounds r
      → ClosedThread (r >>= after_rounds next)
  after_rounds-ClosedThread next (err e) k c = tt
  after_rounds-ClosedThread next (ok (to_reconnect s)) k c = k _
  after_rounds-ClosedThread next (ok (by_signal s)) k c = c
  after_rounds-ClosedThread next (ok (returned true s)) k c = tt
  after_rounds-ClosedThread next (ok (returned false s)) k c = c

  run_session-ClosedThread :
      (next : List Statement → Result Thread) (session : Session) (sent : List Statement)
      (c : Result Connecting)
      → ((sent : List Statement) → ClosedThread (next sent))
      → ClosedThread (c >>= run_session identity randomized_every_nth next session sent)
  run_session-ClosedThread next session sent (err e) k = tt
  run_session-ClosedThread next session sent (ok c) k = with_conn c.conn session.started
    where
      with_conn :
          (conn : Option ConnStatus) (started : Bool)
          → ClosedThread (elim conn [
            | none ↦ err null_this
            | some status ↦
                let called = sent ++ runner_session_start ∷ [] in
                if started
                then run_rounds identity randomized_every_nth session.rounds (new_session called)
                  >>= after_rounds next
                else ok (record { cause = not_started; running = false; sent = called })
          ])
      with_conn none started = tt
      with_conn (some status) false = tt
      with_conn (some status) true =
          after_rounds-ClosedThread next (run_rounds identity randomized_every_nth session.rounds _)
            k (run_rounds-ClosedRounds session.rounds _)

  -- However the server, libpq and the kernel answer, over any number of rounds and connections: no
  -- transaction is open when a thread ends by a signal or because `poll` or the reading of the
  -- kill pipe failed.
  pub run-ClosedThread :
      (sessions : List Session) (connected : Bool) (sent : List Statement)
      → ClosedThread (run identity randomized_every_nth sessions connected sent)
  unfolding run
  run-ClosedThread [] connected sent = tt
  run-ClosedThread (session ∷ sessions) connected sent =
      run_session-ClosedThread (run identity randomized_every_nth sessions true) session sent
        (maintain_connection false session.attempts _) (run-ClosedThread sessions true)
