-- ===== src/Runner/Run.antt =====
-- `CmdQueueRunner::_run` (pg_cmdqd/cmdqueuerunner.h): the (re)connect loop around the (re)select
-- loop around the loop that waits. What the server, libpq and the kernel answer is a list of
-- sessions, one for each time that the runner connects, each with its rounds.
pub mod Stopped
pub mod Followed
pub mod Killed
use pg_cmd_queue.Base.{
  ℕ, Bool, true, false, Option, none, some, List, [], ◌∷◌, ◌++◌, Bytes, if◌then◌else◌, Result, ok,
  err, out_of_fuel, null_this, ◌>>=◌,
}
use pg_cmd_queue.Daemon.Connection.{ConnStatus, Attempt, Connecting, maintain_connection}
use pg_cmd_queue.Runner.Select.{
  Statement, runner_session_start, Round, SelectState, Flow, waits, reconnects, leaves, send,
  select_round,
}
use pg_cmd_queue.Runner.Wait.{
  Turn, Waited, notified, reselect, reconnect, leave_thread, stopped, wait_loop,
}

-- A round of the (re)select loop, and the turns of the loop that waits behind it.
pub record FullRound : Type 0 where
  pub round : Round
  pub turns : List Turn

-- `known_status` is `PQstatus` of the connection there is; `started` is whether
-- `runner_session_start()` succeeded.
pub record Session : Type 0 where
  pub known_status : ConnStatus
  pub attempts : List Attempt
  pub started : Bool
  pub rounds : List FullRound

-- How the (re)select loop was left: to connect again, by a signal, or by a `return`; then whether
-- `_running` was set to `false`.
pub data RoundsEnd : Type 0 where
  to_reconnect by_signal : SelectState → RoundsEnd
  returned : Bool → SelectState → RoundsEnd

-- Why the thread has ended: a signal, `runner_session_start()` failed, or it returned early.
pub data Cause : Type 0 where
  signalled not_started gave_up : Cause

-- The thread behind `_run`: `running` is `_running`.
pub record Thread : Type 0 where
  pub cause : Cause
  pub running : Bool
  pub sent : List Statement

-- Each turn of the loop that waits forgets the last notification.
abbrev pub heard_of : Bytes → Option Bytes → SelectState → SelectState
heard_of cmd_id cmd_subid s = record s { notify_cmd = some (cmd_id, cmd_subid) }

abbrev pub forgotten : SelectState → SelectState
forgotten s = record s { notify_cmd = none }

-- Behind the loop that waits; `next` is the (re)select loop from the next round on.
abbrev pub after_waited : (SelectState → Result RoundsEnd) → SelectState → Waited → Result RoundsEnd
after_waited next s (notified cmd_id cmd_subid) = next (heard_of cmd_id cmd_subid s)
after_waited next s reselect = next (forgotten s)
after_waited next s reconnect = ok (to_reconnect (forgotten s))
after_waited next s leave_thread = ok (returned false (forgotten s))
after_waited next s stopped = ok (by_signal (forgotten s))

-- The local variables at the start of a session.
abbrev pub new_session : List Statement → SelectState
new_session sent = record { notify_cmd = none; reselect_round = 0; postponed = false; sent = sent }

-- `connected` is whether there is a connection from a session before.
abbrev pub known_conn : Bool → ConnStatus → Option ConnStatus
known_conn connected status = if connected then some status else none

-- Behind the (re)select loop; `next` is the (re)connect loop from the next session on.
abbrev pub after_rounds : (List Statement → Result Thread) → RoundsEnd → Result Thread
after_rounds next (to_reconnect s) = next s.sent
after_rounds next (by_signal s) = ok (record { cause = signalled; running = false; sent = s.sent })
after_rounds next (returned still s) =
    ok (record { cause = gave_up; running = still; sent = s.sent })

abbrev pub after_round :
    Bytes → List Turn → (SelectState → Result RoundsEnd) → Flow → Result RoundsEnd
after_round identity turns next (leaves s) = ok (returned true s)
after_round identity turns next (reconnects s) = ok (to_reconnect s)
after_round identity turns next (waits s) = wait_loop identity turns >>= after_waited next s

module _ (identity : Bytes) (randomized_every_nth : Option ℕ) where
  unfoldable pub run_rounds : List FullRound → SelectState → Result RoundsEnd
  run_rounds [] s = err out_of_fuel
  run_rounds (t ∷ rounds) s =
      select_round randomized_every_nth t.round s
      >>= after_round identity t.turns (run_rounds rounds)

  -- With no connection, its first use is a member function of a null pointer.
  abbrev pub run_session :
      (List Statement → Result Thread) → Session → List Statement → Connecting → Result Thread
  run_session next session sent c = elim c.conn [
    | none ↦ err null_this
    | some status ↦
        let called = sent ++ runner_session_start ∷ [] in
        if session.started
        then run_rounds session.rounds (new_session called) >>= after_rounds next
        else ok (record { cause = not_started; running = false; sent = called })
  ]

  unfoldable pub run : List Session → Bool → List Statement → Result Thread
  run [] connected sent = err out_of_fuel
  run (session ∷ sessions) connected sent =
      maintain_connection false session.attempts (known_conn connected session.known_status)
      >>= run_session (run sessions true) session sent
