-- ===== src/Runner/Run/Killed.antt =====
-- How a signal in its pipe ends a runner thread that waits (pg_cmdqd/cmdqueuerunner.h).
use pg_cmd_queue.Base.{
  ℕ, true, false, Option, none, some, List, [], ◌∷◌, ◌++◌, Bytes, Result, ok, ◌≡◌, refl, ap, ◌∙◌,
}
use pg_cmd_queue.Daemon.Connection.{
  ConnStatus, Connecting, Attempt, connection_ok, Failed, maintain_connection-connects,
}
use pg_cmd_queue.Runner.Select.{Statement, runner_session_start, SelectState, waits, select_round}
use pg_cmd_queue.Runner.Wait.{
  Turn, idle, heard, ready, poll_interrupted, poll_failed, timed_out, ReadEnd, stopped, not_mine,
  read_notify, wait_loop, turn, after_wait, after_ready, after_kill,
}
use pg_cmd_queue.Runner.Run.{
  FullRound, Session, Thread, signalled, new_session, run_rounds, run_session, run,
}

-- Turns that change nothing: an interrupted `poll`, or a notification that is not for this queue.
abbrev pub PassedTurns : Bytes → List Turn → Type 0
PassedTurns identity [] = Unit
PassedTurns identity (idle poll_interrupted ∷ turns) = PassedTurns identity turns
PassedTurns identity (heard extra ∷ turns) =
    (read_notify identity extra ≡ ok not_mine) × PassedTurns identity turns
PassedTurns identity (idle _ ∷ turns) = ⊥

abbrev pub killed : ReadEnd → Turn
killed last = idle (
    ready
      (record { consumed = none; kill = some (record { sig_num_bytes_total = 4; last = last }) }))

wait_loop-killed :
    (identity : Bytes) (turns : List Turn) (last : ReadEnd) (later : List Turn)
    → PassedTurns identity turns
    → wait_loop identity (turns ++ killed last ∷ later) ≡ ok stopped
unfolding wait_loop turn after_wait after_ready after_kill
wait_loop-killed identity [] last later p = refl
wait_loop-killed identity (idle poll_interrupted ∷ turns) last later p =
    wait_loop-killed identity turns last later p
wait_loop-killed identity (idle poll_failed ∷ turns) last later p = absurd p
wait_loop-killed identity (idle timed_out ∷ turns) last later p = absurd p
wait_loop-killed identity (idle (ready r) ∷ turns) last later p = absurd p
wait_loop-killed identity (heard extra ∷ turns) last later (h, p) =
    simp (h, wait_loop-killed identity turns last later p) refl

run_session-killed :
    (identity : Bytes) (randomized_every_nth : Option ℕ) (next : List Statement → Result Thread)
    (session : Session) (c : Connecting) (status : ConnStatus) (r : FullRound)
    (rounds : List FullRound) (turns later : List Turn) (last : ReadEnd) {s : SelectState}
    → c.conn ≡ some status
    → session.started ≡ true
    → session.rounds ≡ r ∷ rounds
    → select_round randomized_every_nth r.round (new_session (runner_session_start ∷ []))
      ≡ ok (waits s)
    → r.turns ≡ turns ++ killed last ∷ later
    → PassedTurns identity turns
    → run_session identity randomized_every_nth next session [] c
      ≡ ok (record { cause = signalled; running = false; sent = s.sent })
unfolding run_rounds
run_session-killed identity nth next session c status r rounds turns later last dc st er h et p =
    ap (λ (o : Option ConnStatus). run_session identity nth next session [] (record c { conn = o }))
      dc
    ∙ simp (st, er, h, et, wait_loop-killed identity turns last later p) refl

-- A thread that has connected and called `runner_session_start()`, whose first round leads it to
-- wait, and that meets nothing for it before the four bytes of a signal's number are in its pipe,
-- ends by the signal: it is no longer marked as running, and what it has sent is what the start and
-- the round have.
pub run-killed :
    (identity : Bytes) (randomized_every_nth : Option ℕ) (session : Session)
    (sessions : List Session) (before attempts : List Attempt) (r : FullRound)
    (rounds : List FullRound) (turns later : List Turn) (last : ReadEnd) {s : SelectState}
    → session.attempts ≡ before ++ record { signalled = false; status = connection_ok } ∷ attempts
    → Failed before
    → session.started ≡ true
    → session.rounds ≡ r ∷ rounds
    → select_round randomized_every_nth r.round (new_session (runner_session_start ∷ []))
      ≡ ok (waits s)
    → r.turns ≡ turns ++ killed last ∷ later
    → PassedTurns identity turns
    → run identity randomized_every_nth (session ∷ sessions) false []
      ≡ ok (record { cause = signalled; running = false; sent = s.sent })
unfolding run run_rounds
run-killed identity nth session sessions before attempts r rounds turns later last ea f st er h et
      p =
    let (d, ed, dc) = maintain_connection-connects before attempts f in
    simp (ea, ed)
      (run_session-killed identity nth _ session d connection_ok r rounds turns later last dc st er
        h et p)
