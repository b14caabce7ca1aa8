-- ===== src/Daemon/Listen/Killed.antt =====
-- How a signal ends the listening of the daemon's main thread
-- (pg_cmdqd/cmdqueuerunnermanager.cpp).
use pg_cmd_queue.Base.{
  ℕ, ◌+◌, true, false, none, some, List, [], ◌∷◌, ◌++◌, ok, ◌≡◌, refl, ap, ◌∙◌, arith,
}
use pg_cmd_queue.Daemon.Manager.{Manager}
use pg_cmd_queue.Daemon.Listen.{
  ReadAnswer, got, nothing, read_interrupted, read_failed, ListenTurn, poll_interrupted,
  poll_failed, threads, ready, read_signal, listen_loop,
}

-- Some reads that give bytes or are interrupted.
abbrev pub Pieces : List ReadAnswer → Type 0
Pieces [] = Unit
Pieces (got n ∷ answers) = Pieces answers
Pieces (read_interrupted ∷ answers) = Pieces answers
Pieces (nothing ∷ answers) = ⊥
Pieces (read_failed ∷ answers) = ⊥

abbrev pub bytes_of : List ReadAnswer → ℕ
bytes_of [] = 0
bytes_of (got n ∷ answers) = n + bytes_of answers
bytes_of (_ ∷ answers) = bytes_of answers

read_signal-Pieces :
    (pieces later : List ReadAnswer) (n : ℕ)
    → Pieces pieces
    → read_signal (pieces ++ nothing ∷ later) n ≡ ok (n + bytes_of pieces)
unfolding read_signal
read_signal-Pieces [] later n p = ap ok (omega arith)
read_signal-Pieces (got k ∷ pieces) later n p =
    read_signal-Pieces pieces later (n + k) p ∙ ap ok (omega arith)
read_signal-Pieces (read_interrupted ∷ pieces) later n p = read_signal-Pieces pieces later n p
read_signal-Pieces (nothing ∷ pieces) later n p = absurd p
read_signal-Pieces (read_failed ∷ pieces) later n p = absurd p

listen_loop_stopped :
    (turns : List ListenTurn) (m : Manager) → m.keep_running ≡ false → listen_loop turns m ≡ ok m
unfolding listen_loop
listen_loop_stopped [] m h = simp h refl
listen_loop_stopped (poll_interrupted ∷ turns) m h = simp h refl
listen_loop_stopped (threads running ∷ turns) m h = simp h refl
listen_loop_stopped (poll_failed ∷ turns) m h = refl
listen_loop_stopped (ready ns a ∷ turns) m h = simp h refl

-- Turns in which nothing is ready.
abbrev pub QuietTurns : List ListenTurn → Type 0
QuietTurns [] = Unit
QuietTurns (poll_interrupted ∷ turns) = QuietTurns turns
QuietTurns (poll_failed ∷ turns) = ⊥
QuietTurns (threads running ∷ turns) = ⊥
QuietTurns (ready none none ∷ turns) = QuietTurns turns
QuietTurns (ready none (some a) ∷ turns) = ⊥
QuietTurns (ready (some ns) a ∷ turns) = ⊥

-- When the kill pipe is ready, the listening ends, and nothing changes but that the manager shall
-- not go on: behind any turns in which nothing is ready, in however many pieces the number is read
-- and however often that is interrupted, and whatever follows.
pub listen_loop-kill :
    (before : List ListenTurn) (pieces : List ReadAnswer) (unread : List ReadAnswer)
    (later : List ListenTurn) (m : Manager)
    → QuietTurns before
    → Pieces pieces
    → m.keep_running ≡ true
    → listen_loop (before ++ ready none (some (pieces ++ nothing ∷ unread)) ∷ later) m
      ≡ ok (record m { keep_running = false })
unfolding listen_loop
listen_loop-kill [] pieces unread later m q p k =
    simp
      (
        k,
        read_signal-Pieces pieces unread 0 p,
        listen_loop_stopped later (record m { keep_running = false }) refl,
      )
      refl
listen_loop-kill (poll_interrupted ∷ before) pieces unread later m q p k =
    simp k (listen_loop-kill before pieces unread later m q p k)
listen_loop-kill (poll_failed ∷ before) pieces unread later m q p k = absurd q
listen_loop-kill (threads running ∷ before) pieces unread later m q p k = absurd q
listen_loop-kill (ready none none ∷ before) pieces unread later m q p k =
    simp k (listen_loop-kill before pieces unread later m q p k)
listen_loop-kill (ready none (some a) ∷ before) pieces unread later m q p k = absurd q
listen_loop-kill (ready (some ns) a ∷ before) pieces unread later m q p k = absurd q
