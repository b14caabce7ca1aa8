-- ===== src/Nix/Poll/Signals.antt =====
-- When the loop sends `SIGTERM` and `SIGKILL` to the child.
use pg_cmd_queue.Base.{
  ℕ, ◌+◌, ◌≤◌, ◌<◌, ◌≡◌, refl, ◌≢◌, ◌⊎◌, inl, true, false, List, [], ◌∷◌, ◌++◌, Bytes, Result, ok,
  err, ◌>>=◌, arith,
}
use pg_cmd_queue.Logger.{LogLevel}
use pg_cmd_queue.Nix.Command.{NixQueueCmd}
use pg_cmd_queue.Nix.Io.{Errno, eintr, WriteAnswer, ReadAnswer}
use pg_cmd_queue.Nix.Poll.{
  grace, Waited, running, wait_failed, reaped_with, Revents, Polled, poll_failed, timed_out, events,
  Round, Signal, sigterm, sigkill, PollState, Flow, continue, leave, reap, reap_new, on_timeout,
  on_stdin, on_stdout, flush_notice, after_stderr, on_stderr, and_then, on_events, after_poll,
  poll_round, poll_loop, poll_start,
}

-- What a round does to the signals.
abbrev pub NoSignal : PollState → PollState → Type 0
NoSignal s t =
    (t.kills ≡ s.kills) × (t.tried_sigterm ≡ s.tried_sigterm) × (t.sigterm_time ≡ s.sigterm_time)

-- `SIGTERM`: the first one, and `poll()` has timed out no earlier than the command's timeout.
abbrev pub SentSigterm : ℕ → Round → PollState → PollState → Type 0
SentSigterm timeout round s t =
    (t.kills ≡ s.kills ++ sigterm ∷ [])
    × (s.tried_sigterm ≡ false)
    × (t.tried_sigterm ≡ true)
    × (t.sigterm_time ≡ round.poll_time)
    × (round.polled ≡ timed_out)
    × (timeout + s.cmd.meta.cmd_runtime_start ≤ round.poll_time)

-- `SIGKILL`: after a `SIGTERM`, more than a second later.
abbrev pub SentSigkill : ℕ → Round → PollState → PollState → Type 0
SentSigkill timeout round s t =
    (t.kills ≡ s.kills ++ sigkill ∷ [])
    × (s.tried_sigterm ≡ true)
    × (round.polled ≡ timed_out)
    × (s.sigterm_time + grace < round.poll_time)

abbrev pub SignalRule : ℕ → Round → PollState → Result Flow → Type 0
SignalRule timeout round s (err e) = Unit
SignalRule timeout round s (ok (continue t)) = NoSignal s t ⊎ SentSigterm timeout round s t
SignalRule timeout round s (ok (leave t)) = NoSignal s t ⊎ SentSigkill timeout round s t

abbrev Quiet : PollState → Result Flow → Type 0
Quiet s (err e) = Unit
Quiet s (ok (continue t)) = NoSignal s t
Quiet s (ok (leave t)) = NoSignal s t

-- `waitpid` changes neither the signals nor the command.
abbrev ReapRule : PollState → Flow → Type 0
ReapRule s (continue t) = NoSignal s t × (t.cmd ≡ s.cmd)
ReapRule s (leave t) = NoSignal s t × (t.cmd ≡ s.cmd)

reap-ReapRule : (waited : Waited) (s : PollState) → ReapRule s (reap waited s)
unfolding reap reap_new
reap-ReapRule running s = ground arith
reap-ReapRule wait_failed s = ground arith
reap-ReapRule (reaped_with w) s = ground arith

module _ (strerror : Errno → Bytes) where
  and_then-Quiet :
      (s : PollState) (m : Result Flow) (f : PollState → Result Flow)
      → Quiet s m
      → ((t : PollState) → NoSignal s t → Quiet s (f t))
      → Quiet s (and_then strerror m f)
  and_then-Quiet s (err e) f h k = h
  and_then-Quiet s (ok (leave t)) f h k = h
  and_then-Quiet s (ok (continue t)) f h k = k t h

  on_stdin-Quiet :
      (s t : PollState) (revents : Revents) (answers : List WriteAnswer)
      → NoSignal s t
      → Quiet s (on_stdin strerror revents answers t)
  unfolding on_stdin
  on_stdin-Quiet s t revents answers h = ground arith

  on_stdout-Quiet :
      (s t : PollState) (revents : Revents) (answers : List ReadAnswer)
      → NoSignal s t
      → Quiet s (on_stdout strerror revents answers t)
  unfolding on_stdout
  on_stdout-Quiet s t revents answers h = ground arith

  on_stderr-Quiet :
      (s t : PollState) (revents : Revents) (answers : List ReadAnswer)
      → NoSignal s t
      → Quiet s (on_stderr strerror revents answers t)
  unfolding on_stderr after_stderr flush_notice
  on_stderr-Quiet s t revents answers h = ground arith

  on_events-Quiet :
      (round : Round) (r0 r1 r2 : Revents) (s t : PollState)
      → NoSignal s t
      → Quiet s (on_events strerror round r0 r1 r2 t)
  unfolding on_events
  on_events-Quiet round r0 r1 r2 s t h =
      and_then-Quiet s _ _ (on_stdin-Quiet s t r0 round.writes h) λ t1 h1.
        and_then-Quiet s _ _ (on_stdout-Quiet s t1 r1 round.stdout_reads h1)
          λ t2 h2. and_then-Quiet s _ _ (on_stderr-Quiet s t2 r2 round.stderr_reads h2) λ t3 h3. h3

  Quiet-SignalRule :
      (timeout : ℕ) (round : Round) (s : PollState) (m : Result Flow)
      → Quiet s m
      → SignalRule timeout round s m
  Quiet-SignalRule timeout round s (err e) h = h
  Quiet-SignalRule timeout round s (ok (continue t)) h = inl h
  Quiet-SignalRule timeout round s (ok (leave t)) h = inl h

  -- The state behind `waitpid`: the same signals and the same start time.
  on_timeout-SignalRule :
      (timeout : ℕ) (round : Round) (s t : PollState)
      → NoSignal s t
      → t.cmd ≡ s.cmd
      → round.polled ≡ timed_out
      → SignalRule timeout round s (ok (on_timeout timeout round.poll_time round.last_wait t))
  unfolding on_timeout
  on_timeout-SignalRule timeout round s t h c p = ground arith

  after_poll-SignalRule :
      (timeout : ℕ) (round : Round) (polled : Polled) (s t : PollState)
      → NoSignal s t
      → t.cmd ≡ s.cmd
      → round.polled ≡ polled
      → SignalRule timeout round s (after_poll strerror timeout round polled t)
  unfolding after_poll
  after_poll-SignalRule timeout round (poll_failed eintr) s t h c p = inl h
  after_poll-SignalRule timeout round timed_out s t h c p =
      on_timeout-SignalRule timeout round s t h c p
  after_poll-SignalRule timeout round (events r0 r1 r2) s t h c p =
      Quiet-SignalRule timeout round s _ (on_events-Quiet round r0 r1 r2 s t h)
  after_poll-SignalRule timeout round (poll_failed e) s t h c p = inl h

  after_reap-SignalRule :
      (timeout : ℕ) (round : Round) (s : PollState) (m : Flow)
      → ReapRule s m
      → SignalRule timeout round s
          (and_then strerror (ok m) (after_poll strerror timeout round round.polled))
  after_reap-SignalRule timeout round s (continue t) (h, c) =
      after_poll-SignalRule timeout round round.polled s t h c refl
  after_reap-SignalRule timeout round s (leave t) (h, c) = inl h

  -- In every round, whatever the kernel answers: `SIGTERM` is sent only after `poll()` has timed
  -- out, once, and no earlier than the command's timeout after its start; `SIGKILL` is sent only
  -- after `poll()` has timed out more than a second after the `SIGTERM`, and then the loop is
  -- left. Else no signal is sent.
  pub poll_round-SignalRule :
      (timeout : ℕ) (round : Round) (s : PollState)
      → SignalRule timeout round s (poll_round strerror timeout round s)
  unfolding poll_round
  poll_round-SignalRule timeout round s =
      after_reap-SignalRule timeout round s (reap round.waited s) (reap-ReapRule round.waited s)

  -- The signals sent so far, between two rounds and behind the loop.
  abbrev Between : PollState → Type 0
  Between s =
      ((s.kills ≡ []) × (s.tried_sigterm ≡ false))
      ⊎ ((s.kills ≡ sigterm ∷ []) × (s.tried_sigterm ≡ true))

  abbrev pub Behind : List Signal → Type 0
  Behind kills = (kills ≡ []) ⊎ ((kills ≡ sigterm ∷ []) ⊎ (kills ≡ sigterm ∷ sigkill ∷ []))

  next_round-Behind :
      (timeout : ℕ) (round : Round) (s : PollState) (m : Result Flow)
      (f : PollState → Result PollState) {t : PollState}
      → Between s
      → SignalRule timeout round s m
      → ((u : PollState) → Between u → f u ≡ ok t → Behind t.kills)
      → (m >>= elim [ leave u ↦ ok u | continue u ↦ f u ]) ≡ ok t
      → Behind t.kills
  next_round-Behind timeout round s (err e) f b r k h = cc
  next_round-Behind timeout round s (ok (leave u)) f b r k h = ground arith
  next_round-Behind timeout round s (ok (continue u)) f b r k h = k u (ground arith) h

  poll_loop-Behind :
      (timeout : ℕ) (rounds : List Round) (s : PollState) {t : PollState}
      → Between s
      → poll_loop strerror timeout rounds s ≡ ok t
      → Behind t.kills
  unfolding poll_loop
  poll_loop-Behind timeout [] s b h = cc
  poll_loop-Behind timeout (round ∷ rounds) s b h =
      next_round-Behind timeout round s (poll_round strerror timeout round s) _ b
        (poll_round-SignalRule timeout round s) (λ u bu. poll_loop-Behind timeout rounds u bu) h

  -- The rounds in which `poll()` does not time out.
  abbrev pub Busy : List Round → Type 0
  Busy [] = Unit
  Busy (round ∷ rounds) = (round.polled ≢ timed_out) × Busy rounds

  next_round-Busy :
      (timeout : ℕ) (round : Round) (s : PollState) (m : Result Flow)
      (f : PollState → Result PollState) {t : PollState}
      → round.polled ≢ timed_out
      → SignalRule timeout round s m
      → ((u : PollState) → f u ≡ ok t → t.kills ≡ u.kills)
      → (m >>= elim [ leave u ↦ ok u | continue u ↦ f u ]) ≡ ok t
      → t.kills ≡ s.kills
  next_round-Busy timeout round s (err e) f b r k h = cc
  next_round-Busy timeout round s (ok (leave u)) f b r k h = ground arith
  next_round-Busy timeout round s (ok (continue u)) f b r k h = ground (arith, k u h)

  -- The timeout is looked at only when `poll()` has timed out: while every `poll()` finds events,
  -- or is interrupted, the child gets no signal, however long it runs.
  pub poll_loop-Busy :
      (timeout : ℕ) (rounds : List Round) (s : PollState) {t : PollState}
      → Busy rounds
      → poll_loop strerror timeout rounds s ≡ ok t
      → t.kills ≡ s.kills
  unfolding poll_loop
  poll_loop-Busy timeout [] s b h = cc
  poll_loop-Busy timeout (round ∷ rounds) s (b, bs) h =
      next_round-Busy timeout round s (poll_round strerror timeout round s) _ b
        (poll_round-SignalRule timeout round s) (λ u. poll_loop-Busy timeout rounds u bs) h

  -- Whatever the kernel answers, the signals sent when the loop has ended are none, `SIGTERM`, or
  -- `SIGTERM` and then `SIGKILL`.
  pub poll_loop_kills :
      (timeout : ℕ) (rounds : List Round) (cmd : NixQueueCmd) (logged : List (LogLevel × Bytes))
      {t : PollState}
      → poll_loop strerror timeout rounds (poll_start cmd logged) ≡ ok t
      → Behind t.kills
  unfolding poll_start
  poll_loop_kills timeout rounds cmd logged h =
      poll_loop-Behind timeout rounds _ (inl (refl, refl)) h
