-- ===== src/Nix/Poll/Ends.antt =====
-- The loop ends, with no exception, and then the cause of the child's end is known.
use pg_cmd_queue.Base.{
  ℕ, ◌≤◌, ◌≡◌, refl, ◌≢◌, ◌⊎◌, inl, inr, true, false, Option, none, some, List, [], ◌∷◌, ◌++◌,
  Bytes, length, Result, ok, err, arith, length-append, Bool-cases, ◌>>=◌,
}
use pg_cmd_queue.Logger.{notice}
use pg_cmd_queue.Nix.Flush.Lines.{flush_stderr_position}
use pg_cmd_queue.Nix.Io.{Errno, eintr, WriteAnswer, ReadAnswer, read_all}
use pg_cmd_queue.Nix.Poll.{
  Waited, running, wait_failed, reaped_with, Revents, Polled, poll_failed, timed_out, events, Round,
  PollState, Flow, continue, leave, reap, reap_new, on_timeout, on_stdin, on_stdout, flush_notice,
  after_stderr, on_stderr, and_then, on_events, after_poll, poll_round, poll_loop,
}

-- The invariant of the loop: the flush position lies in `cmd_stderr`, and a reaped child has left
-- an answer of `waitpid`.
pub record IsValid (s : PollState) : Type 0 where
  pub position : s.cmd.flush_stderr_pos ≤ length s.cmd.cmd_stderr
  pub answered : (s.reaped ≡ false) ⊎ (s.res_pid ≢ running)

-- The loop may be left in such a state.
abbrev pub IsDecided : PollState → Type 0
IsDecided s = (s.cmd.cmd_term_sig ≢ none) ⊎ (s.res_pid ≢ running)

-- No exception, and the invariant or the right to leave.
abbrev pub Outcome : Result Flow → Type 0
Outcome (ok (continue s)) = IsValid s
Outcome (ok (leave s)) = IsDecided s
Outcome (err e) = ⊥

reap-Outcome : (waited : Waited) (s : PollState) → IsValid s → Outcome (ok (reap waited s))
unfolding reap
reap-Outcome running s v = ground arith
reap-Outcome wait_failed s v = ground arith
reap-Outcome (reaped_with w) s v = ground arith

on_timeout-Outcome :
    (timeout now : ℕ) (last_wait : Waited) (s : PollState)
    → IsValid s
    → last_wait ≢ running
    → Outcome (ok (on_timeout timeout now last_wait s))
unfolding on_timeout
on_timeout-Outcome timeout now last_wait s v h = ground arith

-- The loop has ended, with no exception.
abbrev pub Ends : Result PollState → Type 0
Ends r = (t : PollState) × (r ≡ ok t) × IsDecided t

reap_last :
    (waited : Waited) (s : PollState)
    → waited ≢ running
    → ((t : PollState) × (reap waited s ≡ leave t))
      ⊎ ((t : PollState) × (reap waited s ≡ continue t) × (t.reaped ≡ true))
unfolding reap reap_new
reap_last waited s h = elim (Bool-cases s.reaped) [
  | inl e ↦ inr (s, simp e, e)
  | inr e ↦ simp e (answer waited h)
]
  where
    answer :
        (w : Waited)
        → w ≢ running
        → ((t : PollState) × (reap_new w s ≡ leave t))
          ⊎ ((t : PollState) × (reap_new w s ≡ continue t) × (t.reaped ≡ true))
    answer running n = absurd (n refl)
    answer wait_failed n = inl (record s { res_pid = wait_failed }, refl)
    answer (reaped_with x) n = inr (record s { res_pid = reaped_with x; reaped = true }, refl, refl)

module _ (strerror : Errno → Bytes) where
  and_then-Outcome :
      (m : Result Flow) (f : PollState → Result Flow)
      → Outcome m
      → ((s : PollState) → IsValid s → Outcome (f s))
      → Outcome (and_then strerror m f)
  and_then-Outcome (err e) f h k = h
  and_then-Outcome (ok (leave s)) f h k = h
  and_then-Outcome (ok (continue s)) f h k = k s h

  on_stdin-Outcome :
      (revents : Revents) (answers : List WriteAnswer) (s : PollState)
      → IsValid s
      → Outcome (on_stdin strerror revents answers s)
  unfolding on_stdin
  on_stdin-Outcome revents answers s v = ground arith

  on_stdout-Outcome :
      (revents : Revents) (answers : List ReadAnswer) (s : PollState)
      → IsValid s
      → Outcome (on_stdout strerror revents answers s)
  unfolding on_stdout
  on_stdout-Outcome revents answers s v = ground arith

  flush_notice-Outcome : (s : PollState) → IsValid s → Outcome (flush_notice strerror s)
  unfolding flush_notice
  flush_notice-Outcome s v =
      let (out, e) = flush_stderr_position notice false s.cmd s.logged v.position in
      rw (e, flush_notice) (record { position = omega arith; answered = v.answered })

  after_stderr-Outcome :
      (e : Option Errno) (s : PollState) → IsValid s → Outcome (after_stderr strerror e s)
  unfolding after_stderr
  after_stderr-Outcome none s v = flush_notice-Outcome s v
  after_stderr-Outcome (some e) s v = ground arith

  on_stderr-Outcome :
      (revents : Revents) (answers : List ReadAnswer) (s : PollState)
      → IsValid s
      → Outcome (on_stderr strerror revents answers s)
  unfolding on_stderr
  on_stderr-Outcome revents answers s v = elim (Bool-cases revents.ready) [
    | inl e ↦ rw e (
        after_stderr-Outcome (read_all answers).read_error _ (record {
          position =
              omega
                (arith, v.position, length-append s.cmd.cmd_stderr (read_all answers).bytes_read);
          answered = v.answered;
        }))
    | inr e ↦ rw e v
  ]

  on_events-Outcome :
      (round : Round) (r0 r1 r2 : Revents) (s : PollState)
      → IsValid s
      → Outcome (on_events strerror round r0 r1 r2 s)
  unfolding on_events
  on_events-Outcome round r0 r1 r2 s v =
      and_then-Outcome _ _ (on_stdin-Outcome r0 round.writes s v) λ s1 v1.
        and_then-Outcome _ _ (on_stdout-Outcome r1 round.stdout_reads s1 v1) λ s2 v2.
          and_then-Outcome _ _ (on_stderr-Outcome r2 round.stderr_reads s2 v2)
            λ s3 v3. record { position = v3.position; answered = v3.answered }

  after_poll-Outcome :
      (timeout : ℕ) (round : Round) (polled : Polled) (s : PollState)
      → round.last_wait ≢ running
      → IsValid s
      → Outcome (after_poll strerror timeout round polled s)
  unfolding after_poll
  after_poll-Outcome timeout round (poll_failed eintr) s h v = v
  after_poll-Outcome timeout round timed_out s h v =
      on_timeout-Outcome timeout round.poll_time round.last_wait s v h
  after_poll-Outcome timeout round (events r0 r1 r2) s h v = on_events-Outcome round r0 r1 r2 s v
  after_poll-Outcome timeout round (poll_failed e) s h v = ground arith

  -- A round throws nothing, keeps the invariant, and leaves the loop only when the end of the
  -- child, or an error, is known.
  poll_round-Outcome :
      (timeout : ℕ) (round : Round) (s : PollState)
      → round.last_wait ≢ running
      → IsValid s
      → Outcome (poll_round strerror timeout round s)
  unfolding poll_round
  poll_round-Outcome timeout round s h v =
      and_then-Outcome (ok (reap round.waited s)) _ (reap-Outcome round.waited s v)
        (λ t vt. after_poll-Outcome timeout round round.polled t h vt)

  -- The round in which the child is known to have ended and nothing is left to read.
  abbrev pub IsLast : Round → Type 0
  IsLast round = (round.waited ≢ running) × (round.polled ≡ timed_out)

  poll_round_last :
      (timeout : ℕ) (round : Round) (s : PollState)
      → IsLast round
      → (t : PollState) × (poll_round strerror timeout round s ≡ ok (leave t))
  unfolding poll_round after_poll on_timeout
  poll_round_last timeout round s (w, p) = elim (reap_last round.waited s w) [
    | inl (t, e) ↦ (t, rw e)
    | inr (t, e, r) ↦ (t, rw (e, p, r))
  ]

  -- Blocking `waitpid` does not answer 0.
  abbrev pub Waits : List Round → Type 0
  Waits [] = Unit
  Waits (round ∷ rounds) = (round.last_wait ≢ running) × Waits rounds

  -- The loop goes on with what a round leaves.
  next_round-Ends :
      (m : Result Flow) (f : PollState → Result PollState)
      → Outcome m
      → ((s : PollState) → IsValid s → Ends (f s))
      → Ends (m >>= elim [ leave t ↦ ok t | continue t ↦ f t ])
  next_round-Ends (ok (continue s)) f h k = k s h
  next_round-Ends (ok (leave s)) f h k = (s, refl, h)
  next_round-Ends (err e) f h k = absurd h

  -- From a state in which the flush position lies in `cmd_stderr` and a reaped child has left an
  -- answer, the loop ends, with no exception, and then a terminating signal is recorded or
  -- `waitpid()` has answered: if in some round the child's end is known and `poll()` times out,
  -- and a blocking `waitpid()` never answers 0, whatever the kernel answers in the rounds before.
  pub poll_loop-Ends :
      (timeout : ℕ) (rounds : List Round) (last : Round) (later : List Round) (s : PollState)
      → Waits (rounds ++ last ∷ later)
      → IsLast last
      → IsValid s
      → Ends (poll_loop strerror timeout (rounds ++ last ∷ later) s)
  unfolding poll_loop
  poll_loop-Ends timeout [] last later s (h, hs) l v =
      let (t, e) = poll_round_last timeout last s l in
      let decided = poll_round-Outcome timeout last s h v in
      rw (e, poll_loop) (t, refl, rw e at decided)
  poll_loop-Ends timeout (round ∷ rounds) last later s (h, hs) l v =
      next_round-Ends (poll_round strerror timeout round s) _
        (poll_round-Outcome timeout round s h v)
        (λ t vt. poll_loop-Ends timeout rounds last later t hs l vt)
