-- ===== src/Nix/Poll/Goes.antt =====
-- A round of the `poll()` loop in which no call fails (pg_cmdqd/nixqueuecmd.cpp): it goes on, and
-- what it reads is captured.
use mathlib.Core.List.{append-nil}
use pg_cmd_queue.Base.{
  ℕ, ◌≡◌, refl, ap, ◌∙◌, ◌≢◌, ◌⊎◌, inl, inr, true, false, Option, none, some, List, [], ◌++◌, Bytes,
  length, ◌==◌, if◌then◌else◌, Result, ok, arith, length-append, Bool-cases, ◌>>=◌,
}
use pg_cmd_queue.Logger.{notice}
use pg_cmd_queue.Nix.Command.{NixQueueCmd}
use pg_cmd_queue.Nix.Flush.Lines.{flush_stderr_position}
use pg_cmd_queue.Nix.Io.{Errno, eintr, WriteAnswer, ReadAnswer, read_all, write_stdin}
use pg_cmd_queue.Nix.Poll.{
  WaitStatus, Waited, running, wait_failed, reaped_with, Revents, Polled, poll_failed, timed_out,
  events, Round, PollState, Flow, continue, reap, on_stdin, on_stdout, flush_notice, after_write,
  after_stdout, after_stderr, on_stderr, and_then, on_events, after_poll,
}
use pg_cmd_queue.Nix.Poll.Captured.{
  out_bytes, err_bytes, status_in, PlainPolled, FedAll, Captured, SameChild, CanGoOn,
  Captured-CanGoOn, Captured-same, Captured-trans, write_stdin-FedAll,
}

-- The round goes on, and these bytes have been captured.
abbrev pub Goes : PollState → Bytes → Bytes → Result Flow → Type 0
Goes s out er m = (t : PollState) × (m ≡ ok (continue t)) × Captured s out er t × SameChild s t

module _ (strerror : Errno → Bytes) where
  and_then-Goes :
      {s : PollState} {o1 e1 o2 e2 : Bytes} (m : Result Flow) (f : PollState → Result Flow)
      → Goes s o1 e1 m
      → ((t : PollState) → CanGoOn t → Goes t o2 e2 (f t))
      → Goes s (o1 ++ o2) (e1 ++ e2) (and_then strerror m f)
  and_then-Goes m f (t, e, c, (r, p)) k =
      let (u, e', c', (r', p')) = k t (Captured-CanGoOn c) in
      (u, ap (λ m. and_then strerror m f) e ∙ e', Captured-trans c c', (r' ∙ r, p' ∙ p))

  after_write-Goes :
      (s t : PollState)
      → CanGoOn s
      → t.cmd ≡ s.cmd
      → t.kills ≡ s.kills
      → t.reaped ≡ s.reaped
      → t.res_pid ≡ s.res_pid
      → FedAll s.cmd.cmd_stdin t.cum_stdin_bytes_written
      → Goes s [] [] (after_write strerror none t)
  unfolding after_write
  after_write-Goes s t g c k r p f =
      elim (Bool-cases (t.cum_stdin_bytes_written == length t.cmd.cmd_stdin)) [
        | inl e ↦ (
          record t { stdin_open = false; stdin_fd = false; stdin_events = false },
          rw e refl,
          Captured-same s _ g c k f,
          (r, p),
        )
        | inr e ↦ (t, rw e refl, Captured-same s t g c k f, (r, p))
      ]

  on_stdin-Goes :
      (revents : Revents) (answers : List WriteAnswer) (s : PollState)
      → (revents.ready ≡ false) ⊎ ((write_stdin answers s.cmd.cmd_stdin 0).write_error ≡ none)
      → CanGoOn s
      → Goes s [] [] (on_stdin strerror revents answers s)
  unfolding on_stdin
  on_stdin-Goes revents answers s (inl h) g =
      (s, rw h refl, Captured-same s s g refl refl g.0, (refl, refl))
  on_stdin-Goes revents answers s (inr h) g = elim (Bool-cases revents.ready) [
    | inr e ↦ (s, rw e refl, Captured-same s s g refl refl g.0, (refl, refl))
    | inl e ↦
        let (no_error, all) =
          write_stdin-FedAll answers s.cmd.cmd_stdin s.cum_stdin_bytes_written g.0 h in
        let (t, c, k, same) =
          after_write-Goes s
            (record s {
              cum_stdin_bytes_written =
                  (write_stdin answers s.cmd.cmd_stdin
                    s.cum_stdin_bytes_written).cum_stdin_bytes_written;
            })
            g refl refl refl refl (inr all) in
        (t, rw e (rw no_error c), k, same)
  ]

  on_stdout-Goes :
      (revents : Revents) (answers : List ReadAnswer) (s : PollState)
      → (read_all answers).read_error ≡ none
      → CanGoOn s
      → Goes s
          (if revents.ready then (read_all answers).bytes_read else [])
          []
          (on_stdout strerror revents answers s)
  unfolding on_stdout after_stdout
  on_stdout-Goes revents answers s h g = elim (Bool-cases revents.ready) [
    | inr e ↦ rw e (s, refl, Captured-same s s g refl refl g.0, (refl, refl))
    | inl e ↦
        rw (e, h)
          (
            _,
            refl,
            record {
              position = s.cmd.flush_stderr_pos;
              cmd = simp append-nil;
              kills = refl;
              fed = g.0;
              within = simp append-nil (g.1);
            },
            (refl, refl),
          )
  ]

  on_stderr-Goes :
      (revents : Revents) (answers : List ReadAnswer) (s : PollState)
      → (read_all answers).read_error ≡ none
      → CanGoOn s
      → Goes s []
          (if revents.ready then (read_all answers).bytes_read else [])
          (on_stderr strerror revents answers s)
  unfolding on_stderr after_stderr flush_notice
  on_stderr-Goes revents answers s h g = elim (Bool-cases revents.ready) [
    | inr e ↦ rw e (s, refl, Captured-same s s g refl refl g.0, (refl, refl))
    | inl e ↦
        let er = (read_all answers).bytes_read in
        let cmd : NixQueueCmd = record s.cmd { cmd_stderr = s.cmd.cmd_stderr ++ er } in
        let (out, f) =
          flush_stderr_position notice false cmd s.logged
            (omega (arith, g.1, length-append s.cmd.cmd_stderr er)) in
        rw (e, h)
          (
            record s {
              cmd = record cmd { flush_stderr_pos = length cmd.cmd_stderr };
              logged = out;
            },
            ap (λ r. r >>= λ out. ok (continue (record s { cmd = out.0; logged = out.1 }))) f,
            record {
              position = length cmd.cmd_stderr;
              cmd = simp append-nil;
              kills = refl;
              fed = g.0;
              within = omega arith;
            },
            (refl, refl),
          )
  ]

  Goes-eq :
      {s : PollState} {o1 o2 e1 e2 : Bytes} {m : Result Flow}
      → o1 ≡ o2
      → e1 ≡ e2
      → Goes s o1 e1 m
      → Goes s o2 e2 m
  Goes-eq p q g = rw (← p) (rw (← q) g)

  pub after_poll-Goes :
      (timeout : ℕ) (round : Round) (polled : Polled) (s : PollState)
      → PlainPolled s.cmd.cmd_stdin round polled
      → CanGoOn s
      → Goes s
          (out_bytes round polled)
          (err_bytes round polled)
          (after_poll strerror timeout round polled s)
  unfolding after_poll on_events
  after_poll-Goes timeout round (events r0 r1 r2) s (w, (o, e)) g =
      Goes-eq (simp append-nil) (simp append-nil) (
        and_then-Goes _ _ (on_stdin-Goes r0 round.writes s w g) λ s1 g1.
          and_then-Goes _ _ (on_stdout-Goes r1 round.stdout_reads s1 o g1) λ s2 g2.
            and_then-Goes _ _ (on_stderr-Goes r2 round.stderr_reads s2 e g2)
              λ s3 g3. (_, refl, Captured-same s3 _ g3 refl refl g3.0, (refl, refl)))
  after_poll-Goes timeout round (poll_failed eintr) s h g =
      (s, refl, Captured-same s s g refl refl g.0, (refl, refl))
  after_poll-Goes timeout round timed_out s h g = absurd h
  after_poll-Goes timeout round (poll_failed e) s h g = absurd h

-- What is known of the child's end.
abbrev pub Known : Option WaitStatus → PollState → Type 0
Known none s = s.reaped ≡ false
Known (some w) s = (s.reaped ≡ true) × (s.res_pid ≡ reaped_with w)

abbrev pub first : Option WaitStatus → Option WaitStatus → Option WaitStatus
first none later = later
first (some w) later = some w

pub reap-Known :
    (known : Option WaitStatus) (waited : Waited) (s : PollState)
    → waited ≢ wait_failed
    → Known known s
    → (t : PollState) × (reap waited s ≡ continue t)
      × (t.cmd ≡ s.cmd)
      × (t.kills ≡ s.kills)
      × (t.cum_stdin_bytes_written ≡ s.cum_stdin_bytes_written)
      × Known (first known (status_in waited none)) t
unfolding reap
reap-Known (some w) waited s n (r, p) = (s, simp r refl, refl, refl, refl, (r, p))
reap-Known none running s n r = (record s { res_pid = running }, simp r refl, refl, refl, refl, r)
reap-Known none wait_failed s n r = absurd (n refl)
reap-Known none (reaped_with w) s n r = (
  record s { res_pid = reaped_with w; reaped = true },
  simp r refl,
  refl,
  refl,
  refl,
  (refl, refl),
)
