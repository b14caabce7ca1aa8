-- ===== src/Nix/Run/Outputs.antt =====
-- The output that `run_cmd` captures of a command that ends on its own.
use pg_cmd_queue.Base.{
  ℕ, ◌≤◌, ◌≡◌, refl, ap, sym, ◌∙◌, ◌≢◌, inl, inr, Option, none, some, List, [], ◌∷◌, ◌++◌, Bytes,
  length, ok, ◌>>=◌,
}
use mathlib.Core.Path.{subst, ap₂}
use mathlib.Core.List.{append_assoc, append-nil}
use pg_cmd_queue.Nix.Command.{NixQueueCmd}
use pg_cmd_queue.Nix.Io.{Errno}
use pg_cmd_queue.Nix.Poll.{
  WaitStatus, exited, Waited, running, wait_failed, reaped_with, timed_out, Round, PollState,
  continue, leave, on_timeout, and_then, after_poll, poll_round, poll_loop, poll_start,
}
use pg_cmd_queue.Nix.Poll.Captured.{
  stdout_of, stderr_of, status_of, status_in, out_bytes, err_bytes, PlainPolled, PlainRounds,
  Captured, Captured-CanGoOn, Captured-trans, Captured-same, SameChild,
}
use pg_cmd_queue.Nix.Poll.Goes.{Known, first, reap-Known, after_poll-Goes}
use pg_cmd_queue.Nix.Run.Chunks.{stdout_chunks, stderr_chunks, QuietRounds, rounds-chunks}
use pg_cmd_queue.Nix.Run.{forked, Ran, last_chance, finish_cmd, run_child, run_cmd}
use pg_cmd_queue.Nix.Run.Status.{log_failure_lem, packed, finish_cmd_taken, take_status_exited}

first-status_in :
    (known : Option WaitStatus) (waited : Waited) (later : Option WaitStatus)
    → first known (status_in waited later) ≡ first (first known (status_in waited none)) later
first-status_in (some w) waited later = refl
first-status_in none running later = refl
first-status_in none wait_failed later = refl
first-status_in none (reaped_with w) later = refl

Captured-eq :
    {s t : PollState} {o1 o2 e1 e2 : Bytes}
    → o1 ≡ o2
    → e1 ≡ e2
    → Captured s o1 e1 t
    → Captured s o2 e2 t
Captured-eq {s} {t} {o1} {o2} {e1} {e2} p q c =
    subst (λ o. Captured s o e2 t) p (subst (λ e. Captured s o1 e t) q c)

abbrev stdin_of : NixQueueCmd → Bytes
stdin_of cmd = cmd.cmd_stdin

-- Only the exit code and the flush position change behind the loop.
finish_cmd-exit_code :
    (message : Bytes) (final_wait : Waited) (t : PollState) (code : ℕ)
    → t.res_pid ≡ reaped_with (exited code)
    → (ran : Ran) × (position : ℕ) × (finish_cmd message final_wait t ≡ ok ran)
      × (ran.cmd ≡ record t.cmd { cmd_exit_code = some code; flush_stderr_pos = position })
      × (ran.kills ≡ t.kills)
finish_cmd-exit_code message final_wait t code h =
    let cmd : NixQueueCmd = record t.cmd { cmd_exit_code = some code } in
    let e =
      finish_cmd_taken message final_wait t cmd
        (take_status_exited message code _ t.cmd (ap (λ w. last_chance w final_wait) h)) in
    elim (log_failure_lem cmd t.logged) [
      | inl (logs, _) ↦ (_, cmd.flush_stderr_pos, e ∙ ap (λ r. r >>= packed t) logs, refl, refl)
      | inr (logs, _) ↦ (_, length cmd.cmd_stderr, e ∙ ap (λ r. r >>= packed t) logs, refl, refl)
    ]

module _ (strerror : Errno → Bytes) (timeout : ℕ) where
  -- Behind the `waitpid()`.
  after_reap-Captured :
      (round : Round) (s0 s u : PollState) (o e : Bytes) (known : Option WaitStatus)
      → Captured s0 o e s
      → PlainPolled s0.cmd.cmd_stdin round round.polled
      → u.cmd ≡ s.cmd
      → u.kills ≡ s.kills
      → u.cum_stdin_bytes_written ≡ s.cum_stdin_bytes_written
      → Known known u
      → (t : PollState) × (after_poll strerror timeout round round.polled u ≡ ok (continue t))
        × Captured s0 (o ++ out_bytes round round.polled) (e ++ err_bytes round round.polled) t
        × Known known t
  after_reap-Captured round s0 s u o e known c p same kills cum k =
      let stdin : u.cmd.cmd_stdin ≡ s0.cmd.cmd_stdin = ap stdin_of same ∙ ap stdin_of c.cmd in
      let c' : Captured s0 o e u = record {
        position = c.position;
        cmd = same ∙ c.cmd;
        kills = kills ∙ c.kills;
        fed = rw cum (c.fed);
        within = c.within;
      } in
      let (t, q, d, child) =
        after_poll-Goes strerror timeout round round.polled u
          (subst (λ i. PlainPolled i round round.polled) (sym stdin) p) (Captured-CanGoOn c') in
      (t, q, Captured-trans c' d, Known-SameChild known u t child k)
    where
      Known-SameChild :
          (known : Option WaitStatus) (u t : PollState)
          → SameChild u t
          → Known known u
          → Known known t
      Known-SameChild none u t (r, p) k = r ∙ k
      Known-SameChild (some w) u t (r, p) (k, l) = (r ∙ k, p ∙ l)

  -- A round that is not the last.
  poll_round-Captured :
      (round : Round) (s0 s : PollState) (o e : Bytes) (known : Option WaitStatus)
      → Captured s0 o e s
      → Known known s
      → round.waited ≢ wait_failed
      → PlainPolled s0.cmd.cmd_stdin round round.polled
      → (t : PollState) × (poll_round strerror timeout round s ≡ ok (continue t))
        × Captured s0 (o ++ out_bytes round round.polled) (e ++ err_bytes round round.polled) t
        × Known (first known (status_in round.waited none)) t
  unfolding poll_round
  poll_round-Captured round s0 s o e known c k w p =
      let (u, r, same, kills, cum, known') = reap-Known known round.waited s w k in
      let (t, q, d, k') = after_reap-Captured round s0 s u o e _ c p same kills cum known' in
      (
        t,
        ap (λ f. and_then strerror (ok f) (after_poll strerror timeout round round.polled)) r ∙ q,
        d,
        k',
      )

  -- The last round, with the child's end known.
  poll_round-last :
      (last : Round) (s0 s : PollState) (o e : Bytes) (known : Option WaitStatus)
      (status : WaitStatus)
      → Captured s0 o e s
      → Known known s
      → last.waited ≢ wait_failed
      → last.polled ≡ timed_out
      → first known (status_in last.waited none) ≡ some status
      → (t : PollState) × (poll_round strerror timeout last s ≡ ok (leave t))
        × Captured s0 o e t
        × (t.res_pid ≡ reaped_with status)
  unfolding poll_round after_poll on_timeout
  poll_round-last last s0 s o e known status c k w p h =
      let (u, r, same, kills, cum, known') = reap-Known known last.waited s w k in
      let (reaped, res_pid) = subst (λ o. Known o u) h known' in
      (
        u,
        ap (λ f. and_then strerror (ok f) (after_poll strerror timeout last last.polled)) r
            ∙ simp (p, reaped) refl,
        record {
          position = c.position;
          cmd = same ∙ c.cmd;
          kills = kills ∙ c.kills;
          fed = rw cum (c.fed);
          within = c.within;
        },
        res_pid,
      )

  poll_loop-Captured :
      (rounds : List Round) (last : Round) (later : List Round) (s0 s : PollState) (o e : Bytes)
      (known : Option WaitStatus) (status : WaitStatus)
      → Captured s0 o e s
      → Known known s
      → PlainRounds s0.cmd.cmd_stdin rounds
      → last.waited ≢ wait_failed
      → last.polled ≡ timed_out
      → first known (status_of (rounds ++ last ∷ [])) ≡ some status
      → (t : PollState) × (poll_loop strerror timeout (rounds ++ last ∷ later) s ≡ ok t)
        × Captured s0 (o ++ stdout_of rounds) (e ++ stderr_of rounds) t
        × (t.res_pid ≡ reaped_with status)
  unfolding poll_loop
  poll_loop-Captured [] last later s0 s o e known status c k p w l h =
      let (t, q, d, r) = poll_round-last last s0 s o e known status c k w l h in
      (t, rw q refl, Captured-eq (sym (append-nil o)) (sym (append-nil e)) d, r)
  poll_loop-Captured (round ∷ rounds) last later s0 s o e known status c k ((wr, pr), p) w l h =
      let (u, q, d, k') = poll_round-Captured round s0 s o e known c k wr pr in
      let (t, q', d', r) =
        poll_loop-Captured rounds last later s0 u _ _ _ status d k' p w l
          (sym (first-status_in known round.waited (status_of (rounds ++ last ∷ []))) ∙ h) in
      (
        t,
        ap
              (λ m. m >>= elim [
                | leave t ↦ ok t
                | continue t ↦ poll_loop strerror timeout (rounds ++ last ∷ later) t
              ])
              q
            ∙ q',
        Captured-eq (append_assoc o (out_bytes round round.polled) (stdout_of rounds))
            (append_assoc e (err_bytes round round.polled) (stderr_of rounds)) d',
        r,
      )

  run_cmd-read :
      (rounds : List Round) (last : Round) (later : List Round) (message : Bytes)
      (final_wait : Waited) (cmd : NixQueueCmd) (code : ℕ)
      → cmd.flush_stderr_pos ≤ length cmd.cmd_stderr
      → PlainRounds cmd.cmd_stdin rounds
      → last.waited ≢ wait_failed
      → last.polled ≡ timed_out
      → status_of (rounds ++ last ∷ []) ≡ some (exited code)
      → (ran : Ran) × (position : ℕ) × (run_cmd strerror timeout
            (forked none none)
            (rounds ++ last ∷ later)
            message
            final_wait
            cmd
          ≡ ok ran)
        × (ran.cmd ≡ record cmd {
          cmd_exit_code = some code;
          cmd_stdout = cmd.cmd_stdout ++ stdout_of rounds;
          cmd_stderr = cmd.cmd_stderr ++ stderr_of rounds;
          flush_stderr_pos = position;
        })
        × (ran.kills ≡ [])
  unfolding run_cmd run_child poll_start
  run_cmd-read rounds last later message final_wait cmd code pos p w l h =
      let s = poll_start cmd [] in
      let c = Captured-same s s (inl refl, pos) refl refl (inl refl) in
      let (t, q, d, r) =
        poll_loop-Captured rounds last later s s [] [] none (exited code) c refl p w l h in
      let (ran, position, f, same, kills) = finish_cmd-exit_code message final_wait t code r in
      (
        ran,
        position,
        ap (λ m. m >>= finish_cmd message final_wait) q ∙ f,
        same
            ∙ ap
                (λ (k : NixQueueCmd). record k {
                  cmd_exit_code = some code;
                  flush_stderr_pos = position;
                })
                d.cmd,
        kills ∙ d.kills,
      )

  -- A command that exits on its own, with no call failing on the way: `run_cmd` returns, with the
  -- exit code that `waitpid()` gave and no terminating signal, and with just the chunks
  -- that the calls of `read()` on the two pipes gave, one after the other, as its output; nothing else of the command has changed
  -- but the flush position, and it has been sent no signal. It is enough that in some round
  -- `poll()` times out when the end is known, and that it has been interrupted or has reported
  -- events in each round before, as it does where the command has no timeout.
  pub run_cmd-captured :
      (rounds : List Round) (last : Round) (later : List Round) (message : Bytes)
      (final_wait : Waited) (cmd : NixQueueCmd) (code : ℕ)
      → cmd.flush_stderr_pos ≤ length cmd.cmd_stderr
      → QuietRounds cmd.cmd_stdin rounds
      → last.waited ≢ wait_failed
      → last.polled ≡ timed_out
      → status_of (rounds ++ last ∷ []) ≡ some (exited code)
      → (ran : Ran) × (position : ℕ) × (run_cmd strerror timeout
            (forked none none)
            (rounds ++ last ∷ later)
            message
            final_wait
            cmd
          ≡ ok ran)
        × (ran.cmd ≡ record cmd {
          cmd_exit_code = some code;
          cmd_stdout = cmd.cmd_stdout ++ stdout_chunks rounds;
          cmd_stderr = cmd.cmd_stderr ++ stderr_chunks rounds;
          flush_stderr_pos = position;
        })
        × (ran.kills ≡ [])
  run_cmd-captured rounds last later message final_wait cmd code pos p w l h =
      let (plain, o, e) = rounds-chunks cmd.cmd_stdin rounds p in
      let (ran, position, q, same, kills) =
        run_cmd-read rounds last later message final_wait cmd code pos plain w l h in
      (
        ran,
        position,
        q,
        same
            ∙ ap₂
                (λ (out : Bytes) (er : Bytes). record cmd {
                  cmd_exit_code = some code;
                  cmd_stdout = cmd.cmd_stdout ++ out;
                  cmd_stderr = cmd.cmd_stderr ++ er;
                  flush_stderr_pos = position;
                })
                o e,
        kills,
      )
