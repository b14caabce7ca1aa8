-- ===== src/Tools/QueueCmdMain/Ends.antt =====
-- How the program pg_cmdqd/pg_nix_queue_cmd.cpp ends.
use pg_cmd_queue.Base.{
  ℕ, ℤ, Option, none, some, List, [], ◌∷◌, ◌++◌, Bytes, codes, Result, ok, ◌>>=◌, ◌≡◌, ◌≢◌, refl,
  ap, ◌∙◌, ◌⊎◌, inl, inr, arith,
}
use pg_cmd_queue.Nix.Command.{started, ended, NixQueueCmd, new_nix_queue_cmd}
use pg_cmd_queue.Nix.Io.{Errno}
use pg_cmd_queue.Nix.Poll.{Round, Waited}
use pg_cmd_queue.Nix.Poll.Ends.{Waits, IsLast}
use pg_cmd_queue.Nix.Run.{Forked, Ran, run_cmd}
use pg_cmd_queue.Nix.Run.Status.{HasPipes, HasStatus, run_cmd-HasStatus}
use pg_cmd_queue.Tools.QueueCmdArgs.{
  CmdArgs, no_args, IsField, AreFields, subid_args, fields_written, parse_args-written,
}
use pg_cmd_queue.Tools.QueueCmdMain.{
  MainEnd, exits, raises, made_cmd, raise_signal, end_as, after_run, after_args, main,
}

-- With the command's exit code, or by its signal if it has none.
abbrev pub EndsAs : MainEnd → Option ℕ → Option ℤ → Type 0
EndsAs (exits code) cmd_exit_code cmd_term_sig = cmd_exit_code ≡ some code
EndsAs (raises sig) cmd_exit_code cmd_term_sig = (cmd_exit_code ≡ none) × (cmd_term_sig ≡ some sig)

end_as-HasStatus :
    (cmd : NixQueueCmd)
    → HasStatus cmd
    → (e : MainEnd) × (end_as cmd ≡ ok e) × EndsAs e cmd.cmd_exit_code cmd.cmd_term_sig
unfolding end_as
end_as-HasStatus cmd h = go cmd.cmd_exit_code cmd.cmd_term_sig h
  where
    go :
        (code : Option ℕ) (sig : Option ℤ)
        → (code ≢ none) ⊎ (sig ≢ none)
        → (e : MainEnd) × (elim code [ some n ↦ ok (exits n) | none ↦ raise_signal sig ] ≡ ok e)
          × EndsAs e code sig
    go (some n) sig h = (exits n, refl, refl)
    go none (some n) h = (raises n, refl, (refl, refl))
    go none none (inl h) = absurd (h refl)
    go none none (inr h) = absurd (h refl)

-- The arguments that such a command line gives.
abbrev pub written_args : Bytes → Bytes → Option Bytes → List Bytes → CmdArgs
written_args cmd_class cmd_id cmd_subid cmd_argv = record no_args {
  cmd_class = cmd_class;
  cmd_id = cmd_id;
  cmd_subid = cmd_subid;
  cmd_meta_fields_identified = fields_written cmd_subid;
  cmd_argv = cmd_argv;
}

module _ (update_stmt : NixQueueCmd → Result Bytes) (stdin : Bytes) (start_time end_time : ℕ)
    (strerror : Errno → Bytes) (fork : Forked) (rounds : List Round) (last : Round)
    (later : List Round) (message : Bytes) (final_wait : Waited) where
  -- With a class, an identifier, an optional sub-identifier and a command, the program runs that
  -- command with what it read from its standard input, and then exits with the command's exit code,
  -- or raises the recorded signal if there is no exit code, and writes no text of an `UPDATE`:
  -- whatever the kernel answers, if the pipes can be made and their descriptors closed, a blocking `waitpid()` never answers 0 and in some round the child's end is known
  -- and `poll()` times out.
  pub main-EndsAs :
      (cmd_class cmd_id : Bytes) (cmd_subid : Option Bytes) (exe : Bytes) (args : List Bytes)
      → IsField cmd_class
      → IsField cmd_id
      → AreFields cmd_subid
      → HasPipes fork
      → Waits strerror (rounds ++ last ∷ later)
      → IsLast strerror last
      → (ran : Ran) × (e : MainEnd) × (run_cmd strerror 0 fork
            (rounds ++ last ∷ later)
            message
            final_wait
            (started start_time
              (made_cmd (written_args cmd_class cmd_id cmd_subid (exe ∷ args)) stdin))
          ≡ ok ran)
        × (main update_stmt
              (run_cmd strerror 0 fork (rounds ++ last ∷ later) message final_wait)
              stdin
              start_time
              end_time
              (cmd_class ∷ cmd_id ∷ (subid_args cmd_subid ++ codes "--" ∷ exe ∷ args))
            ≡ ok ([], e))
        × EndsAs e ran.cmd.cmd_exit_code ran.cmd.cmd_term_sig
  unfolding main after_args
  main-EndsAs cmd_class cmd_id cmd_subid exe args c i s pipes w l =
      let run = run_cmd strerror 0 fork (rounds ++ last ∷ later) message final_wait in
      let a = written_args cmd_class cmd_id cmd_subid (exe ∷ args) in
      let cmd = started start_time (made_cmd a stdin) in
      let (ran, r, h) =
        run_cmd-HasStatus strerror 0 rounds last later message final_wait cmd fork pipes w l
          (unfold new_nix_queue_cmd in omega arith) in
      let (e, q, end) = end_as-HasStatus (ended end_time ran.cmd) h in
      (
        ran,
        e,
        r,
        ap (after_args update_stmt run stdin start_time end_time)
              (parse_args-written cmd_class cmd_id cmd_subid exe args c i s)
            ∙ ap
                (λ r. r >>= λ ran.
                  after_run update_stmt run stdin start_time end_time a (ended end_time ran.cmd))
                r
            ∙ ap (λ r. r >>= λ e. ok ([], e)) q,
        end,
      )
