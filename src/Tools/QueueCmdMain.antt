-- ===== src/Tools/QueueCmdMain.antt =====
-- `main` of pg_cmdqd/pg_nix_queue_cmd.cpp: it runs one command as the daemon would, and ends as that
-- command did.
pub mod Ends
use pg_cmd_queue.Base.{
  ℕ, ℤ, pos, Bool, true, false, Option, none, some, List, [], ◌∷◌, Bytes, if◌then◌else◌, Result, ok,
  err, runtime_error, bad_optional_access, ◌>>=◌,
}
use pg_cmd_queue.Nix.Command.{NixQueueCmd, new_nix_queue_cmd, started, ended}
use pg_cmd_queue.Nix.Run.{Ran}
use pg_cmd_queue.Tools.QueueCmdArgs.{
  CmdArgs, no_args, Parsed, help, usage_error, parsed, parse_args,
}

-- The last call of the program. Where `raise` returns, `main` ends with 0.
pub data MainEnd : Type 0 where
  exits : ℕ → MainEnd
  raises : ℤ → MainEnd

-- `stdin` is what is read from the standard input, nothing if it is a terminal.
abbrev pub made_cmd : CmdArgs → Bytes → NixQueueCmd
made_cmd a stdin =
    new_nix_queue_cmd a.cmd_class a.cmd_class a.cmd_id a.cmd_subid a.cmd_argv [] stdin

abbrev pub raise_signal : Option ℤ → Result MainEnd
raise_signal none = err bad_optional_access
raise_signal (some sig) = ok (raises sig)

unfoldable pub end_as : NixQueueCmd → Result MainEnd
end_as cmd = elim cmd.cmd_exit_code [
  | some code ↦ ok (exits code)
  | none ↦ raise_signal cmd.cmd_term_sig
]

-- `update_stmt` is that of the command with the connection there is, `run` is `run_cmd` with the
-- answers of the kernel, and the two times are those of the clock.
module _ (update_stmt : NixQueueCmd → Result Bytes) (run : NixQueueCmd → Result Ran) (stdin : Bytes)
    (start_time end_time : ℕ) where
  -- What `main` itself writes to the standard output; what the logger writes there is not in it.
  abbrev pub printed : Bool → NixQueueCmd → Result Bytes
  printed output_update_statement cmd = if output_update_statement then update_stmt cmd else ok []

  -- What follows `run_cmd`: nothing catches the exceptions.
  abbrev pub after_run : CmdArgs → NixQueueCmd → Result (Bytes × MainEnd)
  after_run a cmd = printed a.output_update_statement cmd >>= λ out.
      if a.exec_update_statement then err runtime_error else end_as cmd >>= λ e. ok (out, e)

  -- The usage itself is not part of what is printed.
  unfoldable pub after_args : Parsed → Result (Bytes × MainEnd)
  after_args help = ok ([], exits 0)
  after_args usage_error = ok ([], exits 222)
  after_args (parsed a) =
      run (started start_time (made_cmd a stdin)) >>= λ ran. after_run a (ended end_time ran.cmd)

  unfoldable pub main : List Bytes → Result (Bytes × MainEnd)
  main args = after_args (parse_args args no_args)
