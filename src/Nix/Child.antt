-- ===== src/Nix/Child.antt =====
-- `NixQueueCmd::run_cmd` (pg_cmdqd/nixqueuecmd.cpp) in the forked child, up to `execvp()`. The
-- calls that matter to the command are recorded; what the kernel answers is given.
pub mod Execs
pub mod Row
use pg_cmd_queue.Base.{
  ℕ, zero, suc, ◌+◌, ◌-◌, ℤ, pos, Bool, true, false, Option, none, some, List, [], ◌∷◌, ◌++◌, Bytes,
  codes, if◌then◌else◌, Result, ok, err, out_of_range, null_this, out_of_fuel, ◌>>=◌,
}
use pg_cmd_queue.Sys.Environ.{Env, assign_var}
use pg_cmd_queue.Sys.PipeFds.{PipeFds, CloseAnswer, close_read_fd, close_write_fd}
use pg_cmd_queue.Nix.Command.{NixQueueCmd}

-- `dup2` succeeds, is interrupted, or fails.
pub data DupAnswer : Type 0 where
  dupped dup_interrupted dup_failed : DupAnswer

-- The descriptors that are duplicated, the others that are closed, and whether signals are masked.
pub record Child : Type 0 where
  pub dups : List (ℕ × ℕ)
  pub closes : List ℕ
  pub masked : Bool

-- `while ((dup2(from, to) == -1) && (errno == EINTR)) {}`: a failure is passed over.
unfoldable pub dup_loop : ℕ → ℕ → List DupAnswer → Child → Result Child
dup_loop from to [] c = err out_of_fuel
dup_loop from to (dupped ∷ answers) c = ok (record c { dups = c.dups ++ (from, to) ∷ [] })
dup_loop from to (dup_interrupted ∷ answers) c = dup_loop from to answers c
dup_loop from to (dup_failed ∷ answers) c = ok c

-- `for (rlim_t i = 3; i < rlim.rlim_cur; ++i) close (i);`: `n` descriptors from `i` on.
abbrev pub close_from : ℕ → ℕ → List ℕ
close_from i zero = []
close_from i (suc n) = i ∷ close_from (i + 1) n

-- `clearenv()`, and the variables that are then set.
abbrev pub set_vars : Env → Env → Env
set_vars environ [] = environ
set_vars environ ((name, value) ∷ vars) = set_vars (assign_var name value environ) vars

unfoldable pub child_environ : Bytes → Env → Env
child_environ path cmd_env = set_vars (assign_var (codes "PATH") path []) cmd_env

-- How the child ends: the program that is executed, with its arguments and its environment, or an
-- exit.
pub data ChildEnd : Type 0 where
  executes : Bytes → List Bytes → Env → Child → ChildEnd
  child_exits : ℤ → ChildEnd

-- `execvp` of the first argument. `cmd_argv[0]` of no arguments is out of range.
unfoldable pub exec_argv : Bool → List Bytes → Env → Child → Result ChildEnd
exec_argv exec_ok [] environ c = err out_of_range
exec_argv exec_ok (arg ∷ args) environ c =
    if exec_ok then ok (executes arg (arg ∷ args) environ c) else ok (child_exits (pos 127))

-- What the kernel answers to the three `dup2` loops; `rlim_cur`, and whether `setpgid` and `execvp`
-- succeed.
pub record Answers : Type 0 where
  pub dup_stdin : List DupAnswer
  pub dup_stdout : List DupAnswer
  pub dup_stderr : List DupAnswer
  pub rlim_cur : ℕ
  pub setpgid_ok : Bool
  pub exec_ok : Bool

-- The ends of the pipes that the child does not need have been closed. `path` is the variable, if
-- it is set; without it a string is made of a null pointer. `fork()` was called with signals masked.
unfoldable pub run_forked_child : ℕ → ℕ → ℕ → Option Bytes → Answers → NixQueueCmd → Result ChildEnd
run_forked_child stdin_read stdout_write stderr_write path a cmd =
    dup_loop stdin_read 0 a.dup_stdin (record { dups = []; closes = []; masked = true }) >>= λ c1.
    dup_loop stdout_write 1 a.dup_stdout c1 >>= λ c2.
    dup_loop stderr_write 2 a.dup_stderr c2 >>= λ c3.
    let c4 : Child = record c3 { closes = close_from 3 (a.rlim_cur - 3) } in
    if a.setpgid_ok
    then elim path [
      | none ↦ err null_this
      | some text ↦
          exec_argv a.exec_ok cmd.cmd_argv (child_environ text cmd.cmd_env)
            (record c4 { masked = false })
    ]
    else ok (child_exits (pos 128))
