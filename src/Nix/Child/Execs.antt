-- ===== src/Nix/Child/Execs.antt =====
-- What the forked child (pg_cmdqd/nixqueuecmd.cpp) executes.
use mathlib.Core.List.{append_assoc, append-nil}
use pg_cmd_queue.Base.{
  ℕ, ◌-◌, true, false, some, List, [], ◌∷◌, ◌++◌, Bytes, codes, ok, ◌≡◌, refl, ap, ◌∙◌,
}
use pg_cmd_queue.Sys.Environ.{Env, PlainNames, assign_var-FreshVar}
use pg_cmd_queue.Nix.Command.{NixQueueCmd}
use pg_cmd_queue.Nix.Child.{
  DupAnswer, dupped, dup_interrupted, dup_failed, Child, dup_loop, close_from, set_vars,
  child_environ, executes, exec_argv, Answers, run_forked_child,
}

set_vars-PlainNames :
    (vars environ : Env) → PlainNames environ vars → set_vars environ vars ≡ environ ++ vars
set_vars-PlainNames [] environ p = simp append-nil refl
set_vars-PlainNames ((k, v) ∷ vars) environ ((l, f), p) =
    ap (λ e. set_vars e vars) (assign_var-FreshVar k v environ f)
    ∙ set_vars-PlainNames vars (environ ++ (k, v) ∷ []) p
    ∙ append_assoc environ ((k, v) ∷ []) vars

-- Some interruptions, and then success.
abbrev pub Dups : List DupAnswer → Type 0
Dups [] = ⊥
Dups (dupped ∷ answers) = Unit
Dups (dup_interrupted ∷ answers) = Dups answers
Dups (dup_failed ∷ answers) = ⊥

dup_loop-Dups :
    (from to : ℕ) (answers : List DupAnswer) (c : Child)
    → Dups answers
    → dup_loop from to answers c ≡ ok (record c { dups = c.dups ++ (from, to) ∷ [] })
unfolding dup_loop
dup_loop-Dups from to [] c h = absurd h
dup_loop-Dups from to (dupped ∷ answers) c h = refl
dup_loop-Dups from to (dup_interrupted ∷ answers) c h = dup_loop-Dups from to answers c h
dup_loop-Dups from to (dup_failed ∷ answers) c h = absurd h

-- The child executes the command's first argument with all of its arguments, with the pipes as its
-- three standard descriptors, all others up to the limit closed, no signal masked, and with just
-- the daemon's `PATH` and the command's variables as its environment; if the variables' names are
-- distinct, have no equals sign and are not `PATH`, and the calls succeed, however often `dup2` is
-- interrupted.
pub run_forked_child-executes :
    (stdin_read stdout_write stderr_write : ℕ) (path : Bytes) (a : Answers) (cmd : NixQueueCmd)
    (arg : Bytes) (args : List Bytes)
    → cmd.cmd_argv ≡ arg ∷ args
    → PlainNames ((codes "PATH", path) ∷ []) cmd.cmd_env
    → Dups a.dup_stdin
    → Dups a.dup_stdout
    → Dups a.dup_stderr
    → a.setpgid_ok ≡ true
    → a.exec_ok ≡ true
    → run_forked_child stdin_read stdout_write stderr_write (some path) a cmd
      ≡ ok (
          executes arg (arg ∷ args) ((codes "PATH", path) ∷ cmd.cmd_env) (record {
            dups = (stdin_read, 0) ∷ (stdout_write, 1) ∷ (stderr_write, 2) ∷ [];
            closes = close_from 3 (a.rlim_cur - 3);
            masked = false;
          }))
unfolding run_forked_child exec_argv child_environ
run_forked_child-executes r w e path a cmd arg args argv p d0 d1 d2 s x =
    simp
      (
        dup_loop-Dups r 0 a.dup_stdin (record { dups = []; closes = []; masked = true }) d0,
        dup_loop-Dups w 1 a.dup_stdout (record { dups = (r, 0) ∷ []; closes = []; masked = true })
            d1,
        dup_loop-Dups e 2 a.dup_stderr
            (record { dups = (r, 0) ∷ (w, 1) ∷ []; closes = []; masked = true }) d2,
        s,
        x,
        argv,
        set_vars-PlainNames cmd.cmd_env ((codes "PATH", path) ∷ []) p,
      )
      refl
