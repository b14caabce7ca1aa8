-- ===== src/Daemon/Manager/Started.antt =====
-- A runner from its constructor to the end of its thread, as the manager's `kill` meets it
-- (pg_cmdqd/cmdqueuerunner.h): the main thread's calls and the thread's writes of `_running` are
-- steps one after the other.
use pg_cmd_queue.Base.{ℕ, Bool, true, false, List, [], ◌∷◌, ◌++◌, ◌≡◌, refl}
use pg_cmd_queue.Daemon.Manager.{Runner, new_runner, kill}
use pg_cmd_queue.Runner.Kill.{kill as write_number, kill_loop}

-- A runner as the constructor leaves it, when its thread has not set `_running` yet.
abbrev pub constructed : Runner
constructed = new_runner

-- The thread sets `_running` at the start of `_run`, and at its end, but not at a `return` in it.
pub data RunnerStep : Type 0 where
  begins ends returns : RunnerStep
  kills : ℕ → RunnerStep

unfoldable pub runner_step : RunnerStep → Runner → Runner
runner_step begins r = record r { running = true }
runner_step ends r = record r { running = false }
runner_step returns r = r
runner_step (kills sig_num) r = kill sig_num r

abbrev pub runner_steps : List RunnerStep → Runner → Runner
runner_steps [] r = r
runner_steps (step ∷ steps) r = runner_steps steps (runner_step step r)

-- What `kill` does to a runner with room in its pipe.
abbrev with_flag : Bool → List ℕ → Runner
with_flag running signals = record { running = running; signals = signals }

pub kill_running :
    (sig_num : ℕ) (signals : List ℕ)
    → kill sig_num (with_flag true signals) ≡ with_flag true (signals ++ sig_num ∷ [])
unfolding kill write_number kill_loop
kill_running sig_num signals = refl
