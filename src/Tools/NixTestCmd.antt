-- ===== src/Tools/NixTestCmd.antt =====
-- `nixtestcmd` (pg_cmdqd/nixtestcmd.cpp), the program that the tests of the queue run. What it does
-- is a list of effects; the environment is a function. A signal that it raises is recorded, and
-- what follows is what follows if that signal is ignored.
pub mod Plan
use pg_cmd_queue.Base.{
  ℕ, ℤ, pos, Bool, true, false, Option, none, some, List, [], ◌∷◌, ◌++◌, Bytes, bytes_eq, codes,
  if◌then◌else◌, Fault, Result, ok, err,
}
use pg_cmd_queue.Daemon.Queue.{stoi}

-- The options, those without an argument first.
pub data TestOption : Type 0 where
  help close_stdin close_stdout close_stderr echo_stdin ignore_sigterm ignore_sigint : TestOption
  exit_code exit_signal stdout_line stderr_line echo_env_var echo_env_var_if_exists : TestOption
  sleep_ms exit_code_on_sigterm unrecognized : TestOption

abbrev pub option_table : List (Bytes × TestOption)
option_table =
    (codes "--help", help)
    ∷ (codes "-h", help)
    ∷ (codes "--exit-code", exit_code)
    ∷ (codes "--exit-signal", exit_signal)
    ∷ (codes "--close-stdin", close_stdin)
    ∷ (codes "--close-stdout", close_stdout)
    ∷ (codes "--close-stderr", close_stderr)
    ∷ (codes "--stdout-line", stdout_line)
    ∷ (codes "--stderr-line", stderr_line)
    ∷ (codes "--echo-stdin", echo_stdin)
    ∷ (codes "--echo-env-var", echo_env_var)
    ∷ (codes "--echo-env-var-if-exists", echo_env_var_if_exists)
    ∷ (codes "--sleep-ms", sleep_ms)
    ∷ (codes "--exit-code-on-sigterm", exit_code_on_sigterm)
    ∷ (codes "--ignore-sigterm", ignore_sigterm)
    ∷ (codes "--ignore-sigint", ignore_sigint)
    ∷ []

-- The chain of comparisons.
abbrev pub option_in : List (Bytes × TestOption) → Bytes → TestOption
option_in [] arg = unrecognized
option_in ((name, option) ∷ table) arg = if bytes_eq arg name then option else option_in table arg

unfoldable pub option_of : Bytes → TestOption
option_of arg = option_in option_table arg

-- The calls that the program makes before it ends. A descriptor is given by its number; 1 stands
-- for `std::cout` in a `print_line`, which prints nothing any more once a `copy_stdin` has found no
-- byte and so set its `failbit`.
pub data Effect : Type 0 where
  print_usage copy_stdin handle_sigterm : Effect
  print_line : ℕ → Bytes → Effect
  print_not_set : Bytes → Effect
  close_fd : ℕ → Effect
  ignore_signal : ℕ → Effect
  sleep_for raise_signal : ℤ → Effect

-- `exit` with a code, `what` and the usage and `exit(254)`, an exception that nothing catches, or
-- the end of `main`.
pub data Ended : Type 0 where
  exits : ℤ → Ended
  usage_error uncaught returns : Ended

-- `on_sigterm` is `exit_code_on_sigterm`.
pub record Outcome : Type 0 where
  pub effects : List Effect
  pub on_sigterm : ℤ
  pub ended : Ended

-- What an option leads to: an end, or some effects and the code for `SIGTERM`.
pub data Step : Type 0 where
  ends : List Effect → Ended → Step
  goes : List Effect → Step
  goes_with : ℤ → Step

abbrev pub with_int : (ℤ → Step) → Result ℤ → Step
with_int f (ok n) = f n
with_int f (err e) = ends [] uncaught

abbrev pub if_set : Step → (Bytes → Step) → Option Bytes → Step
if_set unset f none = unset
if_set unset f (some value) = f value

-- An option by itself: none if it takes an argument.
unfoldable pub flag_step : TestOption → Option Step
flag_step help = some (ends (print_usage ∷ []) (exits (pos 0)))
flag_step close_stdin = some (goes (close_fd 0 ∷ []))
flag_step close_stdout = some (goes (close_fd 1 ∷ []))
flag_step close_stderr = some (goes (close_fd 1 ∷ []))
flag_step echo_stdin = some (goes (copy_stdin ∷ []))
flag_step ignore_sigterm = some (goes (ignore_signal 15 ∷ []))
flag_step ignore_sigint = some (goes (ignore_signal 2 ∷ []))
flag_step unrecognized = some (ends [] usage_error)
flag_step _ = none

module _ (getenv : Bytes → Option Bytes) where
  -- An option that takes an argument, with it.
  unfoldable pub value_step : TestOption → Bytes → Step
  value_step exit_code arg = with_int (λ n. ends [] (exits n)) (stoi arg)
  value_step exit_signal arg = with_int (λ n. goes (raise_signal n ∷ [])) (stoi arg)
  value_step stdout_line arg = goes (print_line 1 arg ∷ [])
  value_step stderr_line arg = goes (print_line 2 arg ∷ [])
  value_step echo_env_var arg =
      if_set (ends (print_not_set arg ∷ []) (exits (pos 253)))
        (λ value. goes (print_line 1 value ∷ [])) (getenv arg)
  value_step echo_env_var_if_exists arg =
      if_set (goes []) (λ value. goes (print_line 1 value ∷ [])) (getenv arg)
  value_step sleep_ms arg = with_int (λ n. goes (sleep_for n ∷ [])) (stoi arg)
  value_step exit_code_on_sigterm arg = with_int goes_with (stoi arg)
  value_step _ arg = ends [] usage_error

  abbrev pub before : List Effect → Outcome → Outcome
  before effects o = record o { effects = effects ++ o.effects }

  -- A step and what follows it, given the code for `SIGTERM` so far.
  abbrev pub then_run : Step → (ℤ → Outcome) → ℤ → Outcome
  then_run (ends effects ended) next code = record {
    effects = effects;
    on_sigterm = code;
    ended = ended;
  }
  then_run (goes effects) next code = before effects (next code)
  then_run (goes_with code) next _ = before (handle_sigterm ∷ []) (next code)

  -- An option by itself runs as `alone` says, another one as `taking` says.
  abbrev pub choose : Option Step → (Step → Outcome) → Outcome → Outcome
  choose (some step) alone taking = alone step
  choose none alone taking = taking

  -- `main`'s loop over the arguments, from the first one on.
  unfoldable pub test_cmd : List Bytes → ℤ → Outcome
  test_cmd [] code = record { effects = []; on_sigterm = code; ended = returns }
  test_cmd (arg ∷ []) code =
      choose (flag_step (option_of arg)) (λ step. then_run step (test_cmd []) code)
        (record { effects = []; on_sigterm = code; ended = usage_error })
  test_cmd (arg ∷ value ∷ args) code =
      choose (flag_step (option_of arg)) (λ step. then_run step (test_cmd (value ∷ args)) code)
        (then_run (value_step (option_of arg) value) (test_cmd args) code)
