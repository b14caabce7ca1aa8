-- ===== src/Tools/NixTestCmd/Plan.antt =====
-- Command lines of `nixtestcmd` (pg_cmdqd/nixtestcmd.cpp) that are built from a plan.
use mathlib.Core.List.{append_assoc}
use pg_cmd_queue.Base.{
  ℤ, Option, none, some, List, [], ◌∷◌, ◌++◌, Bytes, codes, ok, ◌≡◌, refl, ap, ◌∙◌,
}
use pg_cmd_queue.Daemon.Queue.{stoi}
use pg_cmd_queue.Tools.NixTestCmd.{
  option_of, Effect, copy_stdin, print_line, close_fd, ignore_signal, exits, usage_error, Step,
  goes, if_set, flag_step, value_step, before, then_run, choose, test_cmd,
}

-- What such a command line asks for.
pub data Action : Type 0 where
  out_line err_line env_line : Bytes → Action
  copies_stdin ignores_sigterm ignores_sigint closes_stdin : Action

abbrev pub action_args : Action → List Bytes
action_args (out_line line) = codes "--stdout-line" ∷ line ∷ []
action_args (err_line line) = codes "--stderr-line" ∷ line ∷ []
action_args (env_line name) = codes "--echo-env-var-if-exists" ∷ name ∷ []
action_args copies_stdin = codes "--echo-stdin" ∷ []
action_args ignores_sigterm = codes "--ignore-sigterm" ∷ []
action_args ignores_sigint = codes "--ignore-sigint" ∷ []
action_args closes_stdin = codes "--close-stdin" ∷ []

abbrev pub plan_args : List Action → List Bytes
plan_args [] = []
plan_args (a ∷ plan) = action_args a ++ plan_args plan

abbrev pub env_effects : Option Bytes → List Effect
env_effects none = []
env_effects (some value) = print_line 1 value ∷ []

module _ (getenv : Bytes → Option Bytes) where
  abbrev pub action_effects : Action → List Effect
  action_effects (out_line line) = print_line 1 line ∷ []
  action_effects (err_line line) = print_line 2 line ∷ []
  action_effects (env_line name) = env_effects (getenv name)
  action_effects copies_stdin = copy_stdin ∷ []
  action_effects ignores_sigterm = ignore_signal 15 ∷ []
  action_effects ignores_sigint = ignore_signal 2 ∷ []
  action_effects closes_stdin = close_fd 0 ∷ []

  abbrev pub plan_effects : List Action → List Effect
  plan_effects [] = []
  plan_effects (a ∷ plan) = action_effects a ++ plan_effects plan

  test_cmd-flag :
      (arg : Bytes) (args : List Bytes) (code : ℤ) (step : Step)
      → flag_step (option_of arg) ≡ some step
      → test_cmd getenv (arg ∷ args) code ≡ then_run getenv step (test_cmd getenv args) code
  unfolding test_cmd
  test_cmd-flag arg [] code step h =
      ap
        (λ o.
          choose getenv o (λ step. then_run getenv step (test_cmd getenv []) code)
            (record { effects = []; on_sigterm = code; ended = usage_error }))
        h
  test_cmd-flag arg (v ∷ args) code step h =
      ap
        (λ o.
          choose getenv o (λ step. then_run getenv step (test_cmd getenv (v ∷ args)) code)
            (then_run getenv (value_step getenv (option_of arg) v) (test_cmd getenv args) code))
        h

  test_cmd-value :
      (arg value : Bytes) (args : List Bytes) (code : ℤ)
      → flag_step (option_of arg) ≡ none
      → test_cmd getenv (arg ∷ value ∷ args) code
        ≡ then_run getenv (value_step getenv (option_of arg) value) (test_cmd getenv args) code
  unfolding test_cmd
  test_cmd-value arg value args code h =
      ap
        (λ o.
          choose getenv o (λ step. then_run getenv step (test_cmd getenv (value ∷ args)) code)
            (then_run getenv (value_step getenv (option_of arg) value) (test_cmd getenv args) code))
        h

  -- The effects of an action, before what the arguments behind it lead to.
  test_cmd-action :
      (a : Action) (args : List Bytes) (code : ℤ)
      → test_cmd getenv (action_args a ++ args) code
        ≡ before getenv (action_effects a) (test_cmd getenv args code)
  unfolding option_of flag_step value_step
  test_cmd-action (out_line line) args code = test_cmd-value _ line args code refl
  test_cmd-action (err_line line) args code = test_cmd-value _ line args code refl
  test_cmd-action (env_line name) args code =
      test_cmd-value _ name args code refl ∙ go (getenv name)
    where
      go :
          (v : Option Bytes)
          → then_run getenv
              (if_set (goes []) (λ value. goes (print_line 1 value ∷ [])) v)
              (test_cmd getenv args)
              code
            ≡ before getenv (env_effects v) (test_cmd getenv args code)
      go none = refl
      go (some v) = refl
  test_cmd-action copies_stdin args code = test_cmd-flag _ args code _ refl
  test_cmd-action ignores_sigterm args code = test_cmd-flag _ args code _ refl
  test_cmd-action ignores_sigint args code = test_cmd-flag _ args code _ refl
  test_cmd-action closes_stdin args code = test_cmd-flag _ args code _ refl

  -- A command line that is built from a plan and ends in an exit code has the effects of the plan,
  -- in its order, and then exits with that code, whatever follows.
  pub test_cmd-plan :
      (plan : List Action) (text : Bytes) (n : ℤ) (later : List Bytes) (code : ℤ)
      → stoi text ≡ ok n
      → test_cmd getenv (plan_args plan ++ codes "--exit-code" ∷ text ∷ later) code
        ≡ record { effects = plan_effects plan; on_sigterm = code; ended = exits n }
  unfolding option_of flag_step value_step
  test_cmd-plan [] text n later code h = test_cmd-value _ text later code refl ∙ rw h refl
  test_cmd-plan (a ∷ plan) text n later code h =
      ap (λ args. test_cmd getenv args code) (append_assoc (action_args a) (plan_args plan) _)
      ∙ test_cmd-action a (plan_args plan ++ codes "--exit-code" ∷ text ∷ later) code
      ∙ ap (before getenv (action_effects a)) (test_cmd-plan plan text n later code h)
