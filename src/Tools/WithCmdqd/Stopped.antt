-- ===== src/Tools/WithCmdqd/Stopped.antt =====
-- What becomes of the daemon that `with_cmdqd` (pg_cmdqd/with_cmdqd.cpp) has started.
use pg_cmd_queue.Base.{ℕ, ◌≡◌, Bool, true, false, List, [], ◌∷◌, Result, ok, err}
use pg_cmd_queue.Tools.WithCmdqd.{
  Cmdqd, not_forked, running, reaped, Wrapper, Exit, exit_psql_fork_error, sigterm, Handled,
  goes_on, ends, World,
}

-- A daemon that is still there was sent nothing, and one that was waited for `SIGTERM`, once.
abbrev KillsOf : Cmdqd → List ℕ → Type 0
KillsOf not_forked kills = kills ≡ []
KillsOf running kills = kills ≡ []
KillsOf reaped kills = kills ≡ sigterm ∷ []

abbrev pub ToldOnce : Wrapper → Type 0
ToldOnce s = KillsOf s.cmdqd s.kills

-- The daemon is left running only where `psql` could not be forked.
abbrev LeftFor : Cmdqd → World → ℕ → Type 0
LeftFor running w code = (w.psql_forked ≡ false) × (code ≡ exit_psql_fork_error)
LeftFor _ w code = Unit

abbrev pub StoppedBy : World → Result Exit → Type 0
StoppedBy w (ok e) = ToldOnce e.wrapper × LeftFor e.wrapper.cmdqd w e.code
StoppedBy w (err e) = Unit

-- Up to its exit, the wrapper tells the daemon nothing: there is none yet, or it is running.
abbrev cmdqd_of : Bool → Cmdqd
cmdqd_of false = not_forked
cmdqd_of true = running

abbrev ToldNothing : Bool → Wrapper → Type 0
ToldNothing started s = (s.cmdqd ≡ cmdqd_of started) × (s.kills ≡ [])

abbrev HandledWell : World → Bool → Handled → Type 0
HandledWell w started (goes_on s) = ToldNothing started s
HandledWell w started (ends e) = StoppedBy w e
