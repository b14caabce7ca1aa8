-- ===== src/Daemon/Main/First.antt =====
-- The first refresh of the daemon's `main` (pg_cmdqd/cmdqueuerunnermanager.cpp), of a manager that
-- has no runners yet, and that a refresh does not end the manager's work.
use pg_cmd_queue.Base.{
  ℕ, Bool, true, false, Option, none, some, List, [], ◌∷◌, Bytes, if◌then◌else◌, Result, ok, err,
  runtime_error, ◌>>=◌, ◌≡◌, refl, ◌∙◌, arith, Bool-cases, inl, inr,
}
use mathlib.Core.Path.{subst}
use pg_cmd_queue.Daemon.Manager.{
  CmdQueue, Manager, SelectTry, kill_at, take_row, take_rows, add_runner, stop_runner,
  stop_disappeared, refresh_with, refresh_queue_list, has_class, has_runner, sigterm_num,
  refresh_loop, after_try,
}
use pg_cmd_queue.Daemon.Manager.Refresh.{
  AllHaveRunners, KnownRows, row_classes, refresh_with-AllHaveRunners,
}
use pg_cmd_queue.Daemon.Listen.{refreshed}
use pg_cmd_queue.Daemon.Main.{make_instance}

abbrev KeepsRunning : Bool → Result Manager → Type 0
KeepsRunning b (ok m) = m.keep_running ≡ b
KeepsRunning b (err e) = Unit

take_row-keep_running :
    (row : Option CmdQueue) (m : Manager) → (take_row row m).keep_running ≡ m.keep_running
unfolding take_row add_runner
take_row-keep_running none m = refl
take_row-keep_running (some q) m = ground arith

take_rows-keep_running :
    (rows : List (Option CmdQueue)) (m : Manager) → (take_rows rows m).keep_running ≡ m.keep_running
unfolding take_rows
take_rows-keep_running [] m = refl
take_rows-keep_running (row ∷ rows) m =
    take_rows-keep_running rows (take_row row m) ∙ take_row-keep_running row m

stop_runner-KeepsRunning :
    (b : Bool) (cls : Bytes) (n : ℕ) (m : Manager)
    → m.keep_running ≡ b
    → KeepsRunning b (stop_runner cls n m)
unfolding stop_runner
stop_runner-KeepsRunning b cls n m h =
    go (has_runner cls m.nix_cmd_queue_runners) (has_runner cls m.sql_cmd_queue_runners)
  where
    go :
        (c d : Bool)
        → KeepsRunning b (
            if c
            then ok (record m { nix_cmd_queue_runners = kill_at cls n m.nix_cmd_queue_runners })
            else if d
            then ok (record m { sql_cmd_queue_runners = kill_at cls n m.sql_cmd_queue_runners })
            else err runtime_error)
    go true d = h
    go false true = h
    go false false = tt

bind-KeepsRunning :
    (b : Bool) (r : Result Manager) (k : Manager → Result Manager)
    → KeepsRunning b r
    → ((m : Manager) → m.keep_running ≡ b → KeepsRunning b (k m))
    → KeepsRunning b (r >>= k)
bind-KeepsRunning b (ok m) k h hk = hk m h
bind-KeepsRunning b (err e) k h hk = tt

stop_disappeared-KeepsRunning :
    (b : Bool) (old : List Bytes) (m : Manager)
    → m.keep_running ≡ b
    → KeepsRunning b (stop_disappeared old m)
unfolding stop_disappeared
stop_disappeared-KeepsRunning b [] m h = h
stop_disappeared-KeepsRunning b (cls ∷ old) m h =
    let rest = stop_disappeared-KeepsRunning b old in
    elim (Bool-cases (has_class cls m.new_cmd_classes)) [
      | inl t ↦ rw t (rest m h)
      | inr f ↦ rw f (bind-KeepsRunning b _ _ (stop_runner-KeepsRunning b cls sigterm_num m h) rest)
    ]

refresh_with-KeepsRunning :
    (rows : List (Option CmdQueue)) (m : Manager)
    → KeepsRunning m.keep_running (refresh_with rows m)
unfolding refresh_with
refresh_with-KeepsRunning rows m =
    let m0 = record m { new_cmd_classes = [] } in
    let m1 = take_rows rows m0 in
    bind-KeepsRunning m.keep_running _ _
      (stop_disappeared-KeepsRunning m.keep_running m1.old_cmd_classes m1
        (take_rows-keep_running rows m0))
      (λ m2 h. h)

-- The first refresh, of a manager that has no runners yet.
pub first_refresh :
    (rows : List (Option CmdQueue)) (signalled : Bool) (tries : List SelectTry)
    → KnownRows rows
    → (m : Manager) × (refreshed false
          (record { rows = some rows; signalled = signalled } ∷ tries)
          make_instance
        ≡ ok m)
      × (m.old_cmd_classes ≡ row_classes [] rows)
      × AllHaveRunners m.old_cmd_classes m
      × (m.keep_running ≡ true)
unfolding refresh_queue_list refresh_loop after_try
first_refresh rows signalled tries k =
    let (m, e, c, a) = refresh_with-AllHaveRunners rows make_instance k tt in
    (
      m,
      simp e refl,
      c,
      a,
      subst (KeepsRunning true) e (refresh_with-KeepsRunning rows make_instance),
    )
