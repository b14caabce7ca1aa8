-- ===== src/Daemon/Listen/Whole.antt =====
-- The daemon's main thread from its first refresh to its end (pg_cmdqd/pg_cmd_queue_daemon.cpp,
-- pg_cmdqd/cmdqueuerunnermanager.cpp): the runners of the listed queues, and what they are told.
use pg_cmd_queue.Base.{
  ◌&&◌, not, ℕ, ◌+◌, Bool, true, false, List, [], ◌∷◌, ◌++◌, Bytes, Result, ok, err, ◌>>=◌, ◌≡◌,
  refl, ap, ◌∙◌, if◌then◌else◌,
}
use pg_cmd_queue.Daemon.Manager.{
  Manager, Runner, Runners, SelectTry, has_runner, kill_each, kill, stop_all_runners, observe,
  observe_each,
}
use pg_cmd_queue.Daemon.Manager.Started.{kill_running}
use pg_cmd_queue.Daemon.Manager.Refresh.{AllHaveRunners}
use pg_cmd_queue.Daemon.Listen.{
  refreshed, Listening, Listened, listen_for_queue_list_changes, main_run, emit_sigusr1,
  with_manager,
}
use pg_cmd_queue.Daemon.Listen.Listed.{
  Listed, KnownTries, KnownTurns, AllHaveRunners-same, refreshed-Listed, listen_loop-Listed,
  observe-AllHaveRunners,
}

has_runner-kill_each :
    (cls : Bytes) (sig_num : ℕ) (rs : Runners)
    → has_runner cls (kill_each sig_num rs) ≡ has_runner cls rs
has_runner-kill_each cls sig_num [] = refl
has_runner-kill_each cls sig_num ((key, r) ∷ rs) = rw (has_runner-kill_each cls sig_num rs) refl

-- Each runner has the signal number as the last one in its pipe.
abbrev pub Told : ℕ → Runners → Type 0
Told sig_num [] = Unit
Told sig_num ((key, r) ∷ rs) =
    ((before : List ℕ) × (r.signals ≡ before ++ sig_num ∷ [])) × Told sig_num rs

kill_each-Told :
    (sig_num : ℕ) (running : Bytes → Bool) (rs : Runners)
    → ((cls : Bytes) → running cls ≡ true)
    → Told sig_num (kill_each sig_num (observe_each running rs))
kill_each-Told sig_num running [] h = tt
kill_each-Told sig_num running ((key, r) ∷ rs) h = (
  (
    r.signals,
    ap (λ b. (kill sig_num (record { running = b; signals = r.signals })).signals) (h key)
        ∙ ap (λ (k : Runner). k.signals) (kill_running sig_num r.signals),
  ),
  kill_each-Told sig_num running rs h,
)

-- The whole run ended: the listed queues have runners, and all runners were told.
abbrev pub Ended : ℕ → Result Listened → Type 0
Ended sig_num (ok l) =
    AllHaveRunners l.manager.old_cmd_classes l.manager
    × (Told sig_num l.manager.nix_cmd_queue_runners × Told sig_num l.manager.sql_cmd_queue_runners)
Ended sig_num (err e) = Unit

pub stop_all_runners-Ended :
    (sig_num : ℕ) (running : Bytes → Bool) (l : Listened)
    → AllHaveRunners l.manager.old_cmd_classes l.manager
    → ((cls : Bytes) → running cls ≡ true)
    → Ended sig_num (ok (with_manager l (stop_all_runners sig_num (observe running l.manager))))
unfolding stop_all_runners observe
stop_all_runners-Ended sig_num running l h rs = (
  AllHaveRunners-same l.manager.old_cmd_classes (observe running l.manager) _
      (λ cls. simp (has_runner-kill_each cls sig_num) refl)
      (observe-AllHaveRunners running l.manager h),
  (
    kill_each-Told sig_num running l.manager.nix_cmd_queue_runners rs,
    kill_each-Told sig_num running l.manager.sql_cmd_queue_runners rs,
  ),
)

-- Behind the listening, in the manager that it leaves.
abbrev ListedAtEnd : Result Listened → Type 0
ListedAtEnd (ok l) = AllHaveRunners l.manager.old_cmd_classes l.manager
ListedAtEnd (err e) = Unit

emit_sigusr1-Listed :
    (emit : Bool) (l : Listened)
    → AllHaveRunners l.manager.old_cmd_classes l.manager
    → Listed (ok (emit_sigusr1 emit l).manager)
emit_sigusr1-Listed emit l h = go (emit && not l.emitted)
  where
    go :
        (b : Bool)
        → Listed (
            ok
              (if b
                then record l { emitted = true; sigusr1_sent = l.sigusr1_sent + 1 }
                else l).manager)
    go true = h
    go false = h

listen-ListedAtEnd :
    (emit : Bool) (listening : Listening) (l : Listened)
    → KnownTurns listening.turns
    → AllHaveRunners l.manager.old_cmd_classes l.manager
    → ListedAtEnd (listen_for_queue_list_changes emit listening l)
unfolding listen_for_queue_list_changes
listen-ListedAtEnd emit listening l k h =
    let same = emit_sigusr1-Listed emit l h in
    either (not listening.listen_ok) _ _ h (
      either (not listening.has_socket) _ _ same
        (go _ (listen_loop-Listed listening.turns _ k same)))
  where
    either :
        (b : Bool) (x y : Result Listened)
        → ListedAtEnd x
        → ListedAtEnd y
        → ListedAtEnd (if b then x else y)
    either true x y hx hy = hx
    either false x y hx hy = hy

    go :
        (r : Result Manager)
        → Listed r
        → ListedAtEnd (r >>= λ m. ok (with_manager (emit_sigusr1 emit l) m))
    go (ok m) h = h
    go (err e) h = tt

-- When the daemon comes to its end, from a manager whose listed queues have runners, each queue
-- listed last has a runner, and each runner has the signal's number as the last one in its pipe:
-- whatever notifications came and however often the queues were selected again, if the queues
-- selected are of the known templates, and if by then every runner has `_running` set and room in
-- its pipe.
pub main_run-Ended :
    (emit_sigusr1_when_ready : Bool) (tries : List SelectTry) (listening : Listening) (sig_num : ℕ)
    (running : Bytes → Bool) (m : Manager)
    → KnownTries tries
    → KnownTurns listening.turns
    → AllHaveRunners m.old_cmd_classes m
    → ((cls : Bytes) → running cls ≡ true)
    → Ended sig_num (main_run emit_sigusr1_when_ready tries listening sig_num running m)
unfolding main_run
main_run-Ended emit tries listening sig_num running m kt kl h rs =
    go (refreshed false tries m) (refreshed-Listed false tries m kt h)
  where
    finish :
        (r : Result Listened)
        → ListedAtEnd r
        → Ended sig_num
            (r >>= λ l. ok (with_manager l (stop_all_runners sig_num (observe running l.manager))))
    finish (ok l) h = stop_all_runners-Ended sig_num running l h rs
    finish (err e) h = tt

    go :
        (r : Result Manager)
        → Listed r
        → Ended sig_num (
            r >>= λ m1.
            listen_for_queue_list_changes emit listening
              (record { manager = m1; emitted = false; sigusr1_sent = 0 })
            >>= λ l. ok (with_manager l (stop_all_runners sig_num (observe running l.manager))))
    go (err e) h = tt
    go (ok m1) h = finish _ (listen-ListedAtEnd emit listening _ kl h)
