-- ===== src/Daemon/Listen/Listed.antt =====
-- Whether the listed queues have runners while the daemon's main thread listens
-- (pg_cmdqd/cmdqueuerunnermanager.cpp).
use pg_cmd_queue.Base.{
  ℕ, Bool, true, false, Option, none, some, List, [], ◌∷◌, Bytes, Result, ok, err, ◌>>=◌, ◌≡◌, refl,
  ◌∙◌, if◌then◌else◌,
}
use pg_cmd_queue.Text.Composite.{from_text_composite_value}
use pg_cmd_queue.Daemon.Connection.{next_retry}
use pg_cmd_queue.Daemon.Manager.{
  CmdQueue, Manager, SelectTry, Runners, has_runner, observe, observe_each, refresh_queue_list,
  refresh_loop, after_try, with_rows,
}
use pg_cmd_queue.Daemon.Manager.Refresh.{
  with_runner, AllHaveRunners, KnownRows, refresh_with-AllHaveRunners,
}
use pg_cmd_queue.Daemon.Listen.{
  is_queue_change, Notification, refreshed, take_notification, take_notifications, ReadAnswer,
  ListenTurn, threads, poll_interrupted, poll_failed, ready, on_conn, on_kill_pipe, read_signal,
  listen_loop,
}

-- Each class in the list of old ones has a runner.
abbrev pub Listed : Result Manager → Type 0
Listed (ok m) = AllHaveRunners m.old_cmd_classes m
Listed (err e) = Unit

abbrev ListedAfter : Result (Manager × List ℕ) → Type 0
ListedAfter (ok (m, slept)) = AllHaveRunners m.old_cmd_classes m
ListedAfter (err e) = Unit

abbrev KnownTry : Option (List (Option CmdQueue)) → Type 0
KnownTry none = Unit
KnownTry (some rows) = KnownRows rows

-- Every queue that a `SELECT` gives is of a known template.
abbrev pub KnownTries : List SelectTry → Type 0
KnownTries [] = Unit
KnownTries (t ∷ tries) = KnownTry t.rows × KnownTries tries

abbrev pub KnownNotifications : List Notification → Type 0
KnownNotifications [] = Unit
KnownNotifications (n ∷ ns) = KnownTries n.tries × KnownNotifications ns

abbrev pub KnownTurns : List ListenTurn → Type 0
KnownTurns [] = Unit
KnownTurns (ready (some ns) answers ∷ turns) = KnownNotifications ns × KnownTurns turns
KnownTurns (_ ∷ turns) = KnownTurns turns

with_rows-Listed :
    (rows : List (Option CmdQueue)) (slept : List ℕ) (m : Manager)
    → KnownRows rows
    → AllHaveRunners m.old_cmd_classes m
    → ListedAfter (with_rows rows slept m)
with_rows-Listed rows slept m k h =
    let (m', e, _, listed) = refresh_with-AllHaveRunners rows m k h in rw e listed

pub AllHaveRunners-same :
    (classes : List Bytes) (m m' : Manager)
    → ((cls : Bytes) → with_runner cls m' ≡ with_runner cls m)
    → AllHaveRunners classes m
    → AllHaveRunners classes m'
AllHaveRunners-same [] m m' e h = tt
AllHaveRunners-same (cls ∷ classes) m m' e (h, hs) =
    (e cls ∙ h, AllHaveRunners-same classes m m' e hs)

after_try-Listed :
    (retry_select : Bool) (seconds : ℕ) (rows : Option (List (Option CmdQueue))) (signalled : Bool)
    (again : List ℕ → Result (Manager × List ℕ)) (slept : List ℕ) (m : Manager)
    → KnownTry rows
    → AllHaveRunners m.old_cmd_classes m
    → ((slept : List ℕ) → ListedAfter (again slept))
    → ListedAfter (after_try retry_select seconds rows signalled again slept m)
unfolding after_try
after_try-Listed retry seconds (some rows) signalled again slept m k h g =
    with_rows-Listed rows slept m k h
after_try-Listed false seconds none signalled again slept m k h g = h
after_try-Listed true seconds none true again slept m k h g =
    with_rows-Listed [] _ (record m { keep_running = false }) tt
      (AllHaveRunners-same m.old_cmd_classes m _ (λ cls. refl) h)
after_try-Listed true seconds none false again slept m k h g = g _

refresh_loop-Listed :
    (retry_select : Bool) (seconds : ℕ) (tries : List SelectTry) (slept : List ℕ) (m : Manager)
    → KnownTries tries
    → AllHaveRunners m.old_cmd_classes m
    → ListedAfter (refresh_loop retry_select seconds tries slept m)
unfolding refresh_loop
refresh_loop-Listed retry seconds [] slept m k h = tt
refresh_loop-Listed retry seconds (a ∷ tries) slept m (k, ks) h =
    after_try-Listed retry seconds a.rows a.signalled _ slept m k h
      (λ slept'. refresh_loop-Listed retry (next_retry seconds) tries slept' m ks h)

pub refreshed-Listed :
    (retry_select : Bool) (tries : List SelectTry) (m : Manager)
    → KnownTries tries
    → AllHaveRunners m.old_cmd_classes m
    → Listed (refreshed retry_select tries m)
unfolding refresh_queue_list
refreshed-Listed retry tries m k h = forget _ (
    either m.keep_running _ _ (refresh_loop-Listed retry 1 tries [] m k h)
      (with_rows-Listed [] [] m tt h))
  where
    either :
        (b : Bool) (x y : Result (Manager × List ℕ))
        → ListedAfter x
        → ListedAfter y
        → ListedAfter (if b then x else y)
    either true x y hx hy = hx
    either false x y hx hy = hy

    forget : (r : Result (Manager × List ℕ)) → ListedAfter r → Listed (r >>= λ (m', slept). ok m')
    forget (ok (m', slept)) h = h
    forget (err e) h = tt

Listed-if : (b : Bool) (x y : Result Manager) → Listed x → Listed y → Listed (if b then x else y)
Listed-if true x y hx hy = hx
Listed-if false x y hx hy = hy

-- Behind an error there is nothing more to show.
pub then_Listed :
    (r : Result Manager) (f : Manager → Result Manager)
    → Listed r
    → ((m : Manager) → AllHaveRunners m.old_cmd_classes m → Listed (f m))
    → Listed (r >>= f)
then_Listed (ok m) f h g = g m h
then_Listed (err e) f h g = tt

take_notification-Listed :
    (n : Notification) (m : Manager)
    → KnownTries n.tries
    → AllHaveRunners m.old_cmd_classes m
    → Listed (take_notification n m)
unfolding take_notification
take_notification-Listed n m k h = go (from_text_composite_value n.extra)
  where
    decide : (b : Result Bool) → Listed (b >>= λ b. if b then refreshed true n.tries m else ok m)
    decide (err e) = tt
    decide (ok true) = refreshed-Listed true n.tries m k h
    decide (ok false) = h

    go :
        (fields : Result (List (Option Bytes)))
        → Listed (
            fields >>= λ fields.
            is_queue_change fields >>= λ b. if b then refreshed true n.tries m else ok m)
    go (err e) = tt
    go (ok fields) = decide (is_queue_change fields)

take_notifications-Listed :
    (ns : List Notification) (m : Manager)
    → KnownNotifications ns
    → AllHaveRunners m.old_cmd_classes m
    → Listed (take_notifications ns m)
unfolding take_notifications
take_notifications-Listed [] m k h = h
take_notifications-Listed (n ∷ ns) m (k, ks) h =
    Listed-if m.keep_running _ _
      (then_Listed (take_notification n m) (take_notifications ns)
        (take_notification-Listed n m k h) (λ m h. take_notifications-Listed ns m ks h))
      h

on_kill_pipe-Listed :
    (answers : Option (List ReadAnswer)) (m : Manager)
    → AllHaveRunners m.old_cmd_classes m
    → Listed (on_kill_pipe answers m)
on_kill_pipe-Listed none m h = h
on_kill_pipe-Listed (some answers) m h = go (read_signal answers 0)
  where
    go : (r : Result ℕ) → Listed (r >>= λ n. ok (record m { keep_running = false }))
    go (err e) = tt
    go (ok n) = AllHaveRunners-same m.old_cmd_classes m _ (λ cls. refl) h

on_conn-Listed :
    (ns : Option (List Notification)) (answers : Option (List ReadAnswer)) (turns : List ListenTurn)
    (m : Manager)
    → KnownTurns (ready ns answers ∷ turns)
    → AllHaveRunners m.old_cmd_classes m
    → Listed (on_conn ns m) × KnownTurns turns
on_conn-Listed none answers turns m k h = (h, k)
on_conn-Listed (some ns) answers turns m (k, ks) h = (take_notifications-Listed ns m k h, ks)

has_runner-observe_each :
    (running : Bytes → Bool) (cls : Bytes) (rs : Runners)
    → has_runner cls (observe_each running rs) ≡ has_runner cls rs
has_runner-observe_each running cls [] = refl
has_runner-observe_each running cls ((key, r) ∷ rs) =
    rw (has_runner-observe_each running cls rs) refl

-- What threads do takes no runner away.
pub observe-AllHaveRunners :
    (running : Bytes → Bool) (m : Manager)
    → AllHaveRunners m.old_cmd_classes m
    → AllHaveRunners (observe running m).old_cmd_classes (observe running m)
unfolding observe
observe-AllHaveRunners running m h =
    AllHaveRunners-same m.old_cmd_classes m _
      (λ cls. simp (has_runner-observe_each running cls) refl) h

pub listen_loop-Listed :
    (turns : List ListenTurn) (m : Manager)
    → KnownTurns turns
    → AllHaveRunners m.old_cmd_classes m
    → Listed (listen_loop turns m)
unfolding listen_loop
listen_loop-Listed [] m k h = Listed-if m.keep_running _ _ tt h
listen_loop-Listed (poll_interrupted ∷ turns) m k h =
    Listed-if m.keep_running _ _ (listen_loop-Listed turns m k h) h
listen_loop-Listed (threads running ∷ turns) m k h =
    Listed-if m.keep_running _ _
      (listen_loop-Listed turns (observe running m) k (observe-AllHaveRunners running m h)) h
listen_loop-Listed (poll_failed ∷ turns) m k h = h
listen_loop-Listed (ready ns answers ∷ turns) m k h =
    let (c, ks) = on_conn-Listed ns answers turns m k h in
    Listed-if m.keep_running _ _
      (then_Listed (on_conn ns m >>= on_kill_pipe answers) (listen_loop turns)
        (then_Listed (on_conn ns m) (on_kill_pipe answers) c (on_kill_pipe-Listed answers))
        (λ m h. listen_loop-Listed turns m ks h))
      h
