-- ===== src/Daemon/Manager.antt =====
-- `CmdQueueRunnerManager` of pg_cmdqd/cmdqueuerunnermanager.h and .cpp: the runners of the queues,
-- and how the list of queues is refreshed. A runner is what the manager sees of it: whether its
-- thread is running, and the signals written to its pipe. The runners of a type are kept as an
-- association list, and a set of class names as a list.
pub mod Refresh
pub mod Restart
pub mod Orphans
pub mod Started
use pg_cmd_queue.Base.{
  ℕ, Bool, true, false, not, ◌||◌, ◌&&◌, ◌==◌, ltb, Option, none, some, List, [], ◌∷◌, ◌++◌, Bytes,
  bytes_eq, codes, if◌then◌else◌, Result, ok, err, runtime_error, ◌>>=◌, out_of_fuel,
}
use pg_cmd_queue.Daemon.Connection.{next_retry}
use pg_cmd_queue.Daemon.Signals.{PipeWrite, wrote}
use pg_cmd_queue.Runner.Kill.{KillCall}
use pg_cmd_queue.Runner.Kill.{kill as write_number}

-- The members of `CmdQueue` that the manager reads.
pub record CmdQueue : Type 0 where
  pub cmd_class_identity : Bytes
  pub cmd_signature_class_relname : Bytes

pub record Runner : Type 0 where
  pub running : Bool
  pub signals : List ℕ

abbrev pub Runners : Type 0
Runners = List (Bytes × Runner)

pub record Manager : Type 0 where
  pub nix_cmd_queue_runners : Runners
  pub sql_cmd_queue_runners : Runners
  pub old_cmd_classes : List Bytes
  pub new_cmd_classes : List Bytes
  pub keep_running : Bool
  pub signals_blocked : Bool

-- `count(cmd_class) > 0`, of the runners and of a set.
abbrev pub has_runner : Bytes → Runners → Bool
has_runner cls [] = false
has_runner cls ((key, r) ∷ rs) = if bytes_eq key cls then true else has_runner cls rs

abbrev pub has_class : Bytes → List Bytes → Bool
has_class cls [] = false
has_class cls (key ∷ keys) = if bytes_eq key cls then true else has_class cls keys

-- The order of `std::string`.
abbrev pub is_before : Bytes → Bytes → Bool
is_before _ [] = false
is_before [] (_ ∷ _) = true
is_before (b ∷ bs) (c ∷ cs) = if b == c then is_before bs cs else ltb b c

-- `set.insert(cls)`: the keys of a `std::set` are in order.
abbrev pub insert_before : Bytes → List Bytes → List Bytes
insert_before cls [] = cls ∷ []
insert_before cls (key ∷ keys) =
    if is_before cls key then cls ∷ (key ∷ keys) else key ∷ insert_before cls keys

abbrev pub insert_class : Bytes → List Bytes → List Bytes
insert_class cls keys = if has_class cls keys then keys else insert_before cls keys

-- `emplace`: a key that is there is left alone. The constructor of a new runner starts a thread,
-- which sets `_running` at some later time.
abbrev pub new_runner : Runner
new_runner = record { running = false; signals = [] }

abbrev pub emplace : Bytes → Runners → Runners
emplace cls rs = if has_runner cls rs then rs else rs ++ (cls, new_runner) ∷ []

-- What the pipe of a runner answers while it has room: it takes the four bytes of a number at once,
-- and then 0 of none. A pipe with no room is left to Runner/Kill.
abbrev pub with_room : List PipeWrite
with_room = wrote 4 ∷ wrote 0 ∷ []

-- Whether these calls put the four bytes of the number into the pipe, and nothing more.
abbrev pub is_number : List KillCall → Bool
is_number (first ∷ last ∷ []) = first.ptr_offset == 0 && (first.n_bytes == 4 && last.n_bytes == 0)
is_number _ = false

-- `CmdQueueRunner::kill`: the signal's number is in the pipe if the calls of `write` put it there.
unfoldable pub kill : ℕ → Runner → Runner
kill sig_num r = elim (write_number r.running with_room) [
  | ok k ↦ if is_number k.calls then record r { signals = r.signals ++ sig_num ∷ [] } else r
  | err e ↦ r
]

-- What the threads have done in the meantime, as far as the manager sees it: which of them have
-- `_running` set.
abbrev pub observe_each : (Bytes → Bool) → Runners → Runners
observe_each running [] = []
observe_each running ((key, r) ∷ rs) =
    (key, record r { running = running key }) ∷ observe_each running rs

unfoldable pub observe : (Bytes → Bool) → Manager → Manager
observe running m = record m {
  nix_cmd_queue_runners = observe_each running m.nix_cmd_queue_runners;
  sql_cmd_queue_runners = observe_each running m.sql_cmd_queue_runners;
}

-- `.at(cls).kill(sig_num)`.
abbrev pub kill_at : Bytes → ℕ → Runners → Runners
kill_at cls sig_num [] = []
kill_at cls sig_num ((key, r) ∷ rs) =
    if bytes_eq key cls then (key, kill sig_num r) ∷ rs else (key, r) ∷ kill_at cls sig_num rs

abbrev pub kill_each : ℕ → Runners → Runners
kill_each sig_num [] = []
kill_each sig_num ((key, r) ∷ rs) = (key, kill sig_num r) ∷ kill_each sig_num rs

unfoldable pub queue_has_runner_already : CmdQueue → Manager → Bool
queue_has_runner_already q m =
    has_runner q.cmd_class_identity m.nix_cmd_queue_runners
    || has_runner q.cmd_class_identity m.sql_cmd_queue_runners

-- The new runner by the queue's template; an unknown template is only logged. The signals that
-- runner threads shall not receive are blocked before and unblocked after.
unfoldable pub add_runner : CmdQueue → Manager → Manager
add_runner q m =
    let m1 = record m { signals_blocked = true } in
    let m2 =
      if bytes_eq q.cmd_signature_class_relname (codes "nix_queue_cmd_template")
      then record m1 {
        nix_cmd_queue_runners = emplace q.cmd_class_identity m1.nix_cmd_queue_runners;
      }
      else if bytes_eq q.cmd_signature_class_relname (codes "sql_queue_cmd_template")
      then record m1 {
        sql_cmd_queue_runners = emplace q.cmd_class_identity m1.sql_cmd_queue_runners;
      }
      else m1 in
    record m2 { signals_blocked = false }

unfoldable pub stop_runner : Bytes → ℕ → Manager → Result Manager
stop_runner cls sig_num m =
    if has_runner cls m.nix_cmd_queue_runners
    then ok (record m { nix_cmd_queue_runners = kill_at cls sig_num m.nix_cmd_queue_runners })
    else if has_runner cls m.sql_cmd_queue_runners
    then ok (record m { sql_cmd_queue_runners = kill_at cls sig_num m.sql_cmd_queue_runners })
    else err runtime_error

-- `sig_num` is `sig_num_received({SIGQUIT, SIGTERM, SIGINT})`.
unfoldable pub stop_all_runners : ℕ → Manager → Manager
stop_all_runners sig_num m = record m {
  nix_cmd_queue_runners = kill_each sig_num m.nix_cmd_queue_runners;
  sql_cmd_queue_runners = kill_each sig_num m.sql_cmd_queue_runners;
}

-- A row of the `SELECT`: the queue, or none if `CmdQueue` found it not valid.
unfoldable pub take_row : Option CmdQueue → Manager → Manager
take_row none m = m
take_row (some q) m =
    let m' = if queue_has_runner_already q m then m else add_runner q m in
    record m' { new_cmd_classes = insert_class q.cmd_class_identity m'.new_cmd_classes }

unfoldable pub take_rows : List (Option CmdQueue) → Manager → Manager
take_rows [] m = m
take_rows (row ∷ rows) m = take_rows rows (take_row row m)

-- `SIGTERM`.
abbrev pub sigterm_num : ℕ
sigterm_num = 15

-- The runners of the old classes that have disappeared are asked to stop.
unfoldable pub stop_disappeared : List Bytes → Manager → Result Manager
stop_disappeared [] m = ok m
stop_disappeared (cls ∷ old) m =
    (if has_class cls m.new_cmd_classes then ok m else stop_runner cls sigterm_num m)
    >>= stop_disappeared old

-- What follows a `SELECT` that gave these rows.
unfoldable pub refresh_with : List (Option CmdQueue) → Manager → Result Manager
refresh_with rows m =
    let m1 = take_rows rows (record m { new_cmd_classes = [] }) in
    stop_disappeared m1.old_cmd_classes m1 >>= λ m2.
    ok (record m2 { old_cmd_classes = m2.new_cmd_classes })

-- A try of the `SELECT`: its rows, or none if it failed; then whether a signal was seen behind the
-- sleep.
pub record SelectTry : Type 0 where
  pub rows : Option (List (Option CmdQueue))
  pub signalled : Bool

-- The retry loop and what follows it; the seconds slept are collected. When the loop ends because
-- the manager shall stop, the last result has no rows.
abbrev pub with_rows : List (Option CmdQueue) → List ℕ → Manager → Result (Manager × List ℕ)
with_rows rows slept m = refresh_with rows m >>= λ m'. ok (m', slept)

-- One try, given what the loop does behind a sleep that no signal interrupted.
unfoldable pub after_try :
    Bool
    → ℕ
    → Option (List (Option CmdQueue))
    → Bool
    → (List ℕ → Result (Manager × List ℕ))
    → List ℕ
    → Manager
    → Result (Manager × List ℕ)
after_try retry_select seconds (some rows) signalled again slept m = with_rows rows slept m
after_try retry_select seconds none signalled again slept m =
    if not retry_select
    then ok (m, slept)
    else if signalled
    then with_rows [] (slept ++ seconds ∷ []) (record m { keep_running = false })
    else again (slept ++ seconds ∷ [])

unfoldable pub refresh_loop :
    Bool → ℕ → List SelectTry → List ℕ → Manager → Result (Manager × List ℕ)
refresh_loop retry_select seconds [] slept m = err out_of_fuel
refresh_loop retry_select seconds (a ∷ tries) slept m =
    after_try retry_select seconds a.rows a.signalled
      (λ slept'. refresh_loop retry_select (next_retry seconds) tries slept' m) slept m

unfoldable pub refresh_queue_list : Bool → List SelectTry → Manager → Result (Manager × List ℕ)
refresh_queue_list retry_select tries m =
    if m.keep_running then refresh_loop retry_select 1 tries [] m else with_rows [] [] m
