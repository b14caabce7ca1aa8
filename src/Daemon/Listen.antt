-- ===== src/Daemon/Listen.antt =====
-- `CmdQueueRunnerManager::listen_for_queue_list_changes` (pg_cmdqd/cmdqueuerunnermanager.cpp), and
-- how `main` (pg_cmdqd/pg_cmd_queue_daemon.cpp) calls the manager's functions. What libpq and the
-- kernel answer in each turn of the loop is a `ListenTurn`.
pub mod Payloads
pub mod Listed
pub mod Killed
pub mod Whole
use pg_cmd_queue.Base.{
  ℕ, ◌+◌, Bool, true, false, not, ◌&&◌, ◌||◌, Option, none, some, List, [], ◌∷◌, Bytes, bytes_eq,
  codes, if◌then◌else◌, Result, ok, err, out_of_range, out_of_fuel, ◌>>=◌,
}
use pg_cmd_queue.Text.Composite.{from_text_composite_value}
use pg_cmd_queue.Daemon.Manager.{Manager, SelectTry, observe, refresh_queue_list, stop_all_runners}

-- `payload_fields.at(i) == text`, of a field that is there.
abbrev pub is_text : Bytes → Option Bytes → Bool
is_text text none = false
is_text text (some field) = bytes_eq field text

abbrev pub is_change : Option Bytes → Bool
is_change field =
    is_text (codes "INSERT") field
    || (is_text (codes "UPDATE") field || is_text (codes "DELETE") field)

-- The test on the fields; `at` throws if the field is not there, and the third is looked at only if
-- the first is the one.
unfoldable pub is_queue_change : List (Option Bytes) → Result Bool
is_queue_change [] = err out_of_range
is_queue_change (cls ∷ _ ∷ op ∷ _) = ok (is_text (codes "cmd_queue") cls && is_change op)
is_queue_change (cls ∷ _) = if is_text (codes "cmd_queue") cls then err out_of_range else ok false

-- A pending `NOTIFY`: its payload, and what a refresh then meets.
pub record Notification : Type 0 where
  pub extra : Bytes
  pub tries : List SelectTry

-- The seconds that a refresh sleeps are left out.
abbrev pub refreshed : Bool → List SelectTry → Manager → Result Manager
refreshed retry_select tries m = refresh_queue_list retry_select tries m >>= λ (m', slept). ok m'

-- Nothing catches what the parsing throws.
unfoldable pub take_notification : Notification → Manager → Result Manager
take_notification n m = from_text_composite_value n.extra >>= λ payload_fields.
    is_queue_change payload_fields >>= λ is_change.
    if is_change then refreshed true n.tries m else ok m

unfoldable pub take_notifications : List Notification → Manager → Result Manager
take_notifications [] m = ok m
take_notifications (n ∷ ns) m =
    if m.keep_running then take_notification n m >>= take_notifications ns else ok m

-- What a `read` from the kill pipe gives: some bytes, none, `EINTR` or another error.
pub data ReadAnswer : Type 0 where
  got : ℕ → ReadAnswer
  nothing read_interrupted read_failed : ReadAnswer

-- `while ((n = read(…)) != 0)`: the bytes read, whatever their number.
unfoldable pub read_signal : List ReadAnswer → ℕ → Result ℕ
read_signal [] bytes_read = err out_of_fuel
read_signal (got n ∷ answers) bytes_read = read_signal answers (bytes_read + n)
read_signal (nothing ∷ answers) bytes_read = ok bytes_read
read_signal (read_interrupted ∷ answers) bytes_read = read_signal answers bytes_read
read_signal (read_failed ∷ answers) bytes_read = ok bytes_read

-- What a turn meets: a `poll` that fails, the descriptors that are ready (the notifications if the
-- connection's is, what is read if the pipe's is), or runner threads that have set `_running`.
pub data ListenTurn : Type 0 where
  poll_interrupted poll_failed : ListenTurn
  threads : (Bytes → Bool) → ListenTurn
  ready : Option (List Notification) → Option (List ReadAnswer) → ListenTurn

abbrev pub on_conn : Option (List Notification) → Manager → Result Manager
on_conn none m = ok m
on_conn (some ns) m = take_notifications ns m

abbrev pub on_kill_pipe : Option (List ReadAnswer) → Manager → Result Manager
on_kill_pipe none m = ok m
on_kill_pipe (some answers) m =
    read_signal answers 0 >>= λ n. ok (record m { keep_running = false })

-- `while (_keep_running)`. The turns that are needed end at a signal or at a failed `poll`.
unfoldable pub listen_loop : List ListenTurn → Manager → Result Manager
listen_loop [] m = if m.keep_running then err out_of_fuel else ok m
listen_loop (poll_interrupted ∷ turns) m =
    let rest = listen_loop turns m in if m.keep_running then rest else ok m
listen_loop (threads running ∷ turns) m =
    let rest = listen_loop turns (observe running m) in if m.keep_running then rest else ok m
listen_loop (poll_failed ∷ turns) m = ok m
listen_loop (ready notifications answers ∷ turns) m =
    if m.keep_running
    then on_conn notifications m >>= on_kill_pipe answers >>= listen_loop turns
    else ok m

-- The manager, `_emitted_sigusr1_yet`, and the `SIGUSR1`s sent to the parent.
pub record Listened : Type 0 where
  pub manager : Manager
  pub emitted : Bool
  pub sigusr1_sent : ℕ

-- Whether `LISTEN` succeeded, and whether the connection has a socket.
pub record Listening : Type 0 where
  pub listen_ok : Bool
  pub has_socket : Bool
  pub turns : List ListenTurn

abbrev pub emit_sigusr1 : Bool → Listened → Listened
emit_sigusr1 emit_sigusr1_when_ready l =
    if emit_sigusr1_when_ready && not l.emitted
    then record l { emitted = true; sigusr1_sent = l.sigusr1_sent + 1 }
    else l

abbrev pub with_manager : Listened → Manager → Listened
with_manager l m = record l { manager = m }

unfoldable pub listen_for_queue_list_changes : Bool → Listening → Listened → Result Listened
listen_for_queue_list_changes emit_sigusr1_when_ready listening l =
    if not listening.listen_ok
    then ok l
    else let l1 = emit_sigusr1 emit_sigusr1_when_ready l in
      if not listening.has_socket
      then ok l1
      else listen_loop listening.turns l1.manager >>= λ m. ok (with_manager l1 m)

-- What `main` does with the manager once there is a connection, up to the joining of the threads:
-- the first refresh does not try again; `sig_num` is what `sig_num_received` gives at the end, and
-- `running` which threads have `_running` set by then.
unfoldable pub main_run :
    Bool → List SelectTry → Listening → ℕ → (Bytes → Bool) → Manager → Result Listened
main_run emit_sigusr1_when_ready tries listening sig_num running m =
    refreshed false tries m >>= λ m1.
    listen_for_queue_list_changes emit_sigusr1_when_ready listening
      (record { manager = m1; emitted = false; sigusr1_sent = 0 })
    >>= λ l. ok (with_manager l (stop_all_runners sig_num (observe running l.manager)))
