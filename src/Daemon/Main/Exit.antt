-- ===== src/Daemon/Main/Exit.antt =====
-- How the daemon's `main` (pg_cmdqd/pg_cmd_queue_daemon.cpp) ends.
use pg_cmd_queue.Base.{
  ℕ, zero, suc, ◌+◌, not, Bool, true, false, Option, none, some, List, [], ◌∷◌, Bytes,
  if◌then◌else◌, Result, ok, err, runtime_error, ◌>>=◌, ◌≡◌, refl, ◌⊎◌, inl, inr,
}
use pg_cmd_queue.Pq.Rows.{PgResult, FieldNumbers, fnumbers, value_at}
use pg_cmd_queue.Daemon.Options.{
  Options, Parsed, options, help, usage_error, uncaught, read_env, parse_command_line,
}
use pg_cmd_queue.Daemon.Connection.{ConnStatus, Attempt, Connecting, maintain_connection}
use pg_cmd_queue.Daemon.ClassNames.{
  Classes, class_names, select_class_names, get_cmd_class_names, list_queue_names, is_connected,
}
use pg_cmd_queue.Daemon.Listen.{Listened, with_manager}
use pg_cmd_queue.Daemon.Manager.{Manager}
use pg_cmd_queue.Daemon.Main.{
  Surroundings, initial_options, Outcome, usage, ended, exit_code, with_options, print_queues,
  run_list_mode, join_all_threads, with_connection, run_daemon, run, main,
}

-- There is a name, or an error.
abbrev HasNames : Result (List Bytes) → Type 0
HasNames (ok []) = ⊥
HasNames (ok (_ ∷ _)) = Unit
HasNames (err e) = Unit

class_names-HasNames :
    (res : PgResult) (numbers : FieldNumbers) (i n : ℕ)
    → HasNames (class_names res numbers i (suc n))
class_names-HasNames res numbers i n = go (value_at res i numbers _)
  where
    names : (v : Bytes) (r : Result (List Bytes)) → HasNames (r >>= λ rest. ok (v ∷ rest))
    names v (ok rest) = tt
    names v (err e) = tt

    go :
        (r : Result Bytes)
        → HasNames (r >>= λ v. class_names res numbers (i + 1) n >>= λ rest. ok (v ∷ rest))
    go (ok v) = names v _
    go (err e) = tt

select_class_names-HasNames : (c : Classes) → HasNames (select_class_names c)
unfolding fnumbers
select_class_names-HasNames c = go c.n_tuples c.tuples_ok
  where
    go :
        (n : ℕ) (b : Bool)
        → HasNames (elim n [
          | zero ↦ err runtime_error
          | suc k ↦
              if not b
              then err runtime_error
              else class_names c.result (fnumbers c.result) 0 (suc k)
        ])
    go zero b = tt
    go (suc n) true = class_names-HasNames c.result (fnumbers c.result) 0 n
    go (suc n) false = tt

get_cmd_class_names-HasNames :
    (attempts : List Attempt) (conn : Option ConnStatus) (c : Classes)
    → HasNames (get_cmd_class_names attempts conn c)
unfolding get_cmd_class_names
get_cmd_class_names-HasNames attempts conn c = go (maintain_connection true attempts conn)
  where
    at_status : (b : Bool) → HasNames (if b then select_class_names c else err runtime_error)
    at_status true = select_class_names-HasNames c
    at_status false = tt

    go :
        (r : Result Connecting)
        → HasNames
            (r >>= λ c'. if is_connected c'.conn then select_class_names c else err runtime_error)
    go (ok c') = at_status (is_connected c'.conn)
    go (err e) = tt

-- The exit code 2 is for the usage, and each other is 0.
abbrev pub Succeeded : Result Outcome → Type 0
Succeeded (ok out) = exit_code out ≡ 0
Succeeded (err e) = Unit

abbrev pub SucceededOrUsage : Result Outcome → Type 0
SucceededOrUsage (ok out) = (exit_code out ≡ 0) ⊎ (out ≡ usage 2)
SucceededOrUsage (err e) = Unit

run_list_mode-Succeeded : (s : Surroundings) → Succeeded (run_list_mode s)
unfolding run_list_mode list_queue_names
run_list_mode-Succeeded s =
    go (get_cmd_class_names s.attempts none s.classes)
      (get_cmd_class_names-HasNames s.attempts none s.classes)
  where
    go :
        (r : Result (List Bytes))
        → HasNames r
        → Succeeded (r >>= λ queues. ok (print_queues queues))
    go (ok []) h = absurd h
    go (ok (_ ∷ _)) h = refl
    go (err e) h = tt

run_daemon-Succeeded : (s : Surroundings) (o : Options) → Succeeded (run_daemon s o)
unfolding run_daemon
run_daemon-Succeeded s o = go (maintain_connection false s.attempts none)
  where
    joined :
        (l : Listened) (r : Result Manager) → Succeeded (r >>= λ m. ok (ended (with_manager l m)))
    joined l (ok m) = refl
    joined l (err e) = tt

    listened :
        (r : Result Listened)
        → Succeeded (
            r >>= λ l.
            join_all_threads s.thread_ends l.manager >>= λ m. ok (ended (with_manager l m)))
    listened (ok l) = joined l (join_all_threads s.thread_ends l.manager)
    listened (err e) = tt

    connected : (c : Option ConnStatus) → Succeeded (with_connection s o c)
    connected none = tt
    connected (some status) = listened _

    go : (r : Result Connecting) → Succeeded (r >>= λ c. with_connection s o c.conn)
    go (ok c) = connected c.conn
    go (err e) = tt

run-Succeeded : (s : Surroundings) (o : Options) → Succeeded (run s o)
run-Succeeded s o = go o.list_mode
  where
    go : (b : Bool) → Succeeded (if b then run_list_mode s else run_daemon s o)
    go true = run_list_mode-Succeeded s
    go false = run_daemon-Succeeded s o

weaken : (r : Result Outcome) → Succeeded r → SucceededOrUsage r
weaken (ok out) h = inl h
weaken (err e) h = tt

with_options-SucceededOrUsage :
    (parsed : Parsed) (k : Options → Result Outcome)
    → ((o : Options) → SucceededOrUsage (k o))
    → SucceededOrUsage (with_options parsed k)
with_options-SucceededOrUsage (options o) k h = h o
with_options-SucceededOrUsage help k h = inl refl
with_options-SucceededOrUsage usage_error k h = inr refl
with_options-SucceededOrUsage uncaught k h = tt

-- A program that is not ended by an exception exits with 0, or with 2 behind the usage. So 66, for
-- a list of queues that is empty, is never its exit code.
pub main_exit_codes : (s : Surroundings) (args : List Bytes) → SucceededOrUsage (main s args)
unfolding main
main_exit_codes s args =
    with_options-SucceededOrUsage (read_env s.log_level s.log_times initial_options)
      (λ o. with_options (parse_command_line args o) (run s))
      (λ o.
        with_options-SucceededOrUsage (parse_command_line args o) (run s)
          (λ o'. weaken (run s o') (run-Succeeded s o')))
