-- ===== src/Tests/Listen.antt =====
-- The theorems on the daemon's main thread at concrete inputs.
use pg_cmd_queue.Base.{◌≡◌, refl, true, false, none, some, List, [], ◌∷◌, codes, arith}
use pg_cmd_queue.Daemon.Manager.{CmdQueue, Manager, SelectTry}
use pg_cmd_queue.Daemon.Listen.{
  Notification, ReadAnswer, got, nothing, read_interrupted, ListenTurn, poll_interrupted, ready,
  Listening, refreshed, take_notification, main_run,
}
use pg_cmd_queue.Daemon.Listen.Whole.{Ended, main_run-Ended}
use pg_cmd_queue.Daemon.Listen.Payloads.{take_notification-payload}

abbrev pub nix_queue : CmdQueue
nix_queue = record {
  cmd_class_identity = codes "a";
  cmd_signature_class_relname = codes "nix_queue_cmd_template";
}

abbrev pub sql_queue : CmdQueue
sql_queue = record {
  cmd_class_identity = codes "b";
  cmd_signature_class_relname = codes "sql_queue_cmd_template";
}

abbrev empty : Manager
empty = record {
  nix_cmd_queue_runners = [];
  sql_cmd_queue_runners = [];
  old_cmd_classes = [];
  new_cmd_classes = [];
  keep_running = true;
  signals_blocked = false;
}

-- First one queue is there, and behind a failed `SELECT` two.
abbrev one_queue : List SelectTry
one_queue = record { rows = some (some nix_queue ∷ []); signalled = false } ∷ []

abbrev two_queues : List SelectTry
two_queues =
    record { rows = none; signalled = false }
    ∷ record { rows = some (some sql_queue ∷ some nix_queue ∷ []); signalled = false }
    ∷ []

abbrev inserted : Notification
inserted = record { extra = codes "(cmd_queue,b,INSERT)"; tries = two_queues }

-- A signal's number comes in two pieces.
abbrev pub pieces : List ReadAnswer
pieces = got 3 ∷ read_interrupted ∷ got 1 ∷ []

abbrev pub signal : ListenTurn
signal = ready none (some (got 3 ∷ read_interrupted ∷ got 1 ∷ nothing ∷ []))

abbrev listening : Listening
listening = record {
  listen_ok = true;
  has_socket = true;
  turns = poll_interrupted ∷ ready (some (inserted ∷ [])) none ∷ signal ∷ [];
}

main_run-Ended_example : Ended 15 (main_run true one_queue listening 15 (λ cls. true) empty)
main_run-Ended_example =
    main_run-Ended true one_queue listening 15 (λ cls. true) empty (ground arith) (ground arith) tt
      (λ cls. refl)

take_notification-payload_example :
    take_notification inserted empty ≡ refreshed true two_queues empty
take_notification-payload_example =
    take_notification-payload (codes "cmd_queue") (codes "b") (some (codes "INSERT")) two_queues
      empty (ground arith)
