-- ===== src/Tests/Queues.antt =====
-- The theorem on the loading of a queue at a concrete row.
use pg_cmd_queue.Base.{
  ℕ, Bool, ◌==◌, ◌||◌, ◌≡◌, refl, false, none, some, List, [], ◌∷◌, Bytes, codes, Result, ok, err,
  invalid_argument, Fault, pos,
}
use pg_cmd_queue.Pq.Rows.{PgResult, FieldNumbers, value_at, nullable_at, is_null_at}
use pg_cmd_queue.Daemon.Queue.{CmdQueue, queue_of_row}
use pg_cmd_queue.Daemon.Queue.Columns.{QueueTexts, QueueRow}
use pg_cmd_queue.Daemon.Queue.Read.{queue_of_texts, IsRead, queue_of_row-IsRead}
use pg_cmd_queue.Tests.Rows.{nth}

abbrev texts : QueueTexts
texts = record {
  identity = codes "q";
  relname = codes "q";
  signature = codes "nix_queue_cmd_template";
  role = none;
  channel = some (codes "cmdq");
  interval = codes "many";
  every_nth = none;
  timeout = some (codes "1.5");
  color = codes "[34m";
}

abbrev values : List Bytes
values =
    texts.identity
    ∷ texts.relname
    ∷ texts.signature
    ∷ []
    ∷ codes "cmdq"
    ∷ texts.interval
    ∷ []
    ∷ codes "1.5"
    ∷ texts.color
    ∷ []

abbrev is_null : ℕ → Bool
is_null n = n == 3 || n == 6

abbrev numbers : FieldNumbers
numbers =
    (codes "cmd_class_identity", 0)
    ∷ (codes "cmd_class_relname", 1)
    ∷ (codes "cmd_signature_class_relname", 2)
    ∷ (codes "queue_runner_role", 3)
    ∷ (codes "queue_notify_channel", 4)
    ∷ (codes "queue_reselect_interval_msec", 5)
    ∷ (codes "queue_reselect_randomized_every_nth", 6)
    ∷ (codes "queue_cmd_timeout_sec", 7)
    ∷ (codes "ansi_fg", 8)
    ∷ []

abbrev res : PgResult
res = record {
  n_fields = 9;
  field_name = λ n. [];
  value = λ row n. nth values n;
  is_null = λ row n. is_null n;
}

queue_row : QueueRow res 0 numbers texts
unfolding value_at nullable_at is_null_at
queue_row = record {
  identity_column = refl;
  relname_column = refl;
  signature_column = refl;
  role_column = refl;
  channel_column = refl;
  interval_column = refl;
  every_nth_column = refl;
  timeout_column = (refl, refl);
  color_column = refl;
}

-- A `double` is a number of tenths here, and no text is one.
abbrev stod : Bytes → Result ℕ
stod text = err invalid_argument

abbrev message : Bytes → Fault → Bytes
message identity e = codes "no queue"

abbrev unset : CmdQueue ℕ
unset = record {
  is_valid = false;
  validation_error_message = [];
  cmd_class_identity = [];
  cmd_class_relname = [];
  cmd_signature_class_relname = [];
  queue_runner_role = none;
  queue_notify_channel = none;
  queue_reselect_interval_msec = pos 0;
  queue_reselect_randomized_every_nth = none;
  queue_cmd_timeout_sec = 0;
  ansi_fg = [];
}

-- The interval is no number.
queue_of_row-IsRead_example :
    (d : CmdQueue ℕ) × (queue_of_row stod 0 message res 0 numbers unset ≡ ok d)
    × IsRead stod 0 message texts (queue_of_texts stod 0 message texts unset) d
queue_of_row-IsRead_example =
    queue_of_row-IsRead stod 0 message res 0 numbers texts unset (λ s. refl) queue_row
