-- ===== src/Tests/Daemon.antt =====
-- The theorems on the runner manager and the daemon's options at concrete inputs.
use pg_cmd_queue.Base.{
  true, false, none, some, [], ◌∷◌, codes, ok, err, runtime_error, ◌>>=◌, ◌≡◌, refl,
}
use pg_cmd_queue.Logger.{info, debug5, get_log_level_string}
use pg_cmd_queue.Daemon.Manager.{CmdQueue, Manager, refresh_with}
use pg_cmd_queue.Daemon.Manager.Refresh.{AllHaveRunners, refresh_with-AllHaveRunners}
use pg_cmd_queue.Daemon.Manager.Orphans.{refresh_with_unknown_template}
use pg_cmd_queue.Daemon.Options.{Options, options, parse_command_line}
use pg_cmd_queue.Daemon.Options.Render.{
  log_level_, cmd_queue, no_log_times, parse_command_line-render,
}

abbrev nix_queue : CmdQueue
nix_queue = record {
  cmd_class_identity = codes "a";
  cmd_signature_class_relname = codes "nix_queue_cmd_template";
}

abbrev sql_queue : CmdQueue
sql_queue = record {
  cmd_class_identity = codes "b";
  cmd_signature_class_relname = codes "sql_queue_cmd_template";
}

abbrev http_queue : CmdQueue
http_queue = record {
  cmd_class_identity = codes "c";
  cmd_signature_class_relname = codes "http_queue_cmd_template";
}

abbrev empty : Manager
empty = record {
  nix_cmd_queue_runners = [];
  sql_cmd_queue_runners = [];
  old_cmd_classes = [];
  new_cmd_classes = [];
  keep_running = true;
  signals_blocked = false;
}

-- A manager of one queue whose runner's thread has ended.
abbrev with_ended : Manager
with_ended = record empty {
  nix_cmd_queue_runners = (codes "a", record { running = false; signals = [] }) ∷ [];
  old_cmd_classes = codes "a" ∷ [];
  new_cmd_classes = codes "a" ∷ [];
}

refresh_with-AllHaveRunners_example :
    (m : Manager) × (refresh_with
        (some sql_queue ∷ none ∷ some nix_queue ∷ some sql_queue ∷ [])
        with_ended
      ≡ ok m)
    × (m.old_cmd_classes ≡ codes "a" ∷ codes "b" ∷ [])
    × AllHaveRunners m.old_cmd_classes m
refresh_with-AllHaveRunners_example =
    refresh_with-AllHaveRunners (some sql_queue ∷ none ∷ some nix_queue ∷ some sql_queue ∷ [])
      with_ended (refl, (refl, (refl, tt))) (refl, tt)

refresh_with_unknown_template_example :
    refresh_with (some http_queue ∷ []) empty >>= refresh_with (some nix_queue ∷ [])
    ≡ err runtime_error
refresh_with_unknown_template_example =
    refresh_with_unknown_template http_queue (some nix_queue ∷ []) empty refl refl refl (refl, tt)

abbrev defaults : Options
defaults = record {
  log_level = info;
  log_times = true;
  explicit_cmd_classes = [];
  conn_str = [];
  emit_sigusr1_when_ready = false;
  list_mode = false;
}

parse_command_line-render_example :
    parse_command_line
      (codes "--log-level"
        ∷ get_log_level_string debug5
        ∷ codes "--cmd-queue"
        ∷ codes "a"
        ∷ codes "--no-log-times"
        ∷ codes "dbname=x"
        ∷ [])
      defaults
    ≡ options (record defaults {
      log_level = debug5;
      log_times = false;
      explicit_cmd_classes = codes "a" ∷ [];
      conn_str = codes "--log-level";
    })
parse_command_line-render_example =
    parse_command_line-render (log_level_ debug5 ∷ cmd_queue (codes "a") ∷ no_log_times ∷ [])
      (codes "dbname=x") defaults refl
