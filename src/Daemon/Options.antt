-- ===== src/Daemon/Options.antt =====
-- The environment and the arguments that `main` of pg_cmdqd/pg_cmd_queue_daemon.cpp reads. The
-- logger's level and `logTimes` are part of what is read.
pub mod Render
use pg_cmd_queue.Base.{
  ℕ, Bool, true, false, not, ◌||◌, Option, none, some, List, [], ◌∷◌, ◌++◌, Bytes, bytes_eq, codes,
  if◌then◌else◌, ◌≡◌, refl, ap, ◌∙◌, arith,
}
use pg_cmd_queue.Logger.{LogLevel, string_to_log_level, normalize_log_level, get_log_level_string}

pub record Options : Type 0 where
  pub log_level : LogLevel
  pub log_times : Bool
  pub explicit_cmd_classes : List Bytes
  pub conn_str : Bytes
  pub emit_sigusr1_when_ready : Bool
  pub list_mode : Bool

-- `help`: the usage, and exit with success. `usage_error`: a `CmdLineParseError` that is caught, and
-- exit with 2. `uncaught`: one that is not.
pub data Parsed : Type 0 where
  options : Options → Parsed
  help usage_error uncaught : Parsed

-- `PG_CMDQD_LOG_LEVEL`; it is normalized before the test for the empty string.
abbrev log_level_from_env : Option Bytes → Bytes
log_level_from_env none = []
log_level_from_env (some s) = normalize_log_level s

abbrev is_yes : Option Bytes → Bool
is_yes none = false
is_yes (some s) =
    bytes_eq s (codes "true")
    || (bytes_eq s (codes "TRUE") || (bytes_eq s (codes "yes") || bytes_eq s (codes "YES")))

abbrev with_log_times : Option Bytes → Options → Options
with_log_times log_times o = if is_yes log_times then record o { log_times = true } else o

-- An unknown level throws a `CmdLineParseError`, and the handler is for `CmdEnvParseError`.
unfoldable pub read_env : Option Bytes → Option Bytes → Options → Parsed
read_env log_level log_times o =
    let s = log_level_from_env log_level in
    if bytes_eq s [] then options (with_log_times log_times o) else elim (string_to_log_level s) [
      | none ↦ uncaught
      | some level ↦ options (with_log_times log_times (record o { log_level = level }))
    ]

abbrev pub is_help : Bytes → Bool
is_help arg = bytes_eq arg (codes "--help") || bytes_eq arg (codes "-h")

-- The options that have no argument.
abbrev pub flag : Bytes → Options → Option Options
flag arg o =
    if bytes_eq arg (codes "--emit-sigusr1-when-ready")
    then some (record o { emit_sigusr1_when_ready = true })
    else if bytes_eq arg (codes "--list-queue-names")
    then some (record o { list_mode = true })
    else if bytes_eq arg (codes "--log-times")
    then some (record o { log_times = true })
    else if bytes_eq arg (codes "--no-log-times")
    then some (record o { log_times = false })
    else none

-- The loop over the arguments; `argv1` is `argv[1]`, which the last argument's branch appends.
unfoldable pub parse_args : Bytes → List Bytes → Options → Parsed
parse_args argv1 [] o = options o
parse_args argv1 (arg ∷ []) o =
    if is_help arg
    then help
    else if bytes_eq arg (codes "--log-level") || bytes_eq arg (codes "--cmd-queue")
    then usage_error
    else elim (flag arg o) [
      | some o' ↦ options o'
      | none ↦ options (record o { conn_str = o.conn_str ++ argv1 })
    ]
parse_args argv1 (arg ∷ next ∷ args) o =
    if is_help arg
    then help
    else if bytes_eq arg (codes "--log-level")
    then elim (string_to_log_level (normalize_log_level next)) [
      | none ↦ usage_error
      | some level ↦ parse_args argv1 args (record o { log_level = level })
    ]
    else if bytes_eq arg (codes "--cmd-queue")
    then parse_args argv1 args
        (record o { explicit_cmd_classes = o.explicit_cmd_classes ++ next ∷ [] })
    else elim (flag arg o) [ some o' ↦ parse_args argv1 (next ∷ args) o' | none ↦ usage_error ]

unfoldable pub parse_command_line : List Bytes → Options → Parsed
parse_command_line [] o = options o
parse_command_line (argv1 ∷ args) o = parse_args argv1 (argv1 ∷ args) o
