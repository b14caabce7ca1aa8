-- ===== src/Nix/Command.antt =====
-- The data of `NixQueueCmd` and of its `QueueCmdMetadata` (pg_cmdqd/queuecmdmetadata.h), and the
-- parameters of the `UPDATE`. A time is a number of microseconds, the unit of the clock that
-- `unix_timestamp` reads. `cmd_queued_since`, which nothing sets or reads, is left out, and where the constructor leaves a time unset it is 0.
use pg_cmd_queue.Base.{
  ℕ, zero, ℤ, pos, negsuc, Bool, true, false, Option, none, some, List, [], ◌∷◌, Bytes, length, ltb,
  if◌then◌else◌, ◌%◌, ◌-◌,
}

pub record QueueCmdMetadata : Type 0 where
  pub cmd_class_identity : Bytes
  pub cmd_class_relname : Bytes
  pub cmd_id : Bytes
  pub cmd_subid : Option Bytes
  pub cmd_runtime_start : ℕ
  pub cmd_runtime_end : ℕ
  pub is_valid : Bool

unfoldable pub stamp_start_time : ℕ → QueueCmdMetadata → QueueCmdMetadata
stamp_start_time now meta = record meta { cmd_runtime_start = now }

unfoldable pub stamp_end_time : ℕ → QueueCmdMetadata → QueueCmdMetadata
stamp_end_time now meta = record meta { cmd_runtime_end = now }

pub record NixQueueCmd : Type 0 where
  pub is_valid : Bool
  pub flush_stderr_pos : ℕ
  pub meta : QueueCmdMetadata
  pub cmd_argv : List Bytes
  pub cmd_env : List (Bytes × Bytes)
  pub cmd_stdin : Bytes
  pub cmd_term_sig : Option ℤ
  pub cmd_exit_code : Option ℕ
  pub cmd_stdout : Bytes
  pub cmd_stderr : Bytes

-- The constructors that take the fields; neither sets `_is_valid`.
unfoldable pub new_metadata : Bytes → Bytes → Bytes → Option Bytes → QueueCmdMetadata
new_metadata identity relname cmd_id cmd_subid = record {
  cmd_class_identity = identity;
  cmd_class_relname = relname;
  cmd_id = cmd_id;
  cmd_subid = cmd_subid;
  cmd_runtime_start = 0;
  cmd_runtime_end = 0;
  is_valid = false;
}

unfoldable pub new_nix_queue_cmd :
    Bytes → Bytes → Bytes → Option Bytes → List Bytes → List (Bytes × Bytes) → Bytes → NixQueueCmd
new_nix_queue_cmd identity relname cmd_id cmd_subid argv env stdin = record {
  is_valid = false;
  flush_stderr_pos = 0;
  meta = new_metadata identity relname cmd_id cmd_subid;
  cmd_argv = argv;
  cmd_env = env;
  cmd_stdin = stdin;
  cmd_term_sig = none;
  cmd_exit_code = none;
  cmd_stdout = [];
  cmd_stderr = [];
}

-- `queue_cmd.meta.stamp_start_time()` and its counterpart.
abbrev pub started : ℕ → NixQueueCmd → NixQueueCmd
started now cmd = record cmd { meta = stamp_start_time now cmd.meta }

abbrev pub ended : ℕ → NixQueueCmd → NixQueueCmd
ended now cmd = record cmd { meta = stamp_end_time now cmd.meta }

abbrev pub is_zero : Option ℕ → Bool
is_zero (some zero) = true
is_zero _ = false

unfoldable pub cmd_succeeded : NixQueueCmd → Bool
cmd_succeeded cmd = is_zero cmd.cmd_exit_code

-- `formatString("%f", …)` of a time and `PQ::as_text` of an `int` are the C library's printing.
module _ (format_time : ℕ → Bytes) (to_string : ℤ → Bytes) where
  abbrev pub as_text : Option ℤ → Option Bytes
  as_text none = none
  as_text (some i) = some (to_string i)

  abbrev pub code_text : Option ℕ → Option Bytes
  code_text none = none
  code_text (some i) = some (to_string (pos i))

  unfoldable pub update_params : NixQueueCmd → List (Option Bytes)
  update_params cmd =
      some cmd.meta.cmd_id
      ∷ cmd.meta.cmd_subid
      ∷ some (format_time cmd.meta.cmd_runtime_start)
      ∷ some (format_time cmd.meta.cmd_runtime_end)
      ∷ code_text cmd.cmd_exit_code
      ∷ as_text cmd.cmd_term_sig
      ∷ some cmd.cmd_stdout
      ∷ some cmd.cmd_stderr
      ∷ []

-- `(const int)` of a `size_t`: 32 bits, the upper half of which are the negative numbers.
unfoldable pub as_int : ℕ → ℤ
as_int n =
    let bits = n % 4294967296 in
    if ltb bits 2147483648 then pos bits else negsuc (4294967295 - bits)

unfoldable pub update_param_lengths : NixQueueCmd → List ℤ
update_param_lengths cmd =
    negsuc 0
    ∷ negsuc 0
    ∷ negsuc 0
    ∷ negsuc 0
    ∷ negsuc 0
    ∷ negsuc 0
    ∷ as_int (length cmd.cmd_stdout)
    ∷ as_int (length cmd.cmd_stderr)
    ∷ []

unfoldable pub update_param_formats : List ℕ
update_param_formats = 0 ∷ 0 ∷ 0 ∷ 0 ∷ 0 ∷ 0 ∷ 1 ∷ 1 ∷ []
