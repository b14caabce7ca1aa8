-- ===== src/Nix/Row.antt =====
-- The constructors of `QueueCmdMetadata` (pg_cmdqd/queuecmdmetadata.cpp) and of `NixQueueCmd`
-- (pg_cmdqd/nixqueuecmd.cpp) that load a row of a result.
pub mod RoundTrip
use pg_cmd_queue.Base.{
  ℕ, Bool, true, false, Option, none, some, List, [], ◌∷◌, Bytes, codes, if◌then◌else◌, Result, ok,
  err, runtime_error, domain_error, ◌>>=◌,
}
use pg_cmd_queue.Pq.Rows.{PgResult, FieldNumbers, value_at, nullable_at, is_null_at}
use pg_cmd_queue.Pq.Load.{Loaded, finished, threw, load, is_exception}
use pg_cmd_queue.Text.Array.{from_text_array}
use pg_cmd_queue.Text.Hstore.{Hstore, from_text_hstore}
use pg_cmd_queue.Nix.Command.{QueueCmdMetadata, NixQueueCmd, new_metadata, new_nix_queue_cmd}

-- `throw_if_missing_any_value`. Each key is there once, so each assignment adds a pair.
unfoldable pub throw_if_missing_any_value : Hstore → Result (List (Bytes × Bytes))
throw_if_missing_any_value [] = ok []
throw_if_missing_any_value ((key, none) ∷ m) = err runtime_error
throw_if_missing_any_value ((key, some value) ∷ m) =
    throw_if_missing_any_value m >>= λ rest. ok ((key, value) ∷ rest)

module _ (res : PgResult) (row : ℕ) (numbers : FieldNumbers) where
  abbrev pub load_identity : QueueCmdMetadata → Result QueueCmdMetadata
  load_identity meta = value_at res row numbers (codes "cmd_class_identity") >>= λ v.
      ok (record meta { cmd_class_identity = v })

  abbrev pub load_relname : QueueCmdMetadata → Result QueueCmdMetadata
  load_relname meta = value_at res row numbers (codes "cmd_class_relname") >>= λ v.
      ok (record meta { cmd_class_relname = v })

  abbrev pub load_id : QueueCmdMetadata → Result QueueCmdMetadata
  load_id meta = value_at res row numbers (codes "cmd_id") >>= λ v. ok (record meta { cmd_id = v })

  abbrev pub load_subid : QueueCmdMetadata → Result QueueCmdMetadata
  load_subid meta =
      nullable_at res row numbers (codes "cmd_subid") >>= λ v. ok (record meta { cmd_subid = v })

  -- What stands behind the `try` and in the `catch`; what is no exception ends the program.
  abbrev pub after_metadata : Loaded QueueCmdMetadata → Result QueueCmdMetadata
  after_metadata (finished meta) = ok (record meta { is_valid = true })
  after_metadata (threw e meta) =
      if is_exception e then ok (record meta { is_valid = false }) else err e

  unfoldable pub metadata_of_row : Result QueueCmdMetadata
  unfolding new_metadata load
  metadata_of_row =
      after_metadata (
        load (load_identity ∷ load_relname ∷ load_id ∷ load_subid ∷ [])
          (new_metadata [] [] [] none))

  abbrev pub load_argv : NixQueueCmd → Result NixQueueCmd
  load_argv cmd = is_null_at res row numbers (codes "cmd_argv") >>= λ is_null.
      if is_null
      then err domain_error
      else value_at res row numbers (codes "cmd_argv") >>= λ raw_cmd_argv.
          from_text_array raw_cmd_argv >>= λ argv. ok (record cmd { cmd_argv = argv })

  abbrev pub load_env : NixQueueCmd → Result NixQueueCmd
  load_env cmd = is_null_at res row numbers (codes "cmd_env") >>= λ is_null.
      if is_null
      then err domain_error
      else value_at res row numbers (codes "cmd_env") >>= λ raw_cmd_env.
          from_text_hstore raw_cmd_env >>= λ m.
          throw_if_missing_any_value m >>= λ env. ok (record cmd { cmd_env = env })

  abbrev pub load_stdin : NixQueueCmd → Result NixQueueCmd
  load_stdin cmd =
      value_at res row numbers (codes "cmd_stdin") >>= λ v. ok (record cmd { cmd_stdin = v })

  abbrev pub after_cmd : Loaded NixQueueCmd → Result NixQueueCmd
  after_cmd (finished cmd) = ok (record cmd { is_valid = true })
  after_cmd (threw e cmd) = if is_exception e then ok (record cmd { is_valid = false }) else err e

  unfoldable pub nix_cmd_of_row : Result NixQueueCmd
  unfolding new_nix_queue_cmd load
  nix_cmd_of_row = metadata_of_row >>= λ meta. after_cmd (
      load (load_argv ∷ load_env ∷ load_stdin ∷ [])
        (record (new_nix_queue_cmd [] [] [] none [] [] []) { meta = meta }))
