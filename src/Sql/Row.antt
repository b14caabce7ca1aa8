-- ===== src/Sql/Row.antt =====
-- The constructor of `SqlQueueCmd` (pg_cmdqd/sqlqueuecmd.cpp) that loads a row of a result.
pub mod Trimmed
use mathlib.Core.List.{append_assoc, append-nil}
use pg_cmd_queue.Base.{
  ℕ, ◌≡◌, ◌≢◌, refl, ap, sym, ◌∙◌, Bool, true, false, not, ◌||◌, Option, none, some, List, [], ◌∷◌,
  ◌++◌, ◌==◌, Bool-cases, inl, inr, Bytes, codes, if◌then◌else◌, Result, ok, err, domain_error,
  ◌>>=◌, arith,
}
use pg_cmd_queue.Pq.Rows.{PgResult, FieldNumbers, value_at, is_null_at}
use pg_cmd_queue.Pq.Load.{Loaded, finished, threw, load, is_exception}
use pg_cmd_queue.Nix.Command.{QueueCmdMetadata}
use pg_cmd_queue.Nix.Row.{metadata_of_row}
use pg_cmd_queue.Sql.Command.{SqlQueueCmd}

-- `[\n\t ]`.
abbrev pub is_space : ℕ → Bool
is_space c = c == b'\n' || (c == b'\t' || c == b' ')

-- What `std::regex_replace` leaves of a text, without a match of `^[\n\t ]+`.
abbrev pub without_leading : Bytes → Bytes
without_leading [] = []
without_leading (c ∷ cs) = if is_space c then without_leading cs else c ∷ cs

-- Without a match of `[\n\t ]+$`.
abbrev pub without_trailing : Bytes → Bytes
without_trailing [] = []
without_trailing (c ∷ cs) = elim (without_trailing cs) [
  | [] ↦ if is_space c then [] else c ∷ []
  | d ∷ ds ↦ c ∷ d ∷ ds
]

unfoldable pub trimmed : Bytes → Bytes
trimmed s = without_trailing (without_leading s)

-- The members' own initial values, with the metadata of the row.
abbrev pub start_cmd : QueueCmdMetadata → SqlQueueCmd
start_cmd meta = record {
  is_valid = false;
  meta = meta;
  cmd_sql = [];
  cmd_sql_result_status = [];
  cmd_sql_fatal_error = none;
  cmd_sql_nonfatal_errors = [];
}

module _ (res : PgResult) (row : ℕ) (numbers : FieldNumbers) where
  -- `if (not meta.is_valid()) _is_valid = false;`
  abbrev pub check_meta : SqlQueueCmd → SqlQueueCmd
  check_meta cmd = if not cmd.meta.is_valid then record cmd { is_valid = false } else cmd

  abbrev pub load_sql : SqlQueueCmd → Result SqlQueueCmd
  load_sql cmd = is_null_at res row numbers (codes "cmd_sql") >>= λ is_null.
      if is_null
      then err domain_error
      else value_at res row numbers (codes "cmd_sql") >>= λ v.
          ok (record cmd { cmd_sql = trimmed v })

  abbrev pub after_cmd : Loaded SqlQueueCmd → Result SqlQueueCmd
  after_cmd (finished cmd) = ok cmd
  after_cmd (threw e cmd) = if is_exception e then ok (record cmd { is_valid = false }) else err e

  unfoldable pub sql_cmd_of_row : Result SqlQueueCmd
  unfolding load
  sql_cmd_of_row = metadata_of_row res row numbers >>= λ meta.
      after_cmd (load (load_sql ∷ []) (check_meta (start_cmd meta)))
