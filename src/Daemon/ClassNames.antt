-- ===== src/Daemon/ClassNames.antt =====
-- `CmdQueueRunnerManager::get_cmd_class_names` (pg_cmdqd/cmdqueuerunnermanager.cpp), and the list
-- mode of `main` (pg_cmdqd/pg_cmd_queue_daemon.cpp).
use pg_cmd_queue.Base.{
  ℕ, zero, suc, ◌+◌, Bool, true, false, not, Option, none, some, List, [], ◌∷◌, ◌++◌, Bytes, codes,
  if◌then◌else◌, Result, ok, err, runtime_error, ◌>>=◌,
}
use pg_cmd_queue.Pq.Rows.{PgResult, FieldNumbers, fnumbers, value_at}
use pg_cmd_queue.Daemon.Connection.{ConnStatus, Attempt, is_ok, maintain_connection}

-- What the `SELECT` gives: whether its status is good, its number of rows, and the result.
pub record Classes : Type 0 where
  pub tuples_ok : Bool
  pub n_tuples : ℕ
  pub result : PgResult

-- The rows from `i` on, `n` of them.
abbrev pub class_names : PgResult → FieldNumbers → ℕ → ℕ → Result (List Bytes)
class_names res numbers i zero = ok []
class_names res numbers i (suc n) = value_at res i numbers (codes "cmd_class") >>= λ v.
    class_names res numbers (i + 1) n >>= λ names. ok (v ∷ names)

abbrev pub is_connected : Option ConnStatus → Bool
is_connected none = false
is_connected (some status) = is_ok status

-- No row is an error before the status is looked at.
abbrev pub select_class_names : Classes → Result (List Bytes)
unfolding fnumbers
select_class_names c = elim c.n_tuples [
  | zero ↦ err runtime_error
  | suc n ↦
      if not c.tuples_ok
      then err runtime_error
      else class_names c.result (fnumbers c.result) 0 (suc n)
]

unfoldable pub get_cmd_class_names :
    List Attempt → Option ConnStatus → Classes → Result (List Bytes)
get_cmd_class_names attempts conn classes = maintain_connection true attempts conn >>= λ c.
    if is_connected c.conn then select_class_names classes else err runtime_error

abbrev pub line_end : Bytes
line_end = b'\n' ∷ []

-- What list mode prints: each name on a line, and all of them on one; and its exit code.
abbrev pub names_on_lines : List Bytes → Bytes
names_on_lines [] = []
names_on_lines (s ∷ queues) = codes "--cmd-queue " ++ (s ++ (line_end ++ names_on_lines queues))

abbrev pub names_in_line : List Bytes → Bytes
names_in_line [] = []
names_in_line (s ∷ queues) = codes "--cmd-queue " ++ (s ++ (codes "  " ++ names_in_line queues))

unfoldable pub list_queue_names : List Bytes → Bytes × ℕ
list_queue_names queues = (
  line_end
      ++ (names_on_lines queues ++ (line_end ++ (names_in_line queues ++ (line_end ++ line_end)))),
  elim queues [ [] ↦ 66 | _ ∷ _ ↦ 0 ],
)
