-- ===== src/Runner/Select.antt =====
-- A round of the (re)select loop of `CmdQueueRunner::_run` (pg_cmdqd/cmdqueuerunner.h), up to the
-- loop that waits. What the server answers is a `Round`; the statements sent are recorded, and
-- where between them the command is run; what that does is modelled elsewhere.
pub mod Transactions
use pg_cmd_queue.Base.{
  ℕ, zero, suc, ◌%◌, ◌==◌, ◌≡◌, refl, ◌∙◌, ap, Bool, true, false, Option, none, some, List, [], ◌∷◌,
  ◌++◌, Bytes, if◌then◌else◌, Result, ok, err, assertion, division_by_zero, ◌>>=◌, arith,
}
use mathlib.Core.List.{append_assoc}

-- The statements, and between them, as `runs_cmd`, the `run_cmd` of the command that was selected.
-- Those that are about a command have its identifiers.
pub data Statement : Type 0 where
  begin_transaction select_oldest select_random : Statement
  select_notify runs_cmd : Bytes → Option Bytes → Statement
  update_cmd enter_reselect_round runner_session_start : Statement
  remember_failed_update : Bytes → Option Bytes → Statement
  commit_transaction rollback_transaction : Statement

-- What the `SELECT` gives: an error, no row, a command, or more rows.
pub data Selected : Type 0 where
  select_failed no_row : Selected
  row : Bytes → Option Bytes → Selected
  more_rows : Selected

-- `PQtransactionStatus`.
pub data TransactionStatus : Type 0 where
  trans_unknown trans_inerror trans_other : TransactionStatus

-- `entered_round` is none if `enter_reselect_round()` failed.
pub record Round : Type 0 where
  pub selected : Selected
  pub update_ok : Bool
  pub entered_round : Option ℕ
  pub transaction_status : TransactionStatus

-- `notify_cmd` has the `cmd_id` and the `cmd_subid`.
pub record SelectState : Type 0 where
  pub notify_cmd : Option (Bytes × Option Bytes)
  pub reselect_round : ℕ
  pub postponed : Bool
  pub sent : List Statement

-- The next: to wait, to connect again, or the end of the thread.
pub data Flow : Type 0 where
  waits reconnects leaves : SelectState → Flow

abbrev pub send : Statement → SelectState → SelectState
send statement s = record s { sent = s.sent ++ statement ∷ [] }

-- `reselect_round % nth == 0`, of a setting that may be none.
unfoldable pub is_random_round : Option ℕ → ℕ → Result Bool
is_random_round none reselect_round = ok false
is_random_round (some zero) reselect_round = err division_by_zero
is_random_round (some (suc n)) reselect_round = ok (reselect_round % suc n == 0)

-- Which prepared statement selects the command.
unfoldable pub select_statement :
    Option ℕ → SelectState → Option (Bytes × Option Bytes) → Result Statement
select_statement randomized_every_nth s (some (cmd_id, cmd_subid)) =
    ok (select_notify cmd_id cmd_subid)
select_statement randomized_every_nth s none =
    is_random_round randomized_every_nth s.reselect_round >>= λ is_random.
    ok (if is_random then select_random else select_oldest)

-- `COMMIT` or `ROLLBACK`, unless the connection is lost.
unfoldable pub end_round : TransactionStatus → SelectState → Flow
end_round trans_unknown s = reconnects s
end_round trans_inerror s = waits (send rollback_transaction s)
end_round trans_other s = waits (send commit_transaction s)

-- The command is run, and then its row is updated; if that fails, the failure is remembered in a new transaction.
unfoldable pub update_row : Bytes → Option Bytes → Bool → SelectState → SelectState
update_row cmd_id cmd_subid update_ok s =
    let s1 = send update_cmd (send (runs_cmd cmd_id cmd_subid) s) in
    if update_ok
    then s1
    else send (remember_failed_update cmd_id cmd_subid) (send rollback_transaction s1)

-- What follows `enter_reselect_round()`, which gives the number of the next round.
unfoldable pub after_enter : TransactionStatus → Option ℕ → SelectState → Flow
after_enter transaction_status none s = leaves s
after_enter transaction_status (some n) s =
    end_round transaction_status (record s { reselect_round = n })

-- Without a row: only a `SELECT` that no notification asked for puts off the next one.
unfoldable pub no_cmd : Option (Bytes × Option Bytes) → Round → SelectState → Flow
no_cmd (some notify_cmd) round s = end_round round.transaction_status s
no_cmd none round s =
    after_enter round.transaction_status round.entered_round
      (send enter_reselect_round (record s { postponed = true }))

unfoldable pub after_select : Selected → Round → SelectState → Result Flow
after_select select_failed round s = ok (end_round round.transaction_status s)
after_select no_row round s = ok (no_cmd s.notify_cmd round s)
after_select (row cmd_id cmd_subid) round s =
    ok (end_round round.transaction_status (update_row cmd_id cmd_subid round.update_ok s))
after_select more_rows round s = err assertion

unfoldable pub select_round : Option ℕ → Round → SelectState → Result Flow
select_round randomized_every_nth round s =
    select_statement randomized_every_nth s s.notify_cmd >>= λ statement.
    after_select round.selected round (send statement (send begin_transaction s))
