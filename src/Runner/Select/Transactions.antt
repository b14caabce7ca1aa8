-- ===== src/Runner/Select/Transactions.antt =====
-- The transactions of a round of pg_cmdqd/cmdqueuerunner.h.
use pg_cmd_queue.Base.{
  ℕ, ◌≡◌, refl, Bool, true, false, Option, none, some, List, [], ◌∷◌, ◌++◌, Bytes, if◌then◌else◌,
  Result, ok, err, ◌>>=◌, inl, inr, Bool-cases,
}
use mathlib.Core.List.{append_assoc}
use pg_cmd_queue.Runner.Select.{
  Statement, begin_transaction, select_notify, runs_cmd, update_cmd, remember_failed_update,
  commit_transaction, rollback_transaction, Selected, row, no_row, select_failed, more_rows,
  after_enter, Round, TransactionStatus, trans_unknown, trans_inerror, trans_other, SelectState,
  Flow, waits, send, select_statement, end_round, update_row, no_cmd, after_select, select_round,
}

-- Whether a transaction is open behind some statements.
abbrev open_after : Bool → List Statement → Bool
open_after is_open [] = is_open
open_after is_open (begin_transaction ∷ ss) = open_after true ss
open_after is_open (commit_transaction ∷ ss) = open_after false ss
open_after is_open (rollback_transaction ∷ ss) = open_after false ss
open_after is_open (s ∷ ss) = open_after is_open ss

abbrev pub is_open : List Statement → Bool
is_open = open_after false

open_after-commit :
    (b : Bool) (ss : List Statement) → open_after b (ss ++ commit_transaction ∷ []) ≡ false
open_after-commit b [] = refl
open_after-commit b (begin_transaction ∷ ss) = open_after-commit true ss
open_after-commit b (commit_transaction ∷ ss) = open_after-commit false ss
open_after-commit b (rollback_transaction ∷ ss) = open_after-commit false ss
open_after-commit b (_ ∷ ss) = open_after-commit b ss

open_after-rollback :
    (b : Bool) (ss : List Statement) → open_after b (ss ++ rollback_transaction ∷ []) ≡ false
open_after-rollback b [] = refl
open_after-rollback b (begin_transaction ∷ ss) = open_after-rollback true ss
open_after-rollback b (commit_transaction ∷ ss) = open_after-rollback false ss
open_after-rollback b (rollback_transaction ∷ ss) = open_after-rollback false ss
open_after-rollback b (_ ∷ ss) = open_after-rollback b ss

-- No transaction is open when the runner waits.
abbrev pub ClosedIfWaiting : Result Flow → Type 0
ClosedIfWaiting (ok (waits s)) = is_open s.sent ≡ false
ClosedIfWaiting _ = Unit

end_round-ClosedIfWaiting :
    (status : TransactionStatus) (s : SelectState) → ClosedIfWaiting (ok (end_round status s))
unfolding end_round
end_round-ClosedIfWaiting trans_unknown s = tt
end_round-ClosedIfWaiting trans_inerror s = open_after-rollback false s.sent
end_round-ClosedIfWaiting trans_other s = open_after-commit false s.sent

after_enter-ClosedIfWaiting :
    (status : TransactionStatus) (entered : Option ℕ) (s : SelectState)
    → ClosedIfWaiting (ok (after_enter status entered s))
unfolding after_enter
after_enter-ClosedIfWaiting status none s = tt
after_enter-ClosedIfWaiting status (some n) s = end_round-ClosedIfWaiting status _

no_cmd-ClosedIfWaiting :
    (notify_cmd : Option (Bytes × Option Bytes)) (round : Round) (s : SelectState)
    → ClosedIfWaiting (ok (no_cmd notify_cmd round s))
unfolding no_cmd
no_cmd-ClosedIfWaiting (some n) round s = end_round-ClosedIfWaiting round.transaction_status s
no_cmd-ClosedIfWaiting none round s =
    after_enter-ClosedIfWaiting round.transaction_status round.entered_round _

after_select-ClosedIfWaiting :
    (selected : Selected) (round : Round) (s : SelectState)
    → ClosedIfWaiting (after_select selected round s)
unfolding after_select
after_select-ClosedIfWaiting select_failed round s =
    end_round-ClosedIfWaiting round.transaction_status s
after_select-ClosedIfWaiting no_row round s = no_cmd-ClosedIfWaiting s.notify_cmd round s
after_select-ClosedIfWaiting (row i j) round s =
    end_round-ClosedIfWaiting round.transaction_status _
after_select-ClosedIfWaiting more_rows round s = tt

-- Whatever the server answers and whatever was sent before, no transaction is open behind a round
-- that goes on to wait.
pub select_round-ClosedIfWaiting :
    (randomized_every_nth : Option ℕ) (round : Round) (s : SelectState)
    → ClosedIfWaiting (select_round randomized_every_nth round s)
unfolding select_round
select_round-ClosedIfWaiting nth round s = selecting (select_statement nth s s.notify_cmd)
  where
    selecting :
        (m : Result Statement)
        → ClosedIfWaiting (
            m >>= λ statement.
            after_select round.selected round (send statement (send begin_transaction s)))
    selecting (ok statement) = after_select-ClosedIfWaiting round.selected round _
    selecting (err e) = tt

-- A command that a notification asked for, and that is found while the connection holds: in one
-- transaction it is selected by its identifiers, run and updated; if the update fails, the transaction is
-- rolled back, and the failure is remembered in another.
pub select_round-notified :
    (randomized_every_nth : Option ℕ) (round : Round) (s : SelectState) (cmd_id : Bytes)
    (cmd_subid : Option Bytes)
    → s.notify_cmd ≡ some (cmd_id, cmd_subid)
    → round.selected ≡ row cmd_id cmd_subid
    → round.transaction_status ≡ trans_other
    → select_round randomized_every_nth round s
      ≡ ok (
          waits (record s {
            sent =
                s.sent
                ++ begin_transaction
                  ∷ select_notify cmd_id cmd_subid
                  ∷ runs_cmd cmd_id cmd_subid
                  ∷ update_cmd
                  ∷ (if round.update_ok
                      then commit_transaction ∷ []
                      else rollback_transaction
                        ∷ remember_failed_update cmd_id cmd_subid
                        ∷ commit_transaction
                        ∷ []);
          }))
unfolding select_round select_statement after_select update_row end_round
select_round-notified nth round s cmd_id cmd_subid n r t = elim (Bool-cases round.update_ok) [
  | inl y ↦ simp (n, r, t, y, append_assoc) refl
  | inr f ↦ simp (n, r, t, f, append_assoc) refl
]
