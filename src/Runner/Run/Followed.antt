-- ===== src/Runner/Run/Followed.antt =====
-- What a runner (pg_cmdqd/cmdqueuerunner.h) does about a notification of a command.
use pg_cmd_queue.Base.{
  ℕ, Option, some, List, [], ◌∷◌, ◌++◌, Bytes, if◌then◌else◌, ok, ◌≡◌, refl, ap, ◌∙◌,
}
use pg_cmd_queue.Runner.Select.{
  begin_transaction, select_notify, runs_cmd, update_cmd, remember_failed_update,
  commit_transaction, rollback_transaction, row, trans_other, SelectState, waits, Round,
  select_round,
}
use pg_cmd_queue.Runner.Select.Transactions.{select_round-notified}
use pg_cmd_queue.Text.Composite.Plain.{PlainFields}
use pg_cmd_queue.Runner.Wait.{Turn, heard, Waited, notified, wait_loop}
use pg_cmd_queue.Runner.Notify.{AllPass, payload, wait_loop-payload}
use pg_cmd_queue.Runner.Run.{FullRound, heard_of, after_waited, run_rounds}

module _ (identity : Bytes) (randomized_every_nth : Option ℕ) where
  run_rounds-waits :
      (t : FullRound) (rounds : List FullRound) (s s1 : SelectState) (w : Waited)
      → select_round randomized_every_nth t.round s ≡ ok (waits s1)
      → wait_loop identity t.turns ≡ ok w
      → run_rounds identity randomized_every_nth (t ∷ rounds) s
        ≡ after_waited (run_rounds identity randomized_every_nth rounds) s1 w
  unfolding run_rounds
  run_rounds-waits t rounds s s1 w e f = rw e (rw f refl)

  -- The state behind a round in which a command that a notification named was found.
  abbrev pub ran : Bytes → Option Bytes → Round → SelectState → SelectState
  ran cmd_id cmd_subid round s = record (heard_of cmd_id cmd_subid s) {
    sent =
        s.sent
        ++ begin_transaction
          ∷ select_notify cmd_id cmd_subid
          ∷ runs_cmd cmd_id cmd_subid
          ∷ update_cmd
          ∷ (if round.update_ok
              then commit_transaction ∷ []
              else rollback_transaction
                ∷ remember_failed_update cmd_id cmd_subid
                ∷ commit_transaction
                ∷ []);
  }

  -- When the runner hears, while it waits behind a round, of a command of its queue, with no field
  -- of the payload in quotes, the next round selects that very command, calls its `run_cmd`
  -- and sends the update of its row, if it is there and the connection holds; if it then waits until
  -- something else ends the wait, the run goes on from the state in which that was done.
  pub run_rounds-payload :
      (t t2 : FullRound) (rounds : List FullRound) (s s1 : SelectState) (cmd_id : Bytes)
      (cmd_subid : Option Bytes) (before later : List Turn) (w : Waited)
      → select_round randomized_every_nth t.round s ≡ ok (waits s1)
      → t.turns ≡ before ++ heard (payload identity cmd_id cmd_subid) ∷ later
      → AllPass identity before
      → PlainFields (some identity ∷ some cmd_id ∷ cmd_subid ∷ [])
      → t2.round.selected ≡ row cmd_id cmd_subid
      → t2.round.transaction_status ≡ trans_other
      → wait_loop identity t2.turns ≡ ok w
      → run_rounds identity randomized_every_nth (t ∷ t2 ∷ rounds) s
        ≡ after_waited
            (run_rounds identity randomized_every_nth rounds)
            (ran cmd_id cmd_subid t2.round s1)
            w
  run_rounds-payload t t2 rounds s s1 cmd_id cmd_subid before later w e turns pass plain selected
        status wait =
      run_rounds-waits t (t2 ∷ rounds) s s1 (notified cmd_id cmd_subid) e (
        ap (wait_loop identity) turns
        ∙ wait_loop-payload identity cmd_id cmd_subid before later plain pass)
      ∙ run_rounds-waits t2 rounds (heard_of cmd_id cmd_subid s1) _ w
          (select_round-notified randomized_every_nth t2.round (heard_of cmd_id cmd_subid s1) cmd_id
            cmd_subid refl selected status)
          wait
