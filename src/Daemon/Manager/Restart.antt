-- ===== src/Daemon/Manager/Restart.antt =====
-- A refresh of pg_cmdqd/cmdqueuerunnermanager.cpp that lists the classes that have runners already.
use pg_cmd_queue.Base.{true, Option, none, some, List, [], ◌∷◌, Bytes, ok, ◌≡◌, refl, ap, ◌∙◌}
use pg_cmd_queue.Daemon.Manager.{
  CmdQueue, Manager, has_class, insert_class, queue_has_runner_already, take_row, take_rows,
  stop_disappeared, refresh_with,
}
use pg_cmd_queue.Daemon.Manager.Refresh.{row_classes, take_rows_nil, take_rows-none, take_rows-some}

-- All of the valid rows' classes have runners.
abbrev pub RowsHaveRunners : List (Option CmdQueue) → Manager → Type 0
RowsHaveRunners [] m = Unit
RowsHaveRunners (none ∷ rows) m = RowsHaveRunners rows m
RowsHaveRunners (some q ∷ rows) m = (queue_has_runner_already q m ≡ true) × RowsHaveRunners rows m

-- All of the old classes are classes of these rows.
abbrev pub AllIn : List Bytes → List Bytes → Type 0
AllIn [] classes = Unit
AllIn (cls ∷ old) classes = (has_class cls classes ≡ true) × AllIn old classes

take_row_again :
    (q : CmdQueue) (m : Manager)
    → queue_has_runner_already q m ≡ true
    → take_row (some q) m
      ≡ record m { new_cmd_classes = insert_class q.cmd_class_identity m.new_cmd_classes }
unfolding take_row
take_row_again q m h = rw h refl

RowsHaveRunners-new_cmd_classes :
    (rows : List (Option CmdQueue)) (m : Manager) (classes : List Bytes)
    → RowsHaveRunners rows m
    → RowsHaveRunners rows (record m { new_cmd_classes = classes })
unfolding queue_has_runner_already
RowsHaveRunners-new_cmd_classes [] m classes r = r
RowsHaveRunners-new_cmd_classes (none ∷ rows) m classes r =
    RowsHaveRunners-new_cmd_classes rows m classes r
RowsHaveRunners-new_cmd_classes (some q ∷ rows) m classes (r, rs) =
    (r, RowsHaveRunners-new_cmd_classes rows m classes rs)

take_rows_again :
    (rows : List (Option CmdQueue)) (m : Manager)
    → RowsHaveRunners rows m
    → take_rows rows m ≡ record m { new_cmd_classes = row_classes m.new_cmd_classes rows }
take_rows_again [] m r = take_rows_nil m
take_rows_again (none ∷ rows) m r = take_rows-none rows m ∙ take_rows_again rows m r
take_rows_again (some q ∷ rows) m (r, rs) =
    let classes = insert_class q.cmd_class_identity m.new_cmd_classes in
    take_rows-some q rows m
    ∙ ap (take_rows rows) (take_row_again q m r)
    ∙ take_rows_again rows (record m { new_cmd_classes = classes })
        (RowsHaveRunners-new_cmd_classes rows m classes rs)

stop_disappeared_again :
    (old : List Bytes) (m : Manager) → AllIn old m.new_cmd_classes → stop_disappeared old m ≡ ok m
unfolding stop_disappeared
stop_disappeared_again [] m i = refl
stop_disappeared_again (cls ∷ old) m (i, is) = rw i (stop_disappeared_again old m is)

-- The valid rows are of classes that have runners, and the old classes are among them: a refresh
-- then starts no runner and asks none to stop, whether their threads are running or have ended.
pub refresh_with_again :
    (rows : List (Option CmdQueue)) (m : Manager)
    → RowsHaveRunners rows m
    → AllIn m.old_cmd_classes (row_classes [] rows)
    → refresh_with rows m
      ≡ ok (record m {
        new_cmd_classes = row_classes [] rows;
        old_cmd_classes = row_classes [] rows;
      })
unfolding refresh_with
refresh_with_again rows m r i =
    let m0 = record m { new_cmd_classes = [] } in
    rw
      (
        take_rows_again rows m0 (RowsHaveRunners-new_cmd_classes rows m [] r),
        stop_disappeared_again m.old_cmd_classes
            (record m { new_cmd_classes = row_classes [] rows }) i,
      )
      refl
