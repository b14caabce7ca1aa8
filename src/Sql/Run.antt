-- ===== src/Sql/Run.antt =====
-- What `SqlQueueCmd::run_cmd` (pg_cmdqd/sqlqueuecmd.cpp) leaves in the transaction and in the
-- command.
use pg_cmd_queue.Base.{
  ℕ, Bool, true, false, Option, none, some, List, [], ◌∷◌, ◌++◌, Bytes, if◌then◌else◌, ok, err,
  null_this, ◌>>=◌, ◌≡◌, refl, ◌⊎◌, inl, inr, Bool-cases,
}
use pg_cmd_queue.Sql.Command.{
  ExecStatus, SqlQueueCmd, Statement, set_savepoint, sql, set_constraints, rollback_to_savepoint,
  release_savepoint, Answer, Running, is_command_ok, is_success, receive_notices, exec,
  handle_sql_fatality, start_savepoint, run_sql, check_constraints, end_savepoint, run_cmd,
}

-- What the server holds of a transaction: the commands before the savepoint, those behind it, and
-- whether a failed statement has aborted it.
record Transaction : Type 0 where
  before : List Bytes
  since : List Bytes
  aborted : Bool

-- Whether the answer is the one that `run_cmd` takes for a success.
abbrev is_accepted : Statement → ExecStatus → Bool
is_accepted (sql s) status = is_success status
is_accepted _ status = is_command_ok status

-- A failed statement aborts the transaction, and only a successful rollback to the savepoint
-- takes it up again. What a command does to the transaction itself is left aside.
abbrev after_statement : Statement → Bool → Transaction → Transaction
after_statement _ false t = record t { aborted = true }
after_statement set_savepoint true t = record t { before = t.before ++ t.since; since = [] }
after_statement (sql s) true t = record t { since = t.since ++ s ∷ [] }
after_statement set_constraints true t = t
after_statement rollback_to_savepoint true t = record t { since = []; aborted = false }
after_statement release_savepoint true t = record t { before = t.before ++ t.since; since = [] }

abbrev kept_from :
    (List Statement → Statement → Answer)
    → List Statement
    → Transaction
    → List Statement
    → List Bytes
kept_from server sent t [] = if t.aborted then [] else t.before ++ t.since
kept_from server sent t (s ∷ ss) =
    kept_from server (sent ++ s ∷ []) (after_statement s (is_accepted s (server sent s).status) t)
      ss

-- The commands that a transaction keeps, of those sent in it, by the server's answers.
abbrev pub kept : (List Statement → Statement → Answer) → List Statement → List Bytes
kept server = kept_from server [] (record { before = []; since = []; aborted = false })

-- The answer to the `RELEASE SAVEPOINT` behind a command with which all went well.
abbrev pub is_released : (List Statement → Statement → Answer) → Bytes → Bool
is_released server cmd_sql =
    is_command_ok
      (server (set_savepoint ∷ sql cmd_sql ∷ set_constraints ∷ []) release_savepoint).status

-- What a fatal error, or none, tells of the commands kept.
abbrev pub KeptAsTold :
    (List Statement → Statement → Answer)
    → Bytes
    → Option (List (ℕ × Option Bytes))
    → List Statement
    → Type 0
KeptAsTold server cmd_sql error sent =
    (error ≡ none)
      × ((is_released server cmd_sql ≡ true) × (kept server sent ≡ cmd_sql ∷ [])
          ⊎ (is_released server cmd_sql ≡ false) × (kept server sent ≡ []))
    ⊎ (e : List (ℕ × Option Bytes)) × (error ≡ some e) × (kept server sent ≡ [])

module _ (res_status : ExecStatus → Bytes) (server : List Statement → Statement → Answer) where
  exec_quiet :
      (statement : Statement) (s : Running)
      → (server s.conn.sent statement).notices ≡ []
      → exec res_status server statement s
        ≡ ok (
          server s.conn.sent statement,
          record s {
            conn = record {
              sent = s.conn.sent ++ statement ∷ [];
              receiver_has_this = s.conn.receiver_has_this;
            };
          },
        )
  unfolding exec receive_notices
  exec_quiet statement s h = rw h refl

  -- Whether the last statement has failed does not show in what the caller sees.
  ended :
      (b : Bool) (s : Running) (f : Bool)
      → ◌>>=◌ {B = SqlQueueCmd × List Statement}
          (if b then ok s else ok (record s { bookkeeping_failed = f }))
          (λ t. ok (t.cmd, t.conn.sent))
        ≡ ok (s.cmd, s.conn.sent)
  ended true s f = refl
  ended false s f = refl

  exec_noticed :
      (statement : Statement) (s : Running) (n : List (ℕ × Option Bytes))
      (ns : List (List (ℕ × Option Bytes)))
      → s.conn.receiver_has_this ≡ false
      → (server s.conn.sent statement).notices ≡ n ∷ ns
      → exec res_status server statement s ≡ err null_this
  unfolding exec receive_notices
  exec_noticed statement s n ns r h = rw (h, r) refl

  -- If the server accepts the savepoint without a notice, and then sends a notice while it carries
  -- out the command's statement, `run_cmd` calls a member function on a null `this`.
  pub run_cmd_notice :
      (cmd : SqlQueueCmd) (n : List (ℕ × Option Bytes)) (ns : List (List (ℕ × Option Bytes)))
      → (server [] set_savepoint).notices ≡ []
      → is_command_ok (server [] set_savepoint).status ≡ true
      → (server (set_savepoint ∷ []) (sql cmd.cmd_sql)).notices ≡ n ∷ ns
      → run_cmd res_status server cmd ≡ err null_this
  unfolding run_cmd start_savepoint run_sql
  run_cmd_notice cmd n ns quiet y h =
      let start : Running = record {
        bookkeeping_failed = false;
        cmd_failed = false;
        cmd = cmd;
        conn = record { sent = []; receiver_has_this = false };
      } in
      simp
        (
          exec_quiet set_savepoint start quiet,
          y,
          exec_noticed (sql cmd.cmd_sql)
              (record start {
                conn = record { sent = set_savepoint ∷ []; receiver_has_this = false };
              })
              n ns refl h,
        )
        refl

  -- How `run_cmd` ended: only members that tell of the outcome have changed, and the fatal error
  -- tells what is kept of the statements sent.
  abbrev pub EndsKept : SqlQueueCmd → SqlQueueCmd → List Statement → Type 0
  EndsKept cmd d sent =
      (d.meta ≡ cmd.meta)
      × (d.cmd_sql_nonfatal_errors ≡ cmd.cmd_sql_nonfatal_errors)
      × KeptAsTold server cmd.cmd_sql d.cmd_sql_fatal_error sent

  pub run_cmd-EndsKept :
      (cmd : SqlQueueCmd)
      → ((sent : List Statement) (statement : Statement) → (server sent statement).notices ≡ [])
      → cmd.cmd_sql_fatal_error ≡ none
      → (d : SqlQueueCmd) × (sent : List Statement) × (run_cmd res_status server cmd ≡ ok (d, sent))
        × EndsKept cmd d sent
  unfolding run_cmd start_savepoint run_sql check_constraints end_savepoint handle_sql_fatality
  run_cmd-EndsKept cmd quiet h =
      let sp = set_savepoint in
      let c = cmd.cmd_sql in
      let a0 = server [] sp in
      let a1 = server (sp ∷ []) (sql c) in
      let a2 = server (sp ∷ sql c ∷ []) set_constraints in
      let a3 = server (sp ∷ sql c ∷ set_constraints ∷ []) release_savepoint in
      let r1 = server (sp ∷ sql c ∷ []) rollback_to_savepoint in
      let r2 = server (sp ∷ sql c ∷ set_constraints ∷ []) rollback_to_savepoint in
      let failed : Answer → SqlQueueCmd = λ a. record cmd {
        cmd_sql_result_status = res_status a.status;
        cmd_sql_fatal_error = some a.error_fields;
      } in
      let q = λ (st : Statement) (s : Running). exec_quiet st s (quiet s.conn.sent st) in
      elim (Bool-cases (is_command_ok a0.status)) [
        | inr n0 ↦ (
          failed a0,
          sp ∷ [],
          simp (q, n0) refl,
          (refl, refl, inr (a0.error_fields, refl, simp n0 refl)),
        )
        | inl y0 ↦ elim (Bool-cases (is_success a1.status)) [
          | inr n1 ↦ (
            failed a1,
            sp ∷ sql c ∷ rollback_to_savepoint ∷ [],
            simp (q, y0, n1) (ended (is_command_ok _) _ true),
            (
              refl,
              refl,
              inr (
                a1.error_fields,
                refl,
                elim (Bool-cases (is_command_ok r1.status)) [
                  | inl z ↦ simp (y0, n1, z) refl
                  | inr z ↦ simp (y0, n1, z) refl
                ],
              ),
            ),
          )
          | inl y1 ↦ elim (Bool-cases (is_command_ok a2.status)) [
            | inr n2 ↦ (
              failed a2,
              sp ∷ sql c ∷ set_constraints ∷ rollback_to_savepoint ∷ [],
              simp (q, y0, y1, h, n2) (ended (is_command_ok _) _ true),
              (
                refl,
                refl,
                inr (
                  a2.error_fields,
                  refl,
                  elim (Bool-cases (is_command_ok r2.status)) [
                    | inl z ↦ simp (y0, y1, n2, z) refl
                    | inr z ↦ simp (y0, y1, n2, z) refl
                  ],
                ),
              ),
            )
            | inl y2 ↦ (
              record cmd { cmd_sql_result_status = res_status a1.status },
              sp ∷ sql c ∷ set_constraints ∷ release_savepoint ∷ [],
              simp (q, y0, y1, h, y2) (ended (is_command_ok _) _ true),
              (
                refl,
                refl,
                inl (
                  h,
                  elim (Bool-cases (is_command_ok a3.status)) [
                    | inl z ↦ inl (z, simp (y0, y1, y2, z) refl)
                    | inr z ↦ inr (z, simp (y0, y1, y2, z) refl)
                  ],
                ),
              ),
            )
          ]
        ]
      ]
