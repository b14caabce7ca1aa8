-- ===== src/Sql/Row/Trimmed.antt =====
-- What the constructor of pg_cmdqd/sqlqueuecmd.cpp makes of a row.
use pg_cmd_queue.Base.{
  ℕ, ◌≡◌, refl, ap, ◌∙◌, Bool, true, false, [], ◌∷◌, ◌++◌, Bool-cases, inl, inr, Bytes, codes,
  if◌then◌else◌, Result, ok, err, domain_error, ◌>>=◌,
}
use pg_cmd_queue.Pq.Rows.{PgResult, FieldNumbers, value_at, is_null_at}
use pg_cmd_queue.Pq.Load.{finished, threw, load, load-Loads, is_exception}
use pg_cmd_queue.Nix.Command.{QueueCmdMetadata}
use pg_cmd_queue.Nix.Row.{metadata_of_row}
use pg_cmd_queue.Sql.Command.{SqlQueueCmd}
use pg_cmd_queue.Sql.Row.{
  is_space, without_leading, without_trailing, trimmed, start_cmd, check_meta, load_sql, after_cmd,
  sql_cmd_of_row,
}

abbrev pub AllSpaces : Bytes → Type 0
AllSpaces [] = Unit
AllSpaces (c ∷ cs) = (is_space c ≡ true) × AllSpaces cs

without_leading-AllSpaces :
    (a s : Bytes) → AllSpaces a → without_leading (a ++ s) ≡ without_leading s
without_leading-AllSpaces [] s h = refl
without_leading-AllSpaces (c ∷ a) s (h, hs) = rw h (without_leading-AllSpaces a s hs)

without_trailing-AllSpaces : (b : Bytes) → AllSpaces b → without_trailing b ≡ []
without_trailing-AllSpaces [] h = refl
without_trailing-AllSpaces (c ∷ b) (h, hs) = rw (without_trailing-AllSpaces b hs) (rw h refl)

without_trailing_end :
    (mid : Bytes) (d : ℕ) (b : Bytes)
    → is_space d ≡ false
    → AllSpaces b
    → without_trailing (mid ++ d ∷ b) ≡ mid ++ d ∷ []
without_trailing_end [] d b n h = rw (without_trailing-AllSpaces b h) (rw n refl)
without_trailing_end (c ∷ []) d b n h = rw (without_trailing_end [] d b n h) refl
without_trailing_end (c ∷ e ∷ mid) d b n h = rw (without_trailing_end (e ∷ mid) d b n h) refl

trimmed-text :
    (before : Bytes) (c : ℕ) (mid : Bytes) (d : ℕ) (behind : Bytes)
    → AllSpaces before
    → is_space c ≡ false
    → is_space d ≡ false
    → AllSpaces behind
    → trimmed (before ++ c ∷ (mid ++ d ∷ behind)) ≡ c ∷ (mid ++ d ∷ [])
unfolding trimmed
trimmed-text before c mid d behind hb hc hd he =
    ap without_trailing {y = (c ∷ mid) ++ d ∷ behind}
      (without_leading-AllSpaces before (c ∷ (mid ++ d ∷ behind)) hb ∙ rw hc refl)
    ∙ without_trailing_end (c ∷ mid) d behind hd he

check_meta_start :
    (res : PgResult) (row : ℕ) (numbers : FieldNumbers) (meta : QueueCmdMetadata)
    → check_meta res row numbers (start_cmd meta) ≡ start_cmd meta
check_meta_start res row numbers meta = elim (Bool-cases meta.is_valid) [
  | inl e ↦ rw e refl
  | inr e ↦ rw e refl
]

-- A command keeps its statement without the spaces, tabs and line ends around it, and whatever is
-- between its first and its last other byte. It is not marked as valid.
pub sql_cmd_of_row-trimmed :
    (res : PgResult) (row : ℕ) (numbers : FieldNumbers) (meta : QueueCmdMetadata) (before : Bytes)
    (c : ℕ) (mid : Bytes) (d : ℕ) (behind : Bytes)
    → metadata_of_row res row numbers ≡ ok meta
    → is_null_at res row numbers (codes "cmd_sql") ≡ ok false
    → value_at res row numbers (codes "cmd_sql") ≡ ok (before ++ c ∷ (mid ++ d ∷ behind))
    → AllSpaces before
    → is_space c ≡ false
    → is_space d ≡ false
    → AllSpaces behind
    → sql_cmd_of_row res row numbers
      ≡ ok (record (start_cmd meta) { cmd_sql = c ∷ (mid ++ d ∷ []) })
unfolding sql_cmd_of_row
sql_cmd_of_row-trimmed res row numbers meta before c mid d behind m n v hb hc hd he =
    let start = start_cmd meta in
    ap
      (λ r. r >>= λ meta.
        after_cmd res row numbers
          (load (load_sql res row numbers ∷ []) (check_meta res row numbers (start_cmd meta))))
      m
    ∙ ap (λ cmd. after_cmd res row numbers (load (load_sql res row numbers ∷ []) cmd))
        (check_meta_start res row numbers meta)
    ∙ ap (after_cmd res row numbers) (
        load-Loads (load_sql res row numbers ∷ []) start _ (
          record start { cmd_sql = c ∷ (mid ++ d ∷ []) },
          (simp (n, v, trimmed-text before c mid d behind hb hc hd he) refl, refl),
        ))

-- Whatever the row holds, the command that is made of it is not marked as valid.
abbrev pub NotValid : Result SqlQueueCmd → Type 0
NotValid (ok cmd) = cmd.is_valid ≡ false
NotValid (err e) = Unit

module _ (res : PgResult) (row : ℕ) (numbers : FieldNumbers) where
  load_sql-NotValid :
      (cmd : SqlQueueCmd) → cmd.is_valid ≡ false → NotValid (load_sql res row numbers cmd)
  load_sql-NotValid cmd h =
      go (is_null_at res row numbers (codes "cmd_sql")) (value_at res row numbers (codes "cmd_sql"))
    where
      go :
          (n : Result Bool) (v : Result Bytes)
          → NotValid (
              n >>= λ is_null.
              if is_null
              then err domain_error
              else v >>= λ v. ok (record cmd { cmd_sql = trimmed v }))
      go (err e) v = tt
      go (ok true) v = tt
      go (ok false) (err e) = tt
      go (ok false) (ok v) = h

  after_cmd-NotValid :
      (r : Result SqlQueueCmd) (cmd : SqlQueueCmd)
      → cmd.is_valid ≡ false
      → NotValid r
      → NotValid (after_cmd res row numbers (elim r [ ok b ↦ finished b | err e ↦ threw e cmd ]))
  after_cmd-NotValid (ok b) cmd h n = n
  after_cmd-NotValid (err e) cmd h n = go (is_exception e)
    where
      go : (b : Bool) → NotValid (if b then ok (record cmd { is_valid = false }) else err e)
      go true = refl
      go false = tt

  pub sql_cmd_of_row-NotValid : NotValid (sql_cmd_of_row res row numbers)
  unfolding sql_cmd_of_row load
  sql_cmd_of_row-NotValid = go (metadata_of_row res row numbers)
    where
      go :
          (m : Result QueueCmdMetadata)
          → NotValid (
              m >>= λ meta.
              after_cmd res row numbers (
                load (load_sql res row numbers ∷ []) (check_meta res row numbers (start_cmd meta))))
      go (err e) = tt
      go (ok meta) = rw (check_meta_start res row numbers meta) (
          after_cmd-NotValid (load_sql res row numbers (start_cmd meta)) (start_cmd meta) refl
            (load_sql-NotValid (start_cmd meta) refl))
