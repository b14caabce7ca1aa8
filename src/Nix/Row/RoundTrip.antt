-- ===== src/Nix/Row/RoundTrip.antt =====
-- What the constructors of pg_cmdqd/queuecmdmetadata.cpp and pg_cmdqd/nixqueuecmd.cpp make of a row.
use pg_cmd_queue.Base.{
  ℕ, ◌≡◌, refl, ap, ◌∙◌, true, false, Option, none, List, [], ◌∷◌, Bytes, codes, ok, domain_error,
  ◌>>=◌,
}
use pg_cmd_queue.Pq.Rows.{PgResult, FieldNumbers, value_at, nullable_at, is_null_at}
use pg_cmd_queue.Pq.Load.{load, load-Loads, load-Loads_threw}
use pg_cmd_queue.Text.Quote.{as_text_array, as_text_hstore}
use pg_cmd_queue.Text.Array.RoundTrip.{NoBackslash, from_text_array-as_text_array}
use pg_cmd_queue.Text.Hstore.RoundTrip.{PlainPairs, PlainKeys, with_values, from_text_hstore-plain}
use pg_cmd_queue.Nix.Command.{QueueCmdMetadata, NixQueueCmd, new_metadata, new_nix_queue_cmd}
use pg_cmd_queue.Nix.Row.{
  throw_if_missing_any_value, metadata_of_row, nix_cmd_of_row, after_metadata, after_cmd,
  load_identity, load_relname, load_id, load_subid, load_argv, load_env, load_stdin,
}

throw_if_missing_any_value-with_values :
    (m : List (Bytes × Bytes)) → throw_if_missing_any_value (with_values m) ≡ ok m
unfolding throw_if_missing_any_value
throw_if_missing_any_value-with_values [] = refl
throw_if_missing_any_value-with_values ((k, v) ∷ m) =
    rw (throw_if_missing_any_value-with_values m) refl

-- A command as a row holds it.
unfoldable pub loaded_cmd :
    Bytes → Bytes → Bytes → Option Bytes → List Bytes → List (Bytes × Bytes) → Bytes → NixQueueCmd
unfolding new_metadata new_nix_queue_cmd
loaded_cmd identity relname cmd_id cmd_subid argv env stdin =
    let cmd = new_nix_queue_cmd identity relname cmd_id cmd_subid argv env stdin in
    record cmd { is_valid = true; meta = record cmd.meta { is_valid = true } }

-- The columns of the metadata.
pub record MetadataRow (res : PgResult) (row : ℕ) (numbers : FieldNumbers)
    (identity relname cmd_id : Bytes) (cmd_subid : Option Bytes) : Type 0 where
  pub identity_column : value_at res row numbers (codes "cmd_class_identity") ≡ ok identity
  pub relname_column : value_at res row numbers (codes "cmd_class_relname") ≡ ok relname
  pub id_column : value_at res row numbers (codes "cmd_id") ≡ ok cmd_id
  pub subid_column : nullable_at res row numbers (codes "cmd_subid") ≡ ok cmd_subid

unfoldable pub loaded_metadata : Bytes → Bytes → Bytes → Option Bytes → QueueCmdMetadata
loaded_metadata identity relname cmd_id cmd_subid =
    record (new_metadata identity relname cmd_id cmd_subid) { is_valid = true }

module _ (res : PgResult) (row : ℕ) (numbers : FieldNumbers) where
  load_identity-ok :
      {v : Bytes} (meta : QueueCmdMetadata)
      → value_at res row numbers (codes "cmd_class_identity") ≡ ok v
      → load_identity res row numbers meta ≡ ok (record meta { cmd_class_identity = v })
  load_identity-ok meta h = rw h refl

  load_relname-ok :
      {v : Bytes} (meta : QueueCmdMetadata)
      → value_at res row numbers (codes "cmd_class_relname") ≡ ok v
      → load_relname res row numbers meta ≡ ok (record meta { cmd_class_relname = v })
  load_relname-ok meta h = rw h refl

  load_id-ok :
      {v : Bytes} (meta : QueueCmdMetadata)
      → value_at res row numbers (codes "cmd_id") ≡ ok v
      → load_id res row numbers meta ≡ ok (record meta { cmd_id = v })
  load_id-ok meta h = rw h refl

  load_subid-ok :
      {v : Option Bytes} (meta : QueueCmdMetadata)
      → nullable_at res row numbers (codes "cmd_subid") ≡ ok v
      → load_subid res row numbers meta ≡ ok (record meta { cmd_subid = v })
  load_subid-ok meta h = rw h refl

  load_argv-ok :
      {argv : List Bytes} (cmd : NixQueueCmd)
      → is_null_at res row numbers (codes "cmd_argv") ≡ ok false
      → value_at res row numbers (codes "cmd_argv") ≡ ok (as_text_array argv)
      → NoBackslash argv
      → load_argv res row numbers cmd ≡ ok (record cmd { cmd_argv = argv })
  load_argv-ok {argv} cmd n v l = simp (n, v, from_text_array-as_text_array argv l) refl

  load_env-ok :
      {env : List (Bytes × Bytes)} (cmd : NixQueueCmd)
      → is_null_at res row numbers (codes "cmd_env") ≡ ok false
      → value_at res row numbers (codes "cmd_env") ≡ ok (as_text_hstore env)
      → PlainPairs env
      → PlainKeys [] env
      → load_env res row numbers cmd ≡ ok (record cmd { cmd_env = env })
  load_env-ok {env} cmd n v p k =
      simp (n, v, from_text_hstore-plain env p k, throw_if_missing_any_value-with_values env) refl

  load_stdin-ok :
      {v : Bytes} (cmd : NixQueueCmd)
      → value_at res row numbers (codes "cmd_stdin") ≡ ok v
      → load_stdin res row numbers cmd ≡ ok (record cmd { cmd_stdin = v })
  load_stdin-ok cmd h = rw h refl

pub metadata_of_row-written :
    (res : PgResult) (row : ℕ) (numbers : FieldNumbers) (identity relname cmd_id : Bytes)
    (cmd_subid : Option Bytes)
    → MetadataRow res row numbers identity relname cmd_id cmd_subid
    → metadata_of_row res row numbers ≡ ok (loaded_metadata identity relname cmd_id cmd_subid)
unfolding metadata_of_row new_metadata loaded_metadata
metadata_of_row-written res row numbers identity relname cmd_id cmd_subid m =
    let m1 = new_metadata identity [] [] none in
    let m2 = new_metadata identity relname [] none in
    let m3 = new_metadata identity relname cmd_id none in
    ap (after_metadata res row numbers) (
      load-Loads
        (load_identity res row numbers
          ∷ load_relname res row numbers
          ∷ load_id res row numbers
          ∷ load_subid res row numbers
          ∷ [])
        (new_metadata [] [] [] none) _
        (
          m1,
          (
            load_identity-ok res row numbers (new_metadata [] [] [] none) m.identity_column,
            (
              m2,
              (
                load_relname-ok res row numbers m1 m.relname_column,
                (
                  m3,
                  (
                    load_id-ok res row numbers m2 m.id_column,
                    (
                      new_metadata identity relname cmd_id cmd_subid,
                      (load_subid-ok res row numbers m3 m.subid_column, refl),
                    ),
                  ),
                ),
              ),
            ),
          ),
        ))

-- A row with all columns, whose arguments are written by `as_text_array` and whose environment by
-- `as_text_hstore`, gives a valid command with that metadata, arguments, environment and input, if
-- the arguments have no backslash and the environment is one that `from_text_hstore` reads back.
pub nix_cmd_of_row-written :
    (res : PgResult) (row : ℕ) (numbers : FieldNumbers) (identity relname cmd_id : Bytes)
    (cmd_subid : Option Bytes) (argv : List Bytes) (env : List (Bytes × Bytes)) (stdin : Bytes)
    → MetadataRow res row numbers identity relname cmd_id cmd_subid
    → is_null_at res row numbers (codes "cmd_argv") ≡ ok false
    → value_at res row numbers (codes "cmd_argv") ≡ ok (as_text_array argv)
    → is_null_at res row numbers (codes "cmd_env") ≡ ok false
    → value_at res row numbers (codes "cmd_env") ≡ ok (as_text_hstore env)
    → value_at res row numbers (codes "cmd_stdin") ≡ ok stdin
    → NoBackslash argv
    → PlainPairs env
    → PlainKeys [] env
    → nix_cmd_of_row res row numbers
      ≡ ok (loaded_cmd identity relname cmd_id cmd_subid argv env stdin)
unfolding nix_cmd_of_row new_metadata new_nix_queue_cmd loaded_metadata loaded_cmd
nix_cmd_of_row-written res row numbers identity relname cmd_id cmd_subid argv env stdin m na va ne
      ve vs nb pp pk =
    let start : QueueCmdMetadata → NixQueueCmd =
      λ meta. record (new_nix_queue_cmd [] [] [] none [] [] []) { meta = meta } in
    let steps =
      load_argv res row numbers ∷ load_env res row numbers ∷ load_stdin res row numbers ∷ [] in
    let c0 = start (loaded_metadata identity relname cmd_id cmd_subid) in
    let c1 : NixQueueCmd = record c0 { cmd_argv = argv } in
    let c2 : NixQueueCmd = record c1 { cmd_env = env } in
    ap (λ r. r >>= λ meta. after_cmd res row numbers (load steps (start meta)))
      (metadata_of_row-written res row numbers identity relname cmd_id cmd_subid m)
    ∙ ap (after_cmd res row numbers) (
        load-Loads steps c0 _ (
          c1,
          (
            load_argv-ok res row numbers c0 na va nb,
            (
              c2,
              (
                load_env-ok res row numbers c1 ne ve pp pk,
                (record c2 { cmd_stdin = stdin }, (load_stdin-ok res row numbers c2 vs, refl)),
              ),
            ),
          ),
        ))

-- A row whose `cmd_argv` is null still gives a command: with its metadata, no argument, no
-- environment and no input, and marked as not valid.
pub nix_cmd_of_row-null_argv :
    (res : PgResult) (row : ℕ) (numbers : FieldNumbers) (identity relname cmd_id : Bytes)
    (cmd_subid : Option Bytes)
    → MetadataRow res row numbers identity relname cmd_id cmd_subid
    → is_null_at res row numbers (codes "cmd_argv") ≡ ok true
    → nix_cmd_of_row res row numbers
      ≡ ok (record (loaded_cmd identity relname cmd_id cmd_subid [] [] []) { is_valid = false })
unfolding nix_cmd_of_row new_metadata new_nix_queue_cmd loaded_metadata loaded_cmd
nix_cmd_of_row-null_argv res row numbers identity relname cmd_id cmd_subid m n =
    let start : QueueCmdMetadata → NixQueueCmd =
      λ meta. record (new_nix_queue_cmd [] [] [] none [] [] []) { meta = meta } in
    let later = load_env res row numbers ∷ load_stdin res row numbers ∷ [] in
    let c0 = start (loaded_metadata identity relname cmd_id cmd_subid) in
    ap
      (λ r. r >>= λ meta.
        after_cmd res row numbers (load (load_argv res row numbers ∷ later) (start meta)))
      (metadata_of_row-written res row numbers identity relname cmd_id cmd_subid m)
    ∙ ap (after_cmd res row numbers)
        (load-Loads_threw [] c0 c0 (load_argv res row numbers) domain_error later refl (rw n refl))
