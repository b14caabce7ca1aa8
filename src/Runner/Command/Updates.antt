-- ===== src/Runner/Command/Updates.antt =====
-- The values of the `UPDATE` that the server gets for a command of the queue
-- (pg_cmdqd/cmdqueuerunner.h, pg_cmdqd/nixqueuecmd.cpp, pg_cmdqd/sqlqueuecmd.cpp).
use pg_cmd_queue.Base.{
  ℕ, ℤ, pos, negsuc, ◌≡◌, refl, ap, ◌∙◌, ◌≢◌, Option, none, some, List, [], ◌∷◌, ◌++◌, false, Bytes,
  length, ◌<◌, ◌%◌, lt→ltb, codes, Result, ok, ◌>>=◌, arith,
}
use pg_cmd_queue.Text.Scan.{c_str}
use pg_cmd_queue.Text.Quote.{as_text_array, as_text_hstore}
use pg_cmd_queue.Text.Array.RoundTrip.{NoBackslash}
use pg_cmd_queue.Text.Hstore.RoundTrip.{PlainPairs, PlainKeys}
use pg_cmd_queue.Pq.Rows.{PgResult, FieldNumbers, value_at, is_null_at}
use pg_cmd_queue.Pq.Exec.{raw_value, exec_prepared}
use pg_cmd_queue.Pq.Exec.Bound.{Reads, bound, bound_value}
use pg_cmd_queue.Nix.Command.{
  NixQueueCmd, new_metadata, stamp_start_time, stamp_end_time, as_text, code_text,
  new_nix_queue_cmd, started, ended, update_params, update_param_lengths, update_param_formats,
  as_int,
}
use pg_cmd_queue.Nix.Io.{Errno}
use pg_cmd_queue.Nix.Poll.{exited, wait_failed, Waited, timed_out, Round}
use pg_cmd_queue.Nix.Poll.Captured.{status_of}
use pg_cmd_queue.Nix.Run.Chunks.{QuietRounds, stdout_chunks, stderr_chunks}
use pg_cmd_queue.Nix.Row.RoundTrip.{MetadataRow, loaded_cmd, nix_cmd_of_row-written}
use pg_cmd_queue.Nix.Run.{forked, Ran, run_cmd}
use pg_cmd_queue.Nix.Run.Outputs.{run_cmd-captured}
use pg_cmd_queue.Runner.Command.{nix_cmd_type, ran_cmd, update_cmd, handle_row}

-- A text as the server gets it.
abbrev pub text_param : Option Bytes → Option Bytes
text_param none = none
text_param (some s) = some (c_str s)

pub bound_value-text :
    (read : ℕ → ℤ → Bytes → Bytes) (n : ℤ) (value : Option Bytes)
    → Reads read
    → bound_value read 0 n (raw_value value) ≡ text_param value
bound_value-text read n none r = refl
bound_value-text read n (some value) r = ap some (r.text n value)

module _ (format_time : ℕ → Bytes) (to_string : ℤ → Bytes) where
  -- The values of the `UPDATE` for a command.
  abbrev pub update_values : NixQueueCmd → List (Option Bytes)
  update_values cmd =
      text_param (some cmd.meta.cmd_id)
      ∷ text_param cmd.meta.cmd_subid
      ∷ text_param (some (format_time cmd.meta.cmd_runtime_start))
      ∷ text_param (some (format_time cmd.meta.cmd_runtime_end))
      ∷ text_param (code_text format_time to_string cmd.cmd_exit_code)
      ∷ text_param (as_text format_time to_string cmd.cmd_term_sig)
      ∷ some cmd.cmd_stdout
      ∷ some cmd.cmd_stderr
      ∷ []

  as_int-small : (n : ℕ) → n < 2147483648 → as_int n ≡ pos n
  unfolding as_int
  as_int-small n h =
      let same : n % 4294967296 ≡ n = omega arith in simp (same, lt→ltb n 2147483648 h) refl

  -- If the outputs are shorter than 2 GiB, of a command the server gets the two outputs byte by byte, and the other values as text.
  pub bound-update_cmd :
      (read : ℕ → ℤ → Bytes → Bytes) (run : NixQueueCmd → Result Ran) (cmd : NixQueueCmd)
      → Reads read
      → length cmd.cmd_stdout < 2147483648
      → length cmd.cmd_stderr < 2147483648
      → bound read (update_cmd (nix_cmd_type format_time to_string run) cmd)
        ≡ ok (update_values cmd)
  unfolding update_cmd exec_prepared update_params update_param_lengths update_param_formats
  bound-update_cmd read run cmd r o e =
      let text : (value : Option Bytes)
          → bound_value read 0 (negsuc 0) (raw_value value) ≡ text_param value =
        λ value. bound_value-text read (negsuc 0) value r in
      simp (text, as_int-small _ o, as_int-small _ e, r.binary, r.text) refl

  -- From a row of the queue to the values of its `UPDATE`: a command whose row holds the arguments
  -- and the environment as the writers of text make them, and that exits on its own with no call
  -- failing on the way, is run, and then the server gets its identifiers, its times, its exit
  -- code, no terminating signal, and just the chunks that `read()` gave of its two pipes, in their
  -- order; if the server reads parameters as libpq documents, and each of the two outputs is shorter
  -- than 2 GiB, as the cast of its length to an `int` needs.
  pub handle_row-bound :
      (strerror : Errno → Bytes) (timeout : ℕ) (read : ℕ → ℤ → Bytes → Bytes) (res : PgResult)
      (numbers : FieldNumbers) (identity relname cmd_id : Bytes) (cmd_subid : Option Bytes)
      (argv : List Bytes) (env : List (Bytes × Bytes)) (stdin : Bytes) (start_time end_time : ℕ)
      (rounds : List Round) (last : Round) (later : List Round) (message : Bytes)
      (final_wait : Waited) (code : ℕ)
      → Reads read
      → MetadataRow res 0 numbers identity relname cmd_id cmd_subid
      → is_null_at res 0 numbers (codes "cmd_argv") ≡ ok false
      → value_at res 0 numbers (codes "cmd_argv") ≡ ok (as_text_array argv)
      → is_null_at res 0 numbers (codes "cmd_env") ≡ ok false
      → value_at res 0 numbers (codes "cmd_env") ≡ ok (as_text_hstore env)
      → value_at res 0 numbers (codes "cmd_stdin") ≡ ok stdin
      → NoBackslash argv
      → PlainPairs env
      → PlainKeys [] env
      → QuietRounds stdin rounds
      → last.waited ≢ wait_failed
      → last.polled ≡ timed_out
      → status_of (rounds ++ last ∷ []) ≡ some (exited code)
      → length (stdout_chunks rounds) < 2147483648
      → length (stderr_chunks rounds) < 2147483648
      → (handle_row
            (nix_cmd_type format_time to_string (
              run_cmd strerror timeout
                (forked none none)
                (rounds ++ last ∷ later)
                message
                final_wait))
            res
            numbers
            start_time
            end_time
          >>= bound read)
        ≡ ok (
            text_param (some cmd_id)
            ∷ text_param cmd_subid
            ∷ text_param (some (format_time start_time))
            ∷ text_param (some (format_time end_time))
            ∷ text_param (some (to_string (pos code)))
            ∷ none
            ∷ some (stdout_chunks rounds)
            ∷ some (stderr_chunks rounds)
            ∷ [])
  unfolding handle_row loaded_cmd new_nix_queue_cmd new_metadata stamp_start_time stamp_end_time
  handle_row-bound strerror timeout read res numbers identity relname cmd_id cmd_subid argv env
        stdin start_time end_time rounds last later message final_wait code r m na va ne ve vs nb pp
        pk p w l h lo le =
      let run =
        run_cmd strerror timeout (forked none none) (rounds ++ last ∷ later) message final_wait in
      let t = nix_cmd_type format_time to_string run in
      let cmd = loaded_cmd identity relname cmd_id cmd_subid argv env stdin in
      let (ran, position, q, same, _) =
        run_cmd-captured strerror timeout rounds last later message final_wait
          (started start_time cmd) code (omega arith) p w l h in
      ap
        (λ c.
          (c >>= λ queue_cmd. t.run_cmd (started start_time queue_cmd) >>= λ done.
          ok (update_cmd t (ended end_time done)))
          >>= bound read)
        (nix_cmd_of_row-written res 0 numbers identity relname cmd_id cmd_subid argv env stdin m na
          va ne ve vs nb pp pk)
      ∙ ap (λ o. (ran_cmd o >>= λ done. ok (update_cmd t (ended end_time done))) >>= bound read) q
      ∙ bound-update_cmd read run (ended end_time ran.cmd) r
          (rw (ap (λ (c : NixQueueCmd). c.cmd_stdout) same) lo)
          (rw (ap (λ (c : NixQueueCmd). c.cmd_stderr) same) le)
      ∙ ap (λ c. ok (update_values (ended end_time c))) same
