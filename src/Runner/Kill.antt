-- ===== src/Runner/Kill.antt =====
-- `CmdQueueRunner<T>::kill` (pg_cmdqd/cmdqueuerunner.h): how a signal's number is written into the
-- pipe of a runner thread. `write` answers with a number of bytes, or with -1; the source keeps that
-- in a `size_t`, where -1 is the greatest number there is.
pub mod Pieces
use pg_cmd_queue.Base.{
  ℕ, zero, suc, ◌+◌, ◌-◌, ◌%◌, Bool, true, false, List, [], ◌∷◌, ◌==◌, ltb, if◌then◌else◌, Result,
  ok, err, out_of_fuel, ◌>>=◌,
}
use pg_cmd_queue.Daemon.Signals.{PipeWrite, wrote, write_failed}

-- Two to the power of 64, and the operators of `size_t`.
abbrev pub size_max_1 : ℕ
size_max_1 = 18446744073709551616

abbrev pub size_add : ℕ → ℕ → ℕ
size_add a b = (a + b) % size_max_1

abbrev pub size_sub : ℕ → ℕ → ℕ
size_sub a b = (a + (size_max_1 - b)) % size_max_1

-- The value of `kill_pipe_bytes_written`.
abbrev pub bytes_written : PipeWrite → ℕ
bytes_written (wrote n) = n
bytes_written write_failed = size_max_1 - 1

-- A call of `write`: from how many times the size of an `int` behind the number's address, and for
-- how many bytes.
pub record KillCall : Type 0 where
  pub ptr_offset : ℕ
  pub n_bytes : ℕ

-- The calls, and whether the last answer is reported as an error.
pub record Killed : Type 0 where
  pub calls : List KillCall
  pub reported : Bool

abbrev pub with_call : KillCall → Killed → Killed
with_call call k = record k { calls = call ∷ k.calls }

-- The loop: it goes on behind an answer that is more than 0, and none is less.
unfoldable pub kill_loop : List PipeWrite → ℕ → ℕ → Result Killed
kill_loop [] ptr_offset to_write = err out_of_fuel
kill_loop (answer ∷ answers) ptr_offset to_write =
    let written = bytes_written answer in
    let call : KillCall = record { ptr_offset = ptr_offset; n_bytes = to_write } in
    let rest = kill_loop answers (size_add ptr_offset written) (size_sub to_write written) >>= λ k.
    ok (with_call call k) in
    if ltb 0 written then rest else ok (record { calls = call ∷ []; reported = ltb written 0 })

-- A runner whose thread is not running is left alone.
unfoldable pub kill : Bool → List PipeWrite → Result Killed
kill running answers =
    let written = kill_loop answers 0 4 in
    if running then written else ok (record { calls = []; reported = false })
