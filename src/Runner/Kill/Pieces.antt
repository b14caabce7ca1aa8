-- ===== src/Runner/Kill/Pieces.antt =====
-- What the loop of `CmdQueueRunner<T>::kill` (pg_cmdqd/cmdqueuerunner.h) makes of the answers of
-- `write`.
use pg_cmd_queue.Base.{
  ℕ, zero, suc, ◌+◌, ◌-◌, ◌<◌, ◌≤◌, true, false, List, [], ◌∷◌, ◌++◌, lt→ltb, map, length, Result,
  ok, err, ◌>>=◌, ◌≡◌, refl, ap, arith,
}
use pg_cmd_queue.Daemon.Signals.{PipeWrite, wrote, write_failed}
use pg_cmd_queue.Runner.Kill.{
  size_max_1, size_add, size_sub, KillCall, Killed, with_call, kill_loop, kill,
}

-- Pieces that the pipe takes: none is empty, and together they are what is left to write.
abbrev pub Pieces : ℕ → List ℕ → Type 0
Pieces left [] = left ≡ 0
Pieces left (n ∷ ns) = (0 < n) × (n ≤ left) × Pieces (left - n) ns

-- The calls for these pieces, and the last one for no bytes.
abbrev pub calls_for : ℕ → ℕ → List ℕ → List KillCall
calls_for done left [] = (record { ptr_offset = done; n_bytes = left }) ∷ []
calls_for done left (n ∷ ns) =
    (record { ptr_offset = done; n_bytes = left }) ∷ calls_for (done + n) (left - n) ns

size_add-small : (a b : ℕ) → a + b < size_max_1 → size_add a b ≡ a + b
size_add-small a b h = omega arith

size_sub-small : (a b : ℕ) → a < size_max_1 → b ≤ a → size_sub a b ≡ a - b
size_sub-small a b h l = omega arith

kill_loop-Pieces :
    (done left : ℕ) (pieces : List ℕ) (later : List PipeWrite)
    → done + left ≤ 4
    → Pieces left pieces
    → kill_loop (map wrote pieces ++ wrote 0 ∷ later) done left
      ≡ ok (record { calls = calls_for done left pieces; reported = false })
unfolding kill_loop
kill_loop-Pieces done left [] later l p = refl
kill_loop-Pieces done left (n ∷ ns) later l (pos, le, p) =
    simp
      (
        lt→ltb 0 n pos,
        size_add-small done n (omega arith),
        size_sub-small left n (omega arith) le,
        kill_loop-Pieces (done + n) (left - n) ns later (omega arith) p,
      )
      refl

-- If the pipe takes the four bytes of a number in pieces and then nothing, the loop ends, and no
-- error is reported. The calls ask for what is left of the four bytes, but start as many times the
-- size of an `int` behind the number's address as bytes have been written.
pub kill-Pieces :
    (pieces : List ℕ) (later : List PipeWrite)
    → Pieces 4 pieces
    → kill true (map wrote pieces ++ wrote 0 ∷ later)
      ≡ ok (record { calls = calls_for 0 4 pieces; reported = false })
unfolding kill
kill-Pieces pieces later p = kill_loop-Pieces 0 4 pieces later (omega arith) p

-- If the loop ended, no error is reported, and what ended it is an answer of 0, by which each answer
-- had its call.
abbrev pub EndsAtZero : List PipeWrite → Result Killed → Type 0
EndsAtZero answers (ok k) =
    (k.reported ≡ false)
    × ((before : List PipeWrite) × (later : List PipeWrite) × (answers ≡ before ++ wrote 0 ∷ later)
        × (length k.calls ≡ suc (length before)))
EndsAtZero answers (err e) = Unit

EndsAtZero-cons :
    (answer : PipeWrite) (answers : List PipeWrite) (call : KillCall) (r : Result Killed)
    → EndsAtZero answers r
    → EndsAtZero (answer ∷ answers) (r >>= λ k. ok (with_call call k))
EndsAtZero-cons answer answers call (ok k) (e, (before, later, s, n)) =
    (e, (answer ∷ before, later, ap (λ l. answer ∷ l) s, ap suc n))
EndsAtZero-cons answer answers call (err e) h = tt

kill_loop-EndsAtZero :
    (answers : List PipeWrite) (ptr_offset to_write : ℕ)
    → EndsAtZero answers (kill_loop answers ptr_offset to_write)
unfolding kill_loop
kill_loop-EndsAtZero [] ptr_offset to_write = tt
kill_loop-EndsAtZero (wrote zero ∷ answers) ptr_offset to_write = (refl, ([], answers, refl, refl))
kill_loop-EndsAtZero (wrote (suc n) ∷ answers) ptr_offset to_write =
    rw (lt→ltb 0 (suc n) (omega arith))
      (EndsAtZero-cons _ answers _ _ (kill_loop-EndsAtZero answers _ _))
kill_loop-EndsAtZero (write_failed ∷ answers) ptr_offset to_write =
    EndsAtZero-cons _ answers _ _ (kill_loop-EndsAtZero answers _ _)

-- Whatever a running runner's pipe answers: no error is ever reported, and when the loop ends, it
-- was by an answer of 0, with a call for it and for each answer before. So while each `write` fails
-- the loop goes on.
pub kill-EndsAtZero : (answers : List PipeWrite) → EndsAtZero answers (kill true answers)
unfolding kill
kill-EndsAtZero answers = kill_loop-EndsAtZero answers 0 4
