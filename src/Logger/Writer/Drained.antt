-- ===== src/Logger/Writer/Drained.antt =====
-- What the writing thread of pg_cmdqd/logger.cpp still writes behind `quit`.
use mathlib.Core.List.{append_assoc, append-nil}
use mathlib.Core.Path.{ap₂}
use pg_cmd_queue.Base.{
  ℕ, zero, suc, ◌+◌, ◌-◌, ◌≤◌, ◌<◌, Bool, true, false, not, ◌||◌, List, [], ◌∷◌, ◌++◌, ltb, Bytes,
  codes, take, drop, length, if◌then◌else◌, ok, ◌≡◌, refl, ap, sym, ◌∙◌, arith,
}
use pg_cmd_queue.Logger.Writer.{
  LogLine, Target, log_file, std_out, std_err, Logger, real_lines, put, write_real_line,
  write_real_lines, write_line, write_round, write_log,
}

-- What is written of a line, with the file open or not.
abbrev pub real_outputs : Bool → Bool → List Bytes → List (Target × Bytes)
real_outputs file also [] = []
real_outputs file also (s ∷ real_lines) =
    (if file then (log_file, s) ∷ [] else [])
    ++ ((if not file || also then (std_out, s) ∷ [] else []) ++ real_outputs file also real_lines)

abbrev pub outputs : Bool → List LogLine → List (Target × Bytes)
outputs file [] = []
outputs file (line ∷ lines) =
    real_outputs file line.also_to_std_out (real_lines line.line) ++ outputs file lines

-- A logger behind `quit`, with these lines, this value of the semaphore and these things written, which shall not
-- open its file again.
abbrev pub draining : Logger → List LogLine → ℕ → List (Target × Bytes) → Logger
draining l lines n w = record l {
  running = false;
  lines = lines;
  lines_pending = n;
  written = w;
  reload = false;
}

module _ (file_takes : Bytes → Bool) (takes : (s : Bytes) → file_takes s ≡ true) where
  write_real_line-output :
      (l : Logger) (lines : List LogLine) (n : ℕ) (w : List (Target × Bytes)) (also : Bool)
      (s : Bytes)
      → write_real_line file_takes also s (draining l lines n w)
        ≡ draining l lines n (
            w
            ++ ((if l.file then (log_file, s) ∷ [] else [])
                ++ (if not l.file || also then (std_out, s) ∷ [] else [])))
  unfolding write_real_line
  write_real_line-output l lines n w also s = go l.file also
    where
      go :
          (file also : Bool)
          → (let l0 = draining l lines n w in
              let l1 =
                if file
                then (if file_takes s
                    then put log_file s l0
                    else put std_err
                        (codes "Writing to log failed. Enabling stdout logger.")
                        (record l0 { also_log_to_std = true }))
                else l0 in
              if not file || also then put std_out s l1 else l1)
            ≡ draining l lines n (
                w
                ++ ((if file then (log_file, s) ∷ [] else [])
                    ++ (if not file || also then (std_out, s) ∷ [] else [])))
      go false also = refl
      go true false = rw (takes s) refl
      go true true = rw (takes s) (ap (draining l lines n) (append_assoc w _ _))

  write_real_lines-output :
      (l : Logger) (lines : List LogLine) (n : ℕ) (w : List (Target × Bytes)) (also : Bool)
      (ss : List Bytes)
      → write_real_lines file_takes also ss (draining l lines n w)
        ≡ draining l lines n (w ++ real_outputs l.file also ss)
  write_real_lines-output l lines n w also [] = ap (draining l lines n) (sym (append-nil w))
  write_real_lines-output l lines n w also (s ∷ ss) =
      ap (write_real_lines file_takes also ss) (write_real_line-output l lines n w also s)
      ∙ write_real_lines-output l lines n _ also ss
      ∙ ap (draining l lines n) (simp append_assoc)

  write_round-draining :
      (opens : Bool) (message : Bytes) (l : Logger) (line : LogLine) (lines : List LogLine) (n : ℕ)
      (w : List (Target × Bytes))
      → write_round file_takes opens message (draining l (line ∷ lines) n w)
        ≡ draining l lines n (w ++ real_outputs l.file line.also_to_std_out (real_lines line.line))
  unfolding write_round write_line
  write_round-draining opens message l line lines n w =
      write_real_lines-output l lines n w line.also_to_std_out (real_lines line.line)

  -- Behind `quit`, when no other thread logs any more, and the semaphore is at least the number of
  -- lines there are: the thread is never blocked, and writes as many lines as are left of its 1000
  -- of grace, in the order in which they were logged, each to the file and to the standard output
  -- as the line says, and leaves the lines behind these; if the file takes what is written and is
  -- not to be opened again.
  pub write_log-draining :
      (fuel : ℕ) (opens : Bool) (message : Bytes) (grace grace_left : ℕ) (l : Logger)
      (lines : List LogLine) (n : ℕ) (w : List (Target × Bytes))
      → length lines < fuel
      → length lines ≤ n
      → grace + grace_left ≡ 1000
      → write_log file_takes fuel opens message grace (draining l lines n w)
        ≡ ok (
            draining l
              (drop grace_left lines)
              (n - length (take grace_left lines))
              (w ++ outputs l.file (take grace_left lines)))
  unfolding write_log
  write_log-draining zero opens message grace grace_left l lines n w f p g = absurd (omega arith)
  write_log-draining (suc fuel) opens message grace zero l [] n w f p g =
      ap₂ (λ k t. ok (draining l [] k t)) {y = n - 0} (omega arith) (sym (append-nil w))
  write_log-draining (suc fuel) opens message grace (suc left) l [] n w f p g =
      ap₂ (λ k t. ok (draining l [] k t)) {y = n - 0} (omega arith) (sym (append-nil w))
  write_log-draining (suc fuel) opens message grace zero l (line ∷ lines) n w f p g =
      let e : ltb grace 1000 ≡ false = ground arith in
      rw e (
        ap₂ (λ k t. ok (draining l (line ∷ lines) k t)) {y = n - 0} (omega arith)
          (sym (append-nil w)))
  write_log-draining (suc fuel) opens message grace (suc left) l (line ∷ lines) zero w f p g =
      absurd (omega arith)
  write_log-draining (suc fuel) opens message grace (suc left) l (line ∷ lines) (suc n) w f p g =
      let e : ltb grace 1000 ≡ true = ground arith in
      rw e (
        ap (write_log file_takes fuel opens message (grace + 1))
          (write_round-draining opens message l line lines n w)
        ∙ write_log-draining fuel opens message (grace + 1) left l lines n _ (omega arith)
            (omega arith) (omega arith)
        ∙ ap₂ (λ k t. ok (draining l (drop left lines) k t)) (omega arith) (append_assoc w _ _))
