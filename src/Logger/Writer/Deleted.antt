-- ===== src/Logger/Writer/Deleted.antt =====
-- The destructor of `Logger` (pg_cmdqd/logger.cpp).
use pg_cmd_queue.Base.{
  ℕ, zero, suc, ◌+◌, ◌-◌, ◌≤◌, ◌<◌, Bool, true, false, List, [], ◌∷◌, ◌++◌, Bytes, take, drop,
  length, if◌then◌else◌, Result, ok, ◌>>=◌, ◌≡◌, refl, ap, ◌∙◌, arith,
}
use pg_cmd_queue.Logger.Writer.{LogLine, Logger, quit, write_log}
use pg_cmd_queue.Logger.Writer.Drained.{outputs, draining, write_log-draining}

abbrev close : Logger → Result Logger
close l = ok (record l { file = false })

module _ (file_takes : Bytes → Bool) where
  -- `quit` joins the thread, whose loop goes on until then.
  unfoldable pub delete_logger : ℕ → Bool → Bytes → Logger → Result Logger
  delete_logger fuel opens message l =
      let joined = write_log file_takes fuel opens message 0 (quit l) in
      (if l.running then joined else ok l) >>= close

drop_all : (n : ℕ) (lines : List LogLine) → length lines ≤ n → drop n lines ≡ []
drop_all zero [] h = refl
drop_all zero (line ∷ lines) h = absurd (omega arith)
drop_all (suc n) [] h = refl
drop_all (suc n) (line ∷ lines) h = drop_all n lines (omega arith)

take_all : (n : ℕ) (lines : List LogLine) → length lines ≤ n → take n lines ≡ lines
take_all zero [] h = refl
take_all zero (line ∷ lines) h = absurd (omega arith)
take_all (suc n) [] h = refl
take_all (suc n) (line ∷ lines) h = ap (λ ls. line ∷ ls) (take_all n lines (omega arith))

module _ (file_takes : Bytes → Bool) (takes : (s : Bytes) → file_takes s ≡ true) where
  -- A running logger is deleted with at most 1000 lines in its queue, each posted, when no other
  -- thread logs any more: the call returns, and each line has been written, in their order; if the
  -- file takes what is written and is not to be opened again.
  pub delete_logger-outputs :
      (fuel : ℕ) (opens : Bool) (message : Bytes) (l : Logger)
      → l.running ≡ true
      → l.reload ≡ false
      → length l.lines < fuel
      → length l.lines ≤ l.lines_pending
      → length l.lines ≤ 1000
      → (d : Logger) × (delete_logger file_takes fuel opens message l ≡ ok d)
        × (d.lines ≡ [])
        × (d.written ≡ l.written ++ outputs l.file l.lines)
        × (d.file ≡ false)
  unfolding delete_logger quit
  delete_logger-outputs fuel opens message l r q f p g =
      let drained =
        write_log-draining file_takes takes fuel opens message 0 1000 l l.lines
          (l.lines_pending + 1) l.written f (omega arith) refl in
      let d : Logger =
        draining l (drop 1000 l.lines) (l.lines_pending + 1 - length (take 1000 l.lines))
          (l.written ++ outputs l.file (take 1000 l.lines)) in
      (
        record d { file = false },
        ap (λ b. (if b then write_log file_takes fuel opens message 0 (quit l) else ok l) >>= close)
              r
            ∙ ap
                (λ b.
                  write_log file_takes fuel opens message 0 (record (quit l) { reload = b })
                  >>= close)
                q
            ∙ ap (λ o. o >>= close) drained,
        drop_all 1000 l.lines g,
        ap (λ ls. l.written ++ outputs l.file ls) (take_all 1000 l.lines g),
        refl,
      )
