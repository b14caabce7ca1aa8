-- ===== src/Sys/PipeFds.antt =====
-- `PipeFds` (pg_cmdqd/pipefds.cpp) and `FdGuard` (pg_cmdqd/fdguard.cpp). A descriptor that is -1 is
-- none. What the kernel answers is given, and every `close` is recorded.
use mathlib.Core.List.{append_assoc}
use pg_cmd_queue.Base.{
  ℕ, zero, suc, Bool, true, false, not, Option, none, some, List, [], ◌∷◌, ◌++◌, if◌then◌else◌,
  Result, ok, err, runtime_error, out_of_fuel, ◌>>=◌, ◌≡◌, refl, ap, ◌∙◌,
}

-- The descriptors, and those that `close` was called with.
pub record PipeFds : Type 0 where
  pub read_end : Option ℕ
  pub write_end : Option ℕ
  pub closes : List ℕ

-- `close` succeeds, is interrupted, or fails.
pub data CloseAnswer : Type 0 where
  closed close_interrupted close_failed : CloseAnswer

-- `pipe`, and the two `fcntl`s that set the flags if there are any. If one of these fails, the
-- object is not there, and nothing has closed the descriptors.
unfoldable pub new_pipe_fds : Option (ℕ × ℕ) → Bool → Bool → Bool → Result PipeFds
new_pipe_fds none has_flags read_flags_ok write_flags_ok = err runtime_error
new_pipe_fds (some (r, w)) has_flags read_flags_ok write_flags_ok =
    let fds = ok (record { read_end = some r; write_end = some w; closes = [] }) in
    if not has_flags
    then fds
    else if not read_flags_ok
    then err runtime_error
    else if not write_flags_ok
    then err runtime_error
    else fds

-- `while ((close_result = close(fd)) == -1 && errno == EINTR) {}`: whether it then failed, and the
-- calls.
unfoldable pub close_loop : ℕ → List CloseAnswer → List ℕ → Result (Bool × List ℕ)
close_loop fd [] closes = err out_of_fuel
close_loop fd (closed ∷ answers) closes = ok (false, closes ++ fd ∷ [])
close_loop fd (close_interrupted ∷ answers) closes = close_loop fd answers (closes ++ fd ∷ [])
close_loop fd (close_failed ∷ answers) closes = ok (true, closes ++ fd ∷ [])

-- The object behind the call, and whether it threw.
unfoldable pub close_read_fd : List CloseAnswer → PipeFds → Result (Bool × PipeFds)
close_read_fd answers fds = elim fds.read_end [
  | none ↦ ok (false, fds)
  | some fd ↦ close_loop fd answers fds.closes >>= λ (threw, closes).
      ok (threw, record fds { read_end = none; closes = closes })
]

unfoldable pub close_write_fd : List CloseAnswer → PipeFds → Result (Bool × PipeFds)
close_write_fd answers fds = elim fds.write_end [
  | none ↦ ok (false, fds)
  | some fd ↦ close_loop fd answers fds.closes >>= λ (threw, closes).
      ok (threw, record fds { write_end = none; closes = closes })
]

-- The destructor: what it throws ends the program.
unfoldable pub delete_pipe_fds : List CloseAnswer → List CloseAnswer → PipeFds → Result PipeFds
delete_pipe_fds answers answers2 fds = close_read_fd answers fds >>= λ (threw, fds1).
    if threw
    then err runtime_error
    else close_write_fd answers2 fds1 >>= λ (threw2, fds2).
        if threw2 then err runtime_error else ok fds2

-- `FdGuard` has one descriptor, which is there, and its destructor passes over a failure.
unfoldable pub new_fd_guard : Option ℕ → Result ℕ
new_fd_guard none = err runtime_error
new_fd_guard (some fd) = ok fd

unfoldable pub delete_fd_guard : ℕ → List CloseAnswer → Result (List ℕ)
delete_fd_guard fd answers = close_loop fd answers [] >>= λ (failed, closes). ok closes

-- That many interrupted calls, and then `last`.
abbrev pub interruptions : ℕ → CloseAnswer → List CloseAnswer
interruptions zero last = last ∷ []
interruptions (suc n) last = close_interrupted ∷ interruptions n last

abbrev pub calls : ℕ → ℕ → List ℕ
calls fd zero = fd ∷ []
calls fd (suc n) = fd ∷ calls fd n

close_loop-interruptions :
    (fd n : ℕ) (closes : List ℕ)
    → close_loop fd (interruptions n closed) closes ≡ ok (false, closes ++ calls fd n)
unfolding close_loop
close_loop-interruptions fd zero closes = refl
close_loop-interruptions fd (suc n) closes =
    close_loop-interruptions fd n (closes ++ fd ∷ [])
    ∙ ap (λ t. ok (false, t)) (append_assoc closes (fd ∷ []) (calls fd n))

-- A pipe whose writing end is closed early, as the parent of a command does, has both its
-- descriptors closed when it is gone, each of them only until `close` is no longer interrupted.
pub delete_pipe_fds-close_write_fd :
    (r w n k : ℕ) (has_flags : Bool)
    → (new_pipe_fds (some (r, w)) has_flags true true >>= λ fds.
        close_write_fd (interruptions n closed) fds >>= λ (threw, fds1).
        delete_pipe_fds (interruptions k closed) [] fds1)
      ≡ ok (record { read_end = none; write_end = none; closes = calls w n ++ calls r k })
unfolding new_pipe_fds close_write_fd close_read_fd delete_pipe_fds
delete_pipe_fds-close_write_fd r w n k true =
    simp (close_loop-interruptions w n [], close_loop-interruptions r k (calls w n)) refl
delete_pipe_fds-close_write_fd r w n k false =
    simp (close_loop-interruptions w n [], close_loop-interruptions r k (calls w n)) refl
