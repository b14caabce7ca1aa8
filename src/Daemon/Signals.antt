-- ===== src/Daemon/Signals.antt =====
-- `sig_recv` and `sig_num_received` of pg_cmdqd/sigstate.h and pg_cmdqd/sigstate.cpp.
use pg_cmd_queue.Base.{
  ℕ, zero, suc, ◌+◌, ◌-◌, ◌*◌, ℤ, pos, negsuc, ◌≡◌, refl, Bool, true, false, ◌||◌, List, [], ◌∷◌,
  ◌++◌, ◌==◌, ltb, leb, if◌then◌else◌, Result, ok, err, out_of_fuel, ◌>>=◌, arith,
}

-- `inline bool sig_recv[32]`.
abbrev pub SigRecv : Type 0
SigRecv = ℕ → Bool

unfoldable pub sig_num_received : SigRecv → List ℕ → ℕ
sig_num_received sig_recv [] = 0
sig_num_received sig_recv (sig_num ∷ sig_nums) =
    if sig_recv sig_num then sig_num else sig_num_received sig_recv sig_nums

-- None of these signals was received.
abbrev pub NoneReceived : SigRecv → List ℕ → Type 0
NoneReceived sig_recv [] = Unit
NoneReceived sig_recv (n ∷ ns) = (sig_recv n ≡ false) × NoneReceived sig_recv ns

-- The first of the given signals that was received is returned, and 0 if there is none.
pub sig_num_received_first :
    (sig_recv : SigRecv) (earlier : List ℕ) (sig_num : ℕ) (later : List ℕ)
    → NoneReceived sig_recv earlier
    → sig_recv sig_num ≡ true
    → (sig_num_received sig_recv (earlier ++ sig_num ∷ later) ≡ sig_num)
      × (sig_num_received sig_recv earlier ≡ 0)
unfolding sig_num_received
sig_num_received_first sig_recv [] sig_num later h e = ground arith
sig_num_received_first sig_recv (n ∷ earlier) sig_num later (h, hs) e =
    ground (arith, sig_num_received_first sig_recv earlier sig_num later hs e)

-- `receive_signal` (pg_cmdqd/cmdqueuerunnermanager.cpp) marks the signal, and for these writes its
-- number into the kill pipe.
abbrev pub ends_program : ℕ → Bool
ends_program sig_num = sig_num == 15 || (sig_num == 2 || sig_num == 3)

abbrev pub mark_received : ℕ → SigRecv → SigRecv
mark_received sig_num sig_recv n = if n == sig_num then true else sig_recv n

-- `write` gives a number of bytes, or -1. A call is for some bytes from `i` times four behind the
-- number's address: `i` counts bytes, but is added to a pointer to an `int`.
pub data PipeWrite : Type 0 where
  wrote : ℕ → PipeWrite
  write_failed : PipeWrite

pub record WriteCall : Type 0 where
  pub offset : ℤ
  pub n_bytes : ℕ

abbrev pub four_times : ℤ → ℤ
four_times (pos n) = pos (4 * n)
four_times (negsuc n) = negsuc (4 * n + 3)

-- `len - i`.
abbrev pub rest_of : ℤ → ℕ
rest_of (pos n) = 4 - n
rest_of (negsuc n) = 5 + n

-- `i += n`, where a `size_t` -1 makes `i` one less.
abbrev pub behind_write : PipeWrite → ℤ → ℤ
behind_write (wrote n) (pos i) = pos (i + n)
behind_write (wrote n) (negsuc i) = if ltb i n then pos (n - suc i) else negsuc (i - n)
behind_write write_failed (pos zero) = negsuc 0
behind_write write_failed (pos (suc i)) = pos i
behind_write write_failed (negsuc i) = negsuc (suc i)

abbrev pub is_done : ℤ → Bool
is_done (pos n) = leb 4 n
is_done (negsuc n) = false

-- The loop `while (i < len)`, and the calls of `write`.
unfoldable pub write_signal : List PipeWrite → ℤ → Result (List WriteCall)
write_signal [] i = if is_done i then ok [] else err out_of_fuel
write_signal (answer ∷ answers) i =
    let rest = write_signal answers (behind_write answer i) >>= λ calls.
    ok ((record { offset = four_times i; n_bytes = rest_of i }) ∷ calls) in
    if is_done i then ok [] else rest

unfoldable pub receive_signal : ℕ → List PipeWrite → SigRecv → Result (SigRecv × List WriteCall)
receive_signal sig_num answers sig_recv =
    (if ends_program sig_num then write_signal answers (pos 0) else ok []) >>= λ calls.
    ok (mark_received sig_num sig_recv, calls)

-- `signal_handler`: nothing as long as no instance has been made.
unfoldable pub signal_handler :
    Bool → ℕ → List PipeWrite → SigRecv → Result (SigRecv × List WriteCall)
signal_handler has_instance sig_num answers sig_recv =
    let received = receive_signal sig_num answers sig_recv in
    if has_instance then received else ok (sig_recv, [])

write_signal_done : (answers : List PipeWrite) → write_signal answers (pos 4) ≡ ok []
unfolding write_signal
write_signal_done [] = refl
write_signal_done (a ∷ answers) = refl

-- A terminating signal whose number the pipe takes in one piece is written once, and is then the one
-- that is found received, if none of those looked for before it was.
pub receive_signal-received :
    (sig_num : ℕ) (later : List PipeWrite) (sig_recv : SigRecv) (earlier more : List ℕ)
    → ends_program sig_num ≡ true
    → NoneReceived (mark_received sig_num sig_recv) earlier
    → (receive_signal sig_num (wrote 4 ∷ later) sig_recv
        ≡ ok (mark_received sig_num sig_recv, (record { offset = pos 0; n_bytes = 4 }) ∷ []))
      × (sig_num_received (mark_received sig_num sig_recv) (earlier ++ sig_num ∷ more) ≡ sig_num)
unfolding receive_signal write_signal
receive_signal-received sig_num later sig_recv earlier more h n = (
  simp (h, write_signal_done later) refl,
  (sig_num_received_first (mark_received sig_num sig_recv) earlier sig_num more n (ground arith)).0,
)
