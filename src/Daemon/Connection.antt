-- ===== src/Daemon/Connection.antt =====
-- `maintain_connection` of pg_cmdqd/pq_cmdqd_utils.cpp. What libpq and the signal handler answer in
-- each round is an `Attempt`; the seconds slept are collected.
use Prim.Native.Nat.{min}
use pg_cmd_queue.Base.{
  ℕ, zero, suc, ◌*◌, ◌^◌, ◌≤◌, ◌≡◌, refl, ap, ◌∙◌, ◌⊎◌, inl, inr, Bool, true, false, Option, none,
  some, List, [], ◌∷◌, ◌++◌, leb, if◌then◌else◌, Result, ok, err, out_of_fuel, arith, Bool-cases,
  ◌||◌, ◌≢◌, length,
}
use mathlib.Core.List.{append_assoc, append-nil}

-- `ConnStatusType`.
pub data ConnStatus : Type 0 where
  connection_ok connection_bad connection_other : ConnStatus

-- Whether a signal has been received at the loop's test, and the status behind `connectdb` or
-- `reset`.
pub record Attempt : Type 0 where
  pub signalled : Bool
  pub status : ConnStatus

abbrev pub is_ok : ConnStatus → Bool
is_ok connection_ok = true
is_ok _ = false

abbrev pub max_retry_seconds : ℕ
max_retry_seconds = 60

-- `if (retry_seconds * 2 <= max_retry_seconds) retry_seconds *= 2;`
unfoldable pub next_retry : ℕ → ℕ
next_retry retry_seconds =
    if leb (retry_seconds * 2) max_retry_seconds then retry_seconds * 2 else retry_seconds

-- The connection behind the loop, or none, and the seconds slept.
pub record Connecting : Type 0 where
  pub conn : Option ConnStatus
  pub slept : List ℕ

-- `while (not sig_num_received({SIGQUIT, SIGTERM, SIGINT}))`; the loop that resets the connection
-- is this one with no `one_shot`.
unfoldable pub connect_loop : Bool → ℕ → List Attempt → Connecting → Result Connecting
connect_loop one_shot retry_seconds [] c = err out_of_fuel
connect_loop one_shot retry_seconds (a ∷ attempts) c =
    let rest =
      connect_loop one_shot (next_retry retry_seconds) attempts
        (record { conn = some a.status; slept = c.slept ++ retry_seconds ∷ [] }) in
    if a.signalled
    then ok c
    else if is_ok a.status
    then ok (record c { conn = some a.status })
    else if one_shot
    then ok (record c { conn = some a.status })
    else rest

unfoldable pub maintain_connection : Bool → List Attempt → Option ConnStatus → Result Connecting
maintain_connection one_shot attempts (some connection_ok) =
    ok (record { conn = some connection_ok; slept = [] })
maintain_connection one_shot attempts none =
    connect_loop one_shot 1 attempts (record { conn = none; slept = [] })
maintain_connection one_shot attempts (some connection_bad) =
    if one_shot
    then ok (record { conn = some connection_bad; slept = [] })
    else connect_loop false 1 attempts (record { conn = some connection_bad; slept = [] })
maintain_connection one_shot attempts (some connection_other) =
    ok (record { conn = some connection_other; slept = [] })

-- The waiting times from the `k`-th on: 1, 2, 4, 8, 16, 32, and then 32 for ever.
abbrev pub backoff : ℕ → ℕ
backoff k = 2 ^ min k 5

abbrev pub backoffs : ℕ → ℕ → List ℕ
backoffs k zero = []
backoffs k (suc n) = backoff k ∷ backoffs (suc k) n

next_retry-backoff : (k : ℕ) → next_retry (backoff k) ≡ backoff (suc k)
unfolding next_retry
next_retry-backoff zero = refl
next_retry-backoff (suc zero) = refl
next_retry-backoff (suc (suc zero)) = refl
next_retry-backoff (suc (suc (suc zero))) = refl
next_retry-backoff (suc (suc (suc (suc zero)))) = refl
next_retry-backoff (suc (suc (suc (suc (suc k))))) =
    ap (λ (m : ℕ). next_retry (2 ^ m)) {y = 5} (omega arith)
    ∙ ap (λ (m : ℕ). 2 ^ m) {x = 5} {y = min (suc (suc (suc (suc (suc (suc k)))))) 5} (omega arith)

-- The loop stops at this attempt.
abbrev stops : Bool → Attempt → Bool
stops one_shot a = a.signalled || (is_ok a.status || one_shot)

abbrev stopped : Attempt → Connecting → Connecting
stopped a c = if a.signalled then c else record c { conn = some a.status }

connect_loop_stop :
    (one_shot : Bool) (retry : ℕ) (a : Attempt) (attempts : List Attempt) (c : Connecting)
    → stops one_shot a ≡ true
    → connect_loop one_shot retry (a ∷ attempts) c ≡ ok (stopped a c)
unfolding connect_loop
connect_loop_stop one_shot retry a attempts c h = ground arith

connect_loop_again :
    (one_shot : Bool) (retry : ℕ) (a : Attempt) (attempts : List Attempt) (c : Connecting)
    → stops one_shot a ≡ false
    → connect_loop one_shot retry (a ∷ attempts) c
      ≡ connect_loop one_shot
          (next_retry retry)
          attempts
          (record { conn = some a.status; slept = c.slept ++ retry ∷ [] })
unfolding connect_loop
connect_loop_again one_shot retry a attempts c h = ground arith

-- The loop has ended, after some of the waiting times from the `k`-th on.
abbrev EndsAfter : ℕ → ℕ → Connecting → Result Connecting → Type 0
EndsAfter k most c r =
    (d : Connecting) × (n : ℕ) × (r ≡ ok d) × (d.slept ≡ c.slept ++ backoffs k n) × (n ≤ most)

connect_loop-EndsAfter :
    (one_shot : Bool) (k : ℕ) (before : List Attempt) (last : Attempt) (later : List Attempt)
    (c : Connecting)
    → stops one_shot last ≡ true
    → EndsAfter k (length before) c (connect_loop one_shot (backoff k) (before ++ last ∷ later) c)
connect_loop-EndsAfter one_shot k [] last later c h = (
  stopped last c,
  0,
  connect_loop_stop one_shot (backoff k) last later c h,
  ground (arith, append-nil c.slept),
  omega arith,
)
connect_loop-EndsAfter one_shot k (a ∷ before) last later c h =
    elim (Bool-cases (stops one_shot a)) [
      | inl e ↦ (
        stopped a c,
        0,
        connect_loop_stop one_shot (backoff k) a _ c e,
        ground (arith, append-nil c.slept),
        omega arith,
      )
      | inr e ↦
          let next : Connecting = record {
            conn = some a.status;
            slept = c.slept ++ backoff k ∷ [];
          } in
          let (d, n, r, s, m) = connect_loop-EndsAfter one_shot (suc k) before last later next h in
          (
            d,
            suc n,
            connect_loop_again one_shot (backoff k) a _ c e
                ∙ ap (λ (w : ℕ). connect_loop one_shot w (before ++ last ∷ later) next)
                    (next_retry-backoff k)
                ∙ r,
            s ∙ append_assoc c.slept (backoff k ∷ []) (backoffs (suc k) n),
            omega arith,
          )
    ]

-- With no connection yet, the call has returned by any attempt that succeeds, or before which a
-- signal has been received, and in one-shot mode by the first. It has then slept 1, 2, 4, 8, 16
-- and from there on always 32 seconds, at most once for each attempt before.
pub maintain_connection_ends :
    (one_shot : Bool) (before : List Attempt) (last : Attempt) (later : List Attempt)
    → (last.signalled || (is_ok last.status || one_shot)) ≡ true
    → (d : Connecting) × (n : ℕ) × (maintain_connection one_shot (before ++ last ∷ later) none
        ≡ ok d)
      × (d.slept ≡ backoffs 0 n)
      × (n ≤ length before)
unfolding maintain_connection
maintain_connection_ends one_shot before last later h =
    connect_loop-EndsAfter one_shot 0 before last later (record { conn = none; slept = [] }) h

-- A signal had been received at one of the tests.
abbrev pub SomeSignalled : List Attempt → Type 0
SomeSignalled [] = ⊥
SomeSignalled (a ∷ attempts) = (a.signalled ≡ true) ⊎ SomeSignalled attempts

connect_loop_outcome :
    (one_shot : Bool) (retry : ℕ) (attempts : List Attempt) (c : Connecting) {d : Connecting}
    → connect_loop one_shot retry attempts c ≡ ok d
    → (d.conn ≡ some connection_ok) ⊎ ((one_shot ≡ true) ⊎ SomeSignalled attempts)
unfolding connect_loop
connect_loop_outcome one_shot retry [] c h = cc
connect_loop_outcome one_shot retry (a ∷ attempts) c {d} h = ground (
  arith,
  connect_loop_outcome one_shot (next_retry retry) attempts
      (record { conn = some a.status; slept = c.slept ++ retry ∷ [] }) {d = d},
)

-- When the call returns, the connection is good, unless it is a one-shot call, a signal was
-- received, or the connection was neither good nor bad before.
pub maintain_connection_outcome :
    (one_shot : Bool) (attempts : List Attempt) (conn : Option ConnStatus) {d : Connecting}
    → maintain_connection one_shot attempts conn ≡ ok d
    → conn ≢ some connection_other
    → (d.conn ≡ some connection_ok) ⊎ ((one_shot ≡ true) ⊎ SomeSignalled attempts)
unfolding maintain_connection
maintain_connection_outcome one_shot attempts none h n =
    connect_loop_outcome one_shot 1 attempts _ h
maintain_connection_outcome one_shot attempts (some connection_ok) h n = ground arith
maintain_connection_outcome one_shot attempts (some connection_other) h n = absurd (n refl)
maintain_connection_outcome true attempts (some connection_bad) h n = inr (inl refl)
maintain_connection_outcome false attempts (some connection_bad) h n =
    connect_loop_outcome false 1 attempts _ h

-- Attempts that fail, with no signal before them.
abbrev pub Failed : List Attempt → Type 0
Failed [] = Unit
Failed (a ∷ attempts) = (a.signalled ≡ false) × (is_ok a.status ≡ false) × Failed attempts

connect_loop-connects :
    (retry : ℕ) (before : List Attempt) (later : List Attempt) (c : Connecting)
    → Failed before
    → (d : Connecting) × (connect_loop false retry
          (before ++ record { signalled = false; status = connection_ok } ∷ later)
          c
        ≡ ok d)
      × (d.conn ≡ some connection_ok)
unfolding connect_loop
connect_loop-connects retry [] later c f = (record c { conn = some connection_ok }, refl, refl)
connect_loop-connects retry (a ∷ before) later c (s, o, f) =
    let (d, e, h) =
      connect_loop-connects (next_retry retry) before later
        (record { conn = some a.status; slept = c.slept ++ retry ∷ [] }) f in
    (d, simp (s, o) e, h)

-- With no connection yet, one is there behind the first attempt that succeeds.
pub maintain_connection-connects :
    (before later : List Attempt)
    → Failed before
    → (d : Connecting) × (maintain_connection false
          (before ++ record { signalled = false; status = connection_ok } ∷ later)
          none
        ≡ ok d)
      × (d.conn ≡ some connection_ok)
unfolding maintain_connection
maintain_connection-connects before later f =
    connect_loop-connects 1 before later (record { conn = none; slept = [] }) f
