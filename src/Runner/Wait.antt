-- ===== src/Runner/Wait.antt =====
-- The `PQnotify()` and `poll()` loop of `CmdQueueRunner::_run` (pg_cmdqd/cmdqueuerunner.h), with the
-- reading of a `NOTIFY` payload and of the kill pipe. What libpq and the kernel give in each turn of
-- the loop is a `Turn`.
use pg_cmd_queue.Base.{
  ℕ, Bool, true, false, Option, none, some, List, [], ◌∷◌, Bytes, bytes_eq, ltb, if◌then◌else◌,
  Result, ok, err, assertion, out_of_fuel, ◌>>=◌,
}
use pg_cmd_queue.Text.Composite.{from_text_composite_value}

-- A payload, read by the runner of one queue: the `cmd_id` and `cmd_subid` of a command of this
-- queue, of another queue, or not to be parsed.
pub data Notified : Type 0 where
  mine : Bytes → Option Bytes → Notified
  not_mine unparsable : Notified

unfoldable pub notify_fields : Bytes → List (Option Bytes) → Notified
notify_fields identity (some cls ∷ some cmd_id ∷ cmd_subid ∷ []) =
    if bytes_eq cls identity then mine cmd_id cmd_subid else not_mine
notify_fields identity _ = unparsable

-- An exception is caught and logged; a failed `assert` is not caught.
unfoldable pub after_parse : Bytes → Result (List (Option Bytes)) → Result Notified
after_parse identity (ok fields) = ok (notify_fields identity fields)
after_parse identity (err assertion) = err assertion
after_parse identity (err _) = ok unparsable

unfoldable pub read_notify : Bytes → Bytes → Result Notified
read_notify identity extra = after_parse identity (from_text_composite_value extra)

-- How the reading of the kill pipe ended: the end of the file, or an error.
pub data ReadEnd : Type 0 where
  at_end interrupted would_block failed : ReadEnd

pub record KillRead : Type 0 where
  pub sig_num_bytes_total : ℕ
  pub last : ReadEnd

-- The descriptors that are ready: `PQconsumeInput`'s answer if the connection's is, and what is
-- read if the kill pipe's is.
pub record Ready : Type 0 where
  pub consumed : Option Bool
  pub kill : Option KillRead

pub data PollAnswer : Type 0 where
  poll_interrupted poll_failed timed_out : PollAnswer
  ready : Ready → PollAnswer

-- A pending `NOTIFY`, or none and then the `poll`.
pub data Turn : Type 0 where
  heard : Bytes → Turn
  idle : PollAnswer → Turn

-- Why the loop was left: a command to get, the time to `SELECT` again, a broken connection, an
-- error that ends the thread, or a signal.
pub data Waited : Type 0 where
  notified : Bytes → Option Bytes → Waited
  reselect reconnect leave_thread stopped : Waited

-- What a turn leads to: another one, or the end of the loop.
abbrev pub Flow : Type 0
Flow = Option Waited

-- The error that is left when not all of the four bytes, `sizeof(int)`, were read.
abbrev pub after_part : ReadEnd → Flow
after_part at_end = some stopped
after_part interrupted = none
after_part would_block = none
after_part failed = some leave_thread

unfoldable pub after_kill : Option KillRead → Flow
after_kill none = none
after_kill (some k) = if ltb k.sig_num_bytes_total 4 then after_part k.last else some stopped

-- `PQconsumeInput` failed.
abbrev pub is_broken : Option Bool → Bool
is_broken (some false) = true
is_broken _ = false

unfoldable pub after_ready : Ready → Flow
after_ready r = if is_broken r.consumed then some reconnect else after_kill r.kill

unfoldable pub after_wait : PollAnswer → Flow
after_wait poll_interrupted = none
after_wait poll_failed = some leave_thread
after_wait timed_out = some reselect
after_wait (ready r) = after_ready r

abbrev pub after_notified : Notified → Flow
after_notified (mine cmd_id cmd_subid) = some (notified cmd_id cmd_subid)
after_notified not_mine = none
after_notified unparsable = none

unfoldable pub turn : Bytes → Turn → Result Flow
turn identity (heard extra) = read_notify identity extra >>= λ n. ok (after_notified n)
turn identity (idle answer) = ok (after_wait answer)

unfoldable pub wait_loop : Bytes → List Turn → Result Waited
wait_loop identity [] = err out_of_fuel
wait_loop identity (t ∷ turns) =
    let rest = wait_loop identity turns in
    turn identity t >>= λ flow. elim flow [ some waited ↦ ok waited | none ↦ rest ]
