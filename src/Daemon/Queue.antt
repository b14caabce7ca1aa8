-- ===== src/Daemon/Queue.antt =====
-- The constructor of `CmdQueue` that loads a row (pg_cmdqd/cmdqueue.cpp), and
-- `CmdQueueRunnerManager::get_cmd_class_names` (pg_cmdqd/cmdqueuerunnermanager.cpp). What
-- `std::stod` gives is of a type that is a parameter.
pub mod Columns
pub mod Read
use pg_cmd_queue.Base.{
  ℕ, zero, suc, ◌+◌, ◌-◌, ◌*◌, ◌^◌, ℤ, pos, negsuc, Bool, true, false, not, ◌&&◌, ◌||◌, Option,
  none, some, List, [], ◌∷◌, ◌++◌, ◌==◌, ltb, leb, Bytes, codes, if◌then◌else◌, Fault, Result, ok,
  err, out_of_range, runtime_error, invalid_argument, ◌>>=◌,
}
use pg_cmd_queue.Pq.Rows.{PgResult, FieldNumbers, fnumbers, value_at, nullable_at, is_null_at}
use pg_cmd_queue.Pq.Load.{Loaded, finished, threw, load, is_exception}
use pg_cmd_queue.Daemon.Connection.{
  ConnStatus, connection_ok, Attempt, Connecting, maintain_connection,
}

-- `std::stoi`: blanks, a sign and digits, of which there must be one, for a number that is an `int`.
abbrev pub is_blank : ℕ → Bool
is_blank c = c == b' ' || (leb 9 c && leb c 13)

abbrev pub is_digit : ℕ → Bool
is_digit c = leb b'0' c && leb c b'9'

abbrev pub digits_from : Bool → ℕ → Bytes → Option ℕ
digits_from seen n [] = if seen then some n else none
digits_from seen n (c ∷ cs) =
    let more = digits_from true (n * 10 + (c - b'0')) cs in
    if is_digit c then more else if seen then some n else none

abbrev pub positive : Option ℕ → Result ℤ
positive none = err invalid_argument
positive (some n) = if ltb n (2 ^ 31) then ok (pos n) else err out_of_range

abbrev pub negative : Option ℕ → Result ℤ
negative none = err invalid_argument
negative (some zero) = ok (pos 0)
negative (some (suc n)) = if ltb n (2 ^ 31) then ok (negsuc n) else err out_of_range

abbrev pub signed : Bytes → Result ℤ
signed [] = err invalid_argument
signed (c ∷ cs) =
    if c == b'-'
    then negative (digits_from false 0 cs)
    else if c == b'+'
    then positive (digits_from false 0 cs)
    else positive (digits_from false 0 (c ∷ cs))

unfoldable pub stoi : Bytes → Result ℤ
stoi [] = err invalid_argument
stoi (c ∷ cs) = let rest = stoi cs in if is_blank c then rest else signed (c ∷ cs)

-- A `double` is an element of `Double`. The members that no constructor sets are left unset by the
-- source; here they are what the constructor is given.
pub record CmdQueue (Double : Type 0) : Type 0 where
  pub is_valid : Bool
  pub validation_error_message : Bytes
  pub cmd_class_identity : Bytes
  pub cmd_class_relname : Bytes
  pub cmd_signature_class_relname : Bytes
  pub queue_runner_role : Option Bytes
  pub queue_notify_channel : Option Bytes
  pub queue_reselect_interval_msec : ℤ
  pub queue_reselect_randomized_every_nth : Option ℤ
  pub queue_cmd_timeout_sec : Double
  pub ansi_fg : Bytes

-- `message` is `formatString` of the error message, with the class and `ex.what()`.
module _ {Double : Type 0} (stod : Bytes → Result Double) (zero_sec : Double)
    (message : Bytes → Fault → Bytes) where
  module _ (res : PgResult) (row : ℕ) (numbers : FieldNumbers) where
    abbrev pub load_identity : CmdQueue Double → Result (CmdQueue Double)
    load_identity q = value_at res row numbers (codes "cmd_class_identity") >>= λ v.
        ok (record q { cmd_class_identity = v })

    abbrev pub load_relname : CmdQueue Double → Result (CmdQueue Double)
    load_relname q = value_at res row numbers (codes "cmd_class_relname") >>= λ v.
        ok (record q { cmd_class_relname = v })

    abbrev pub load_signature : CmdQueue Double → Result (CmdQueue Double)
    load_signature q = value_at res row numbers (codes "cmd_signature_class_relname") >>= λ v.
        ok (record q { cmd_signature_class_relname = v })

    abbrev pub load_role : CmdQueue Double → Result (CmdQueue Double)
    load_role q = nullable_at res row numbers (codes "queue_runner_role") >>= λ v.
        ok (record q { queue_runner_role = v })

    abbrev pub load_channel : CmdQueue Double → Result (CmdQueue Double)
    load_channel q = nullable_at res row numbers (codes "queue_notify_channel") >>= λ v.
        ok (record q { queue_notify_channel = v })

    abbrev pub load_interval : CmdQueue Double → Result (CmdQueue Double)
    load_interval q = value_at res row numbers (codes "queue_reselect_interval_msec") >>= λ v.
        stoi v >>= λ n. ok (record q { queue_reselect_interval_msec = n })

    -- The member is left as it is if the field is null.
    abbrev pub load_every_nth : CmdQueue Double → Result (CmdQueue Double)
    load_every_nth q =
        is_null_at res row numbers (codes "queue_reselect_randomized_every_nth") >>= λ is_null.
        if is_null
        then ok q
        else value_at res row numbers (codes "queue_reselect_randomized_every_nth") >>= λ v.
            stoi v >>= λ n. ok (record q { queue_reselect_randomized_every_nth = some n })

    abbrev pub load_timeout : CmdQueue Double → Result (CmdQueue Double)
    load_timeout q = is_null_at res row numbers (codes "queue_cmd_timeout_sec") >>= λ is_null.
        if is_null
        then ok (record q { queue_cmd_timeout_sec = zero_sec })
        else value_at res row numbers (codes "queue_cmd_timeout_sec") >>= λ v.
            stod v >>= λ d. ok (record q { queue_cmd_timeout_sec = d })

    abbrev pub load_color : CmdQueue Double → Result (CmdQueue Double)
    load_color q = value_at res row numbers (codes "ansi_fg") >>= λ v. ok (record q { ansi_fg = v })

    abbrev pub queue_steps : List (CmdQueue Double → Result (CmdQueue Double))
    queue_steps =
        load_identity ∷ load_relname ∷ load_signature ∷ load_role ∷ load_channel ∷ load_interval
        ∷ load_every_nth ∷ load_timeout ∷ load_color ∷ []

  abbrev pub after_queue : Loaded (CmdQueue Double) → Result (CmdQueue Double)
  after_queue (finished q) = ok (record q { is_valid = true })
  after_queue (threw e q) =
      if is_exception e
      then ok
          (record q { is_valid = false; validation_error_message = message q.cmd_class_identity e })
      else err e

  unfoldable pub queue_of_row :
      PgResult → ℕ → FieldNumbers → CmdQueue Double → Result (CmdQueue Double)
  queue_of_row res row numbers start = after_queue (load (queue_steps res row numbers) start)
