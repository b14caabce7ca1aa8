-- ===== src/Daemon/Queue/Read.antt =====
-- What the constructor of `CmdQueue` (pg_cmdqd/cmdqueue.cpp) makes of a row that has all the columns.
use pg_cmd_queue.Base.{
  ℕ, ℤ, true, false, Option, Bytes, Fault, Result, ok, err, ◌>>=◌, ◌≡◌, refl, ap, ◌∙◌,
}
use pg_cmd_queue.Pq.Rows.{PgResult, FieldNumbers}
use pg_cmd_queue.Pq.Load.{Throws, load}
use pg_cmd_queue.Daemon.Queue.{CmdQueue, stoi, queue_steps, after_queue, queue_of_row}
use pg_cmd_queue.Daemon.Queue.Columns.{
  QueueTexts, QueueRow, stoi-Throws, every_nth_of, timeout_of, every_nth_of-Throws,
  timeout_of-Throws, with_texts, load-texts, read_from,
}

module _ {Double : Type 0} (stod : Bytes → Result Double) (zero_sec : Double)
    (message : Bytes → Fault → Bytes) where
  -- The queue of these texts, if all the numbers are ones.
  abbrev pub queue_of_texts : QueueTexts → CmdQueue Double → Result (CmdQueue Double)
  queue_of_texts t start = stoi t.interval >>= λ interval.
      every_nth_of stod zero_sec message t.every_nth start.queue_reselect_randomized_every_nth
      >>= λ every_nth. timeout_of stod zero_sec message t.timeout >>= λ timeout. ok (record {
        is_valid = true;
        validation_error_message = start.validation_error_message;
        cmd_class_identity = t.identity;
        cmd_class_relname = t.relname;
        cmd_signature_class_relname = t.signature;
        queue_runner_role = t.role;
        queue_notify_channel = t.channel;
        queue_reselect_interval_msec = interval;
        queue_reselect_randomized_every_nth = every_nth;
        queue_cmd_timeout_sec = timeout;
        ansi_fg = t.color;
      })

  -- Such a queue, or one that is not valid and has the message of the exception.
  abbrev pub IsRead : QueueTexts → Result (CmdQueue Double) → CmdQueue Double → Type 0
  IsRead t (ok q) d = d ≡ q
  IsRead t (err e) d =
      (d.is_valid ≡ false)
      × ((d.validation_error_message ≡ message t.identity e)
          × (d.cmd_signature_class_relname ≡ t.signature))

  -- From a row that has all the columns: if the texts of the interval, of the number of rounds and of
  -- the timeout are numbers, or null where they may be, the queue is valid and has just what the
  -- columns hold; if one is no number, or too great, the queue is not valid, and its message is of
  -- the first such exception; if what `std::stod` throws are exceptions.
  pub queue_of_row-IsRead :
      (res : PgResult) (row : ℕ) (numbers : FieldNumbers) (t : QueueTexts) (start : CmdQueue Double)
      → ((s : Bytes) → Throws (stod s))
      → QueueRow res row numbers t
      → (d : CmdQueue Double) × (queue_of_row stod zero_sec message res row numbers start ≡ ok d)
        × IsRead t (queue_of_texts t start) d
  unfolding queue_of_row
  queue_of_row-IsRead res row numbers t start h r =
      go (stoi t.interval) _ _ refl refl refl (stoi-Throws t.interval)
        (every_nth_of-Throws stod zero_sec message t.every_nth
          start.queue_reselect_randomized_every_nth)
        (timeout_of-Throws stod zero_sec message t.timeout h)
    where
      Done : Type 0
      Done =
          (d : CmdQueue Double) × (after_queue stod zero_sec message
              (load (queue_steps stod zero_sec message res row numbers) start)
            ≡ ok d)
          × IsRead t (queue_of_texts t start) d

      failed : Fault → CmdQueue Double → CmdQueue Double
      failed e q = record q {
        is_valid = false;
        validation_error_message = message q.cmd_class_identity e;
      }

      go :
          (i : Result ℤ) (n : Result (Option ℤ)) (d : Result Double)
          → stoi t.interval ≡ i
          → every_nth_of stod zero_sec message t.every_nth start.queue_reselect_randomized_every_nth
            ≡ n
          → timeout_of stod zero_sec message t.timeout ≡ d
          → Throws i
          → Throws n
          → Throws d
          → Done
      go (err e) n d ei en ed x xn xd = (
        failed e (with_texts stod zero_sec message t start),
        ap (after_queue stod zero_sec message) (
              load-texts stod zero_sec message res row numbers t r start
              ∙ read_from stod zero_sec message res row numbers t r
                  (with_texts stod zero_sec message t start) (err e) n d ei en ed)
            ∙ rw x refl,
        simp ei (refl, (refl, refl)),
      )
      go (ok i) (err e) d ei en ed xi x xd = (
        failed e (record (with_texts stod zero_sec message t start) {
          queue_reselect_interval_msec = i;
        }),
        ap (after_queue stod zero_sec message) (
              load-texts stod zero_sec message res row numbers t r start
              ∙ read_from stod zero_sec message res row numbers t r
                  (with_texts stod zero_sec message t start) (ok i) (err e) d ei en ed)
            ∙ rw x refl,
        simp (ei, en) (refl, (refl, refl)),
      )
      go (ok i) (ok n) (err e) ei en ed xi xn x = (
        failed e (record (with_texts stod zero_sec message t start) {
          queue_reselect_interval_msec = i;
          queue_reselect_randomized_every_nth = n;
        }),
        ap (after_queue stod zero_sec message) (
              load-texts stod zero_sec message res row numbers t r start
              ∙ read_from stod zero_sec message res row numbers t r
                  (with_texts stod zero_sec message t start) (ok i) (ok n) (err e) ei en ed)
            ∙ rw x refl,
        simp (ei, en, ed) (refl, (refl, refl)),
      )
      go (ok i) (ok n) (ok d) ei en ed xi xn xd = (
        record (with_texts stod zero_sec message t start) {
          is_valid = true;
          queue_reselect_interval_msec = i;
          queue_reselect_randomized_every_nth = n;
          queue_cmd_timeout_sec = d;
          ansi_fg = t.color;
        },
        ap (after_queue stod zero_sec message) (
              load-texts stod zero_sec message res row numbers t r start
              ∙ read_from stod zero_sec message res row numbers t r
                  (with_texts stod zero_sec message t start) (ok i) (ok n) (ok d) ei en ed)
            ∙ refl,
        simp (ei, en, ed) refl,
      )
