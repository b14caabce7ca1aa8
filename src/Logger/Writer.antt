-- ===== src/Logger/Writer.antt =====
-- The queue of lines of `Logger` and the thread that writes them (pg_cmdqd/logger.cpp,
-- pg_cmdqd/logger.h). The calls of other threads and the rounds of the writing thread follow one
-- after the other here; Logger/Writer/Posted has what comes between their statements. What the C library formats and whether it
-- writes are functions.
pub mod Drained
pub mod Posted
pub mod Deleted
use pg_cmd_queue.Base.{
  ℕ, zero, suc, ◌+◌, ◌-◌, Bool, true, false, not, ◌&&◌, ◌||◌, Option, none, some, List, [], ◌∷◌,
  ◌++◌, ◌==◌, ltb, Bytes, codes, if◌then◌else◌, Result, ok, err, out_of_fuel,
}
use pg_cmd_queue.Text.Scan.{c_str}
use pg_cmd_queue.Logger.{LogLevel, notice, error, info, get_log_level_string, is_logged}

pub record LogLine : Type 0 where
  pub line : Bytes
  pub also_to_std_out : Bool

-- Where a line is written.
pub data Target : Type 0 where
  log_file std_out std_err : Target

-- The members; `lines_pending` is the semaphore's value, and `file` is whether the file is open.
pub record Logger : Type 0 where
  pub log_path : Bytes
  pub cur_log_level : LogLevel
  pub lines : List LogLine
  pub lines_pending : ℕ
  pub running : Bool
  pub file : Bool
  pub also_log_to_std : Bool
  pub reload : Bool
  pub log_times : Bool
  pub written : List (Target × Bytes)

-- The members' own initial values, and `sem_init`.
abbrev pub new_logger : Logger
new_logger = record {
  log_path = [];
  cur_log_level = notice;
  lines = [];
  lines_pending = 0;
  running = true;
  file = false;
  also_log_to_std = true;
  reload = false;
  log_times = true;
  written = [];
}

unfoldable pub set_log_path : Bytes → Logger → Logger
set_log_path path l = record l { log_path = path }

unfoldable pub set_log_level : LogLevel → Logger → Logger
set_log_level level l = record l { cur_log_level = level }

-- `Logger::cmd_queue` of the calling thread: the class's identity and its colour.
pub record QueueName : Type 0 where
  pub cmd_class_identity : Bytes
  pub ansi_fg : Bytes

abbrev pub escape_char : Bytes
escape_char = 0x1b ∷ []

abbrev pub if_queue : Option QueueName → (QueueName → Bytes) → Bytes
if_queue none f = []
if_queue (some q) f = f q

-- The text that is taken for the format string; `now` is the printed time.
unfoldable pub log_format : Option QueueName → Bool → Bytes → LogLevel → Bytes → Bytes
unfolding get_log_level_string
log_format cmd_queue log_times now level str =
    if_queue cmd_queue (λ q. escape_char ++ q.ansi_fg)
    ++ ((if log_times then codes "[" ++ (now ++ codes "] ") else [])
        ++ (if_queue cmd_queue (λ q. codes "[" ++ (q.cmd_class_identity ++ codes "] "))
            ++ (codes "["
                ++ (get_log_level_string level
                    ++ (codes "] "
                        ++ (str ++ if_queue cmd_queue (λ q. escape_char ++ codes "[0m")))))))

-- `lines.push`, under the mutex.
abbrev pub push : Bytes → Logger → Logger
push line l = record l {
  lines = l.lines ++ (record { line = line; also_to_std_out = l.also_log_to_std }) ∷ [];
}

abbrev pub sem_post : Logger → Logger
sem_post l = record l { lines_pending = l.lines_pending + 1 }

-- The one and then, no longer under the mutex, the other. Logger/Writer/Posted takes them apart.
abbrev pub push_line : Bytes → Logger → Logger
push_line line l = sem_post (push line l)

-- `vsnprintf` with the arguments of the call is a function of the format.
unfoldable pub log : (Bytes → Bytes) → Option QueueName → Bytes → LogLevel → Bytes → Logger → Logger
log vsnprintf cmd_queue now level str l =
    if is_logged level l.cur_log_level
    then push_line (vsnprintf (log_format cmd_queue l.log_times now level str)) l
    else l

-- The destructor of `StreamToLog`: the text of the stream is the format string.
unfoldable pub stream_to_log :
    (Bytes → Bytes) → Option QueueName → Bytes → LogLevel → Bytes → Logger → Logger
stream_to_log vsnprintf cmd_queue now level text l =
    log vsnprintf cmd_queue now level (c_str text) l

unfoldable pub queue_re_open : Logger → Logger
queue_re_open l = record l { reload = true; lines_pending = l.lines_pending + 1 }

-- The part of `quit` before the thread is joined.
unfoldable pub quit : Logger → Logger
quit l = record l { running = false; lines_pending = l.lines_pending + 1 }

abbrev pub is_empty {ℓ} : {A : Type ℓ} → List A → Bool
is_empty [] = true
is_empty (_ ∷ _) = false

-- `message` is the line that is logged when the file cannot be opened, `opens` what `fopen` gives.
unfoldable pub re_open : Bool → Bytes → Logger → Logger
re_open opens message l =
    let closed = record l { reload = false; file = false } in
    if is_empty l.log_path
    then closed
    else if opens
    then record closed { file = true }
    else if is_logged error l.cur_log_level
    then push_line message closed
    else closed

-- `message` is what `log` makes of the notice.
unfoldable pub no_longer_log_to_std : Bytes → Logger → Logger
no_longer_log_to_std message l =
    let l1 =
      if not (is_empty l.log_path) && is_logged info l.cur_log_level
      then push_line message l
      else l in
    record l1 { also_log_to_std = false }

-- `std::getline` on the whole line: what stands between the line ends, without an empty rest. `part`
-- has the bytes so far.
abbrev pub real_lines_from : Bytes → Bytes → List Bytes
real_lines_from part [] = if is_empty part then [] else part ∷ []
real_lines_from part (c ∷ cs) =
    let ended = part ∷ real_lines_from [] cs in
    let longer = real_lines_from (part ++ c ∷ []) cs in if c == b'\n' then ended else longer

abbrev pub real_lines : Bytes → List Bytes
real_lines s = real_lines_from [] s

abbrev pub put : Target → Bytes → Logger → Logger
put target text l = record l { written = l.written ++ (target, text) ∷ [] }

-- `file_takes` is whether the three calls on the file succeed for a line.
module _ (file_takes : Bytes → Bool) where
  unfoldable pub write_real_line : Bool → Bytes → Logger → Logger
  write_real_line also_to_std_out real_line l =
      let l1 =
        if l.file
        then (if file_takes real_line
            then put log_file real_line l
            else put std_err (codes "Writing to log failed. Enabling stdout logger.")
                (record l { also_log_to_std = true }))
        else l in
      if not l.file || also_to_std_out then put std_out real_line l1 else l1

  abbrev pub write_real_lines : Bool → List Bytes → Logger → Logger
  write_real_lines also_to_std_out [] l = l
  write_real_lines also_to_std_out (s ∷ real_lines) l =
      write_real_lines also_to_std_out real_lines (write_real_line also_to_std_out s l)

  unfoldable pub write_line : LogLine → Logger → Logger
  write_line line l = write_real_lines line.also_to_std_out (real_lines line.line) l

  abbrev pub take_line : List LogLine → Logger → Logger
  take_line [] l = l
  take_line (line ∷ lines) l = write_line line (record l { lines = lines })

  -- The body of the writing thread's loop, behind the `sem_wait`.
  unfoldable pub write_round : Bool → Bytes → Logger → Logger
  write_round opens message l =
      let l1 = if l.reload then re_open opens message l else l in take_line l1.lines l1

  -- `sem_wait`, and what follows it.
  abbrev pub behind_wait : ℕ → (ℕ → Result Logger) → Result Logger
  behind_wait zero next = err out_of_fuel
  behind_wait (suc n) next = next n

  -- The loop; `grace` is `graceCounter`. It is blocked where the semaphore is 0: until another thread
  -- posts, and behind `quit`, when no other thread logs any more, for good.
  unfoldable pub write_log : ℕ → Bool → Bytes → ℕ → Logger → Result Logger
  write_log zero opens message grace l = err out_of_fuel
  write_log (suc fuel) opens message grace l =
      let waited = behind_wait l.lines_pending (λ n.
        write_log fuel opens message (if l.running then grace else grace + 1)
          (write_round opens message (record l { lines_pending = n }))) in
      if l.running || (not (is_empty l.lines) && ltb grace 1000) then waited else ok l
