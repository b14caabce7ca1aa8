-- ===== src/Logger/Writer/Posted.antt =====
-- The semaphore and the queue of lines of pg_cmdqd/logger.cpp.
use pg_cmd_queue.Base.{
  ℕ, zero, suc, ◌+◌, ◌≤◌, Bool, true, false, not, ◌||◌, Option, List, [], ◌∷◌, Bytes, codes, length,
  length-append, if◌then◌else◌, ◌≡◌, refl, arith,
}
use pg_cmd_queue.Logger.{LogLevel, error, is_logged}
use pg_cmd_queue.Logger.Writer.{
  LogLine, log_file, std_err, Logger, QueueName, is_empty, real_lines, push, sem_post, push_line,
  log_format, set_log_path, set_log_level, re_open, put, write_real_line, write_real_lines,
  write_line, take_line, write_round,
}

-- What happens between the statements of the threads: a call of `log` has pushed its line, the member
-- functions have set their members, a `sem_post` that is still to come comes, or the writing thread
-- goes through a round. A `StreamToLog` that ends is a call of `log`, and so is, before it sets its
-- member, a `noLongerLogToStd`.
pub data LogStep : Type 0 where
  logs : Option QueueName → Bytes → LogLevel → Bytes → LogStep
  sets_path : Bytes → LogStep
  sets_level : LogLevel → LogStep
  sets_reload stops_running stops_std posts : LogStep
  writes : Bool → Bytes → LogStep

-- The logger, and how many calls still have to call `sem_post`.
pub record Threads : Type 0 where
  pub logger : Logger
  pub unposted : ℕ

abbrev pub before_post : Logger → Threads → Threads
before_post l t = record { logger = l; unposted = t.unposted + 1 }

abbrev pub post_one : ℕ → Threads → Threads
post_one zero t = t
post_one (suc n) t = record { logger = sem_post t.logger; unposted = n }

module _ (vsnprintf : Bytes → Bytes) (file_takes : Bytes → Bool) where
  -- Where the semaphore is 0, the writing thread waits.
  abbrev pub after_sem_wait : Bool → Bytes → ℕ → Logger → Logger
  after_sem_wait opens message zero l = l
  after_sem_wait opens message (suc n) l =
      write_round file_takes opens message (record l { lines_pending = n })

  -- `log` up to the end of the block that holds the mutex.
  unfoldable pub log_pushes : Option QueueName → Bytes → LogLevel → Bytes → Threads → Threads
  log_pushes cmd_queue now level str t =
      if is_logged level t.logger.cur_log_level
      then before_post
          (push (vsnprintf (log_format cmd_queue t.logger.log_times now level str)) t.logger) t
      else t

  unfoldable pub log_step : LogStep → Threads → Threads
  log_step (logs cmd_queue now level str) t = log_pushes cmd_queue now level str t
  log_step (sets_path path) t = record t { logger = set_log_path path t.logger }
  log_step (sets_level level) t = record t { logger = set_log_level level t.logger }
  log_step sets_reload t = before_post (record t.logger { reload = true }) t
  log_step stops_running t = before_post (record t.logger { running = false }) t
  log_step stops_std t = record t { logger = record t.logger { also_log_to_std = false } }
  log_step posts t = post_one t.unposted t
  log_step (writes opens message) t = record t {
    logger = after_sem_wait opens message t.logger.lines_pending t.logger;
  }

  unfoldable pub log_steps : List LogStep → Threads → Threads
  log_steps [] t = t
  log_steps (step ∷ steps) t = log_steps steps (log_step step t)

-- There is a post of the semaphore for every line in the queue, but for so many.
abbrev Posted : ℕ → Logger → Type 0
Posted k l = length l.lines ≤ l.lines_pending + k

-- For every line there is a post, or one that is still to come.
abbrev pub AllPosted : Threads → Type 0
AllPosted t = length t.logger.lines ≤ t.logger.lines_pending + t.unposted

Posted-if :
    (k : ℕ) (b : Bool) (x y : Logger) → Posted k x → Posted k y → Posted k (if b then x else y)
Posted-if k true x y hx hy = hx
Posted-if k false x y hx hy = hy

push_line-Posted : (k : ℕ) (line : Bytes) (l : Logger) → Posted k l → Posted k (push_line line l)
push_line-Posted k line l h = omega (
  arith,
  length-append l.lines ((record { line = line; also_to_std_out = l.also_log_to_std }) ∷ []),
)

re_open-Posted :
    (k : ℕ) (opens : Bool) (message : Bytes) (l : Logger)
    → Posted k l
    → Posted k (re_open opens message l)
unfolding re_open
re_open-Posted k opens message l h =
    let closed : Logger = record l { reload = false; file = false } in
    Posted-if k (is_empty l.log_path) _ _ h (
      Posted-if k opens _ _ h
        (Posted-if k (is_logged error l.cur_log_level) _ _ (push_line-Posted k message closed h) h))

module _ (file_takes : Bytes → Bool) (k : ℕ) where
  write_real_line-Posted :
      (also : Bool) (s : Bytes) (l : Logger)
      → Posted k l
      → Posted k (write_real_line file_takes also s l)
  unfolding write_real_line
  write_real_line-Posted also s l h =
      Posted-if k (not l.file || also) _ _ (inner l.file) (inner l.file)
    where
      inner :
          (file : Bool)
          → Posted k (
              if file
              then (if file_takes s
                  then put log_file s l
                  else put std_err
                      (codes "Writing to log failed. Enabling stdout logger.")
                      (record l { also_log_to_std = true }))
              else l)
      inner true = Posted-if k (file_takes s) _ _ h h
      inner false = h

  write_real_lines-Posted :
      (also : Bool) (ss : List Bytes) (l : Logger)
      → Posted k l
      → Posted k (write_real_lines file_takes also ss l)
  write_real_lines-Posted also [] l h = h
  write_real_lines-Posted also (s ∷ ss) l h =
      write_real_lines-Posted also ss _ (write_real_line-Posted also s l h)

  take_line-Posted :
      (lines : List LogLine) (l : Logger)
      → l.lines ≡ lines
      → length lines ≤ l.lines_pending + suc k
      → Posted k (take_line file_takes lines l)
  unfolding write_line
  take_line-Posted [] l e h = rw e (omega arith)
  take_line-Posted (line ∷ lines) l e h =
      write_real_lines-Posted line.also_to_std_out (real_lines line.line)
        (record l { lines = lines }) (omega arith)

  write_round-Posted :
      (opens : Bool) (message : Bytes) (l : Logger)
      → Posted (suc k) l
      → Posted k (write_round file_takes opens message l)
  unfolding write_round
  write_round-Posted opens message l h =
      take_line-Posted _ (if l.reload then re_open opens message l else l) refl
        (Posted-if (suc k) l.reload _ _ (re_open-Posted (suc k) opens message l h) h)

module _ (vsnprintf : Bytes → Bytes) (file_takes : Bytes → Bool) where
  after_sem_wait-Posted :
      (k : ℕ) (opens : Bool) (message : Bytes) (n : ℕ) (l : Logger)
      → l.lines_pending ≡ n
      → Posted k l
      → Posted k (after_sem_wait vsnprintf file_takes opens message n l)
  after_sem_wait-Posted k opens message zero l e h = h
  after_sem_wait-Posted k opens message (suc n) l e h =
      write_round-Posted file_takes k opens message (record l { lines_pending = n }) (omega arith)

  log_pushes-AllPosted :
      (cmd_queue : Option QueueName) (now : Bytes) (level : LogLevel) (str : Bytes) (t : Threads)
      → AllPosted t
      → AllPosted (log_pushes vsnprintf file_takes cmd_queue now level str t)
  unfolding log_pushes
  log_pushes-AllPosted cmd_queue now level str t h = go (is_logged level t.logger.cur_log_level)
    where
      line : Bytes
      line = vsnprintf (log_format cmd_queue t.logger.log_times now level str)

      pushed : Threads
      pushed = before_post (push line t.logger) t

      go : (b : Bool) → AllPosted (if b then pushed else t)
      go true = omega (
        arith,
        length-append t.logger.lines
            ((record { line = line; also_to_std_out = t.logger.also_log_to_std }) ∷ []),
      )
      go false = h

  post_one-AllPosted :
      (n : ℕ) (t : Threads) → t.unposted ≡ n → AllPosted t → AllPosted (post_one n t)
  post_one-AllPosted zero t e h = h
  post_one-AllPosted (suc n) t e h = omega arith

  log_step-AllPosted :
      (step : LogStep) (t : Threads)
      → AllPosted t
      → AllPosted (log_step vsnprintf file_takes step t)
  unfolding log_step set_log_path set_log_level
  log_step-AllPosted (logs cmd_queue now level str) t h =
      log_pushes-AllPosted cmd_queue now level str t h
  log_step-AllPosted (sets_path path) t h = h
  log_step-AllPosted (sets_level level) t h = h
  log_step-AllPosted sets_reload t h = omega arith
  log_step-AllPosted stops_running t h = omega arith
  log_step-AllPosted stops_std t h = h
  log_step-AllPosted posts t h = post_one-AllPosted t.unposted t refl h
  log_step-AllPosted (writes opens message) t h =
      after_sem_wait-Posted t.unposted opens message t.logger.lines_pending t.logger refl h

  -- However the statements of the threads and the rounds of the writing thread follow each other,
  -- the lines in the queue are never more than the semaphore's value and the posts that are still to
  -- come: when no thread stands between its push and its post, the writing thread does not wait
  -- while there is a line to be written.
  pub log_steps-AllPosted :
      (steps : List LogStep) (t : Threads)
      → AllPosted t
      → AllPosted (log_steps vsnprintf file_takes steps t)
  unfolding log_steps
  log_steps-AllPosted [] t h = h
  log_steps-AllPosted (step ∷ steps) t h = log_steps-AllPosted steps _ (log_step-AllPosted step t h)
