-- ===== src/Logger.antt =====
-- The log levels of pg_cmdqd/logger.h and the level tests of pg_cmdqd/logger.cpp; the queue of lines
-- is in a child module.
pub mod Levels
pub mod Writer
use pg_cmd_queue.Base.{
  ℕ, Bool, true, false, not, Option, none, some, List, [], ◌∷◌, ◌++◌, Bytes, bytes_eq, codes, leb,
  ltb, take, drop, if◌then◌else◌, String,
}

-- `enum LogLevel`, without the prefix `LOG_`.
pub data LogLevel : Type 0 where
  none_ panic fatal log_ error warning notice info : LogLevel
  debug1 debug2 debug3 debug4 debug5 : LogLevel

-- The values of the enumeration.
unfoldable pub level_value : LogLevel → ℕ
level_value none_ = 0
level_value panic = 0b1
level_value fatal = 0b11
level_value log_ = 0b111
level_value error = 0b1111
level_value warning = 0b11111
level_value notice = 0b111111
level_value info = 0b1111111
level_value debug1 = 0b11111111
level_value debug2 = 0b111111111
level_value debug3 = 0b1111111111
level_value debug4 = 0b11111111111
level_value debug5 = 0b111111111111

unfoldable pub get_log_level_string : LogLevel → Bytes
get_log_level_string none_ = codes "NONE"
get_log_level_string panic = codes "PANIC"
get_log_level_string fatal = codes "FATAL"
get_log_level_string log_ = codes "LOG"
get_log_level_string error = codes "ERROR"
get_log_level_string warning = codes "WARNING"
get_log_level_string notice = codes "NOTICE"
get_log_level_string info = codes "INFO"
get_log_level_string debug1 = codes "DEBUG1"
get_log_level_string debug2 = codes "DEBUG2"
get_log_level_string debug3 = codes "DEBUG3"
get_log_level_string debug4 = codes "DEBUG4"
get_log_level_string debug5 = codes "DEBUG5"

-- `StringToLogLevel`.
abbrev pub string_to_log_level_table : List (Bytes × LogLevel)
string_to_log_level_table =
    (codes "DEBUG1", debug1)
    ∷ (codes "DEBUG2", debug2)
    ∷ (codes "DEBUG3", debug3)
    ∷ (codes "DEBUG4", debug4)
    ∷ (codes "DEBUG5", debug5)
    ∷ (codes "ERROR", error)
    ∷ (codes "FATAL", fatal)
    ∷ (codes "INFO", info)
    ∷ (codes "LOG", log_)
    ∷ (codes "NONE", none_)
    ∷ (codes "NOTICE", notice)
    ∷ (codes "PANIC", panic)
    ∷ (codes "WARNING", warning)
    ∷ []

abbrev pub find {ℓ} : {A : Type ℓ} → Bytes → List (Bytes × A) → Option A
find k [] = none
find k ((j, v) ∷ m) = if bytes_eq j k then some v else find k m

-- `StringToLogLevel.count(s)` and `.at(s)` in one.
unfoldable pub string_to_log_level : Bytes → Option LogLevel
string_to_log_level s = find s string_to_log_level_table

unfoldable pub normalize_log_level : Bytes → Bytes
normalize_log_level str = if bytes_eq (take 4 str) (codes "LOG_") then drop 4 str else str

-- `if (level > curLogLevel) return;` of `Logger::log`.
unfoldable pub is_logged : LogLevel → LogLevel → Bool
unfolding level_value
is_logged level cur_log_level = not (ltb (level_value cur_log_level) (level_value level))
