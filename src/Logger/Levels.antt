-- ===== src/Logger/Levels.antt =====
-- The level names and the order of the levels.
use Prim.Native.Nat.{bit_and}
use pg_cmd_queue.Base.{◌≡◌, refl, ◌↔◌, true, some, ◌++◌, codes, arith}
use pg_cmd_queue.Logger.{
  LogLevel, level_value, none_, get_log_level_string, string_to_log_level, normalize_log_level,
  is_logged,
}

-- Every level is found under the name that it is printed with, with the prefix `LOG_` or without.
pub string_to_log_level-get_log_level_string :
    (l : LogLevel)
    → (string_to_log_level (normalize_log_level (get_log_level_string l)) ≡ some l)
      × (string_to_log_level (normalize_log_level (codes "LOG_" ++ get_log_level_string l))
          ≡ some l)
unfolding string_to_log_level normalize_log_level get_log_level_string
string_to_log_level-get_log_level_string none_ = (refl, refl)
string_to_log_level-get_log_level_string _ = (refl, refl)

-- A threshold lets through exactly the levels all of whose bits it has.
pub is_logged_iff-bit_and :
    (l cur : LogLevel)
    → (is_logged l cur ≡ true) ↔ (bit_and (level_value l) (level_value cur) ≡ level_value l)
unfolding is_logged
is_logged_iff-bit_and none_ none_ = (λ _. refl, λ _. refl)
is_logged_iff-bit_and _ _ = ground arith
