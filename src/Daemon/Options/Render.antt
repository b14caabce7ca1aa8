-- ===== src/Daemon/Options/Render.antt =====
-- Arguments that are written from choices, and how `main` of pg_cmdqd/pg_cmd_queue_daemon.cpp reads
-- them.
use pg_cmd_queue.Base.{
  true, false, ◌||◌, some, List, [], ◌∷◌, ◌++◌, Bytes, bytes_eq, codes, ◌≡◌, refl, ◌∙◌, arith,
}
use pg_cmd_queue.Logger.{LogLevel, get_log_level_string}
use pg_cmd_queue.Logger.Levels.{string_to_log_level-get_log_level_string}
use pg_cmd_queue.Daemon.Options.{Options, options, is_help, flag, parse_args, parse_command_line}

-- The options as a user means them.
pub data Choice : Type 0 where
  log_level_ : LogLevel → Choice
  cmd_queue : Bytes → Choice
  emit_sigusr1 list_queue_names log_times_ no_log_times : Choice

abbrev pub render : List Choice → List Bytes
render [] = []
render (log_level_ l ∷ cs) = codes "--log-level" ∷ get_log_level_string l ∷ render cs
render (cmd_queue c ∷ cs) = codes "--cmd-queue" ∷ c ∷ render cs
render (emit_sigusr1 ∷ cs) = codes "--emit-sigusr1-when-ready" ∷ render cs
render (list_queue_names ∷ cs) = codes "--list-queue-names" ∷ render cs
render (log_times_ ∷ cs) = codes "--log-times" ∷ render cs
render (no_log_times ∷ cs) = codes "--no-log-times" ∷ render cs

abbrev pub choose : List Choice → Options → Options
choose [] o = o
choose (log_level_ l ∷ cs) o = choose cs (record o { log_level = l })
choose (cmd_queue c ∷ cs) o =
    choose cs (record o { explicit_cmd_classes = o.explicit_cmd_classes ++ c ∷ [] })
choose (emit_sigusr1 ∷ cs) o = choose cs (record o { emit_sigusr1_when_ready = true })
choose (list_queue_names ∷ cs) o = choose cs (record o { list_mode = true })
choose (log_times_ ∷ cs) o = choose cs (record o { log_times = true })
choose (no_log_times ∷ cs) o = choose cs (record o { log_times = false })

-- An argument that is no option.
abbrev pub IsPlain : Bytes → Type 0
IsPlain c =
    (is_help c
      || (bytes_eq c (codes "--log-level")
          || (bytes_eq c (codes "--cmd-queue")
              || (bytes_eq c (codes "--emit-sigusr1-when-ready")
                  || (bytes_eq c (codes "--list-queue-names")
                      || (bytes_eq c (codes "--log-times")
                          || bytes_eq c (codes "--no-log-times")))))))
    ≡ false

-- A flag that more arguments follow.
parse_args-flag :
    (argv1 arg : Bytes) (args : List Bytes) (c : Bytes) (o o' : Options)
    → is_help arg ≡ false
    → bytes_eq arg (codes "--log-level") ≡ false
    → bytes_eq arg (codes "--cmd-queue") ≡ false
    → flag arg o ≡ some o'
    → parse_args argv1 (arg ∷ (args ++ c ∷ [])) o ≡ parse_args argv1 (args ++ c ∷ []) o'
unfolding parse_args
parse_args-flag argv1 arg [] c o o' h l q e = rw (h, l, q, e) refl
parse_args-flag argv1 arg (a ∷ args) c o o' h l q e = rw (h, l, q, e) refl

parse_args-plain :
    (argv1 c : Bytes) (o : Options)
    → IsPlain c
    → parse_args argv1 (c ∷ []) o ≡ options (record o { conn_str = o.conn_str ++ argv1 })
unfolding parse_args
parse_args-plain argv1 c o h = ground arith

parse_args-level :
    (argv1 : Bytes) (l : LogLevel) (args : List Bytes) (o : Options)
    → parse_args argv1 (codes "--log-level" ∷ get_log_level_string l ∷ args) o
      ≡ parse_args argv1 args (record o { log_level = l })
unfolding parse_args
parse_args-level argv1 l args o = rw ((string_to_log_level-get_log_level_string l).0) refl

parse_args-cmd_queue :
    (argv1 q : Bytes) (args : List Bytes) (o : Options)
    → parse_args argv1 (codes "--cmd-queue" ∷ q ∷ args) o
      ≡ parse_args argv1 args (record o { explicit_cmd_classes = o.explicit_cmd_classes ++ q ∷ [] })
unfolding parse_args
parse_args-cmd_queue argv1 q args o = refl

parse_args-render :
    (argv1 : Bytes) (choices : List Choice) (c : Bytes) (o : Options)
    → IsPlain c
    → parse_args argv1 (render choices ++ c ∷ []) o
      ≡ options (record (choose choices o) { conn_str = (choose choices o).conn_str ++ argv1 })
parse_args-render argv1 [] c o h = parse_args-plain argv1 c o h
parse_args-render argv1 (log_level_ l ∷ cs) c o h =
    parse_args-level argv1 l (render cs ++ c ∷ []) o ∙ parse_args-render argv1 cs c _ h
parse_args-render argv1 (cmd_queue q ∷ cs) c o h =
    parse_args-cmd_queue argv1 q (render cs ++ c ∷ []) o ∙ parse_args-render argv1 cs c _ h
parse_args-render argv1 (emit_sigusr1 ∷ cs) c o h =
    parse_args-flag argv1 _ (render cs) c o _ refl refl refl refl ∙ parse_args-render argv1 cs c _ h
parse_args-render argv1 (list_queue_names ∷ cs) c o h =
    parse_args-flag argv1 _ (render cs) c o _ refl refl refl refl ∙ parse_args-render argv1 cs c _ h
parse_args-render argv1 (log_times_ ∷ cs) c o h =
    parse_args-flag argv1 _ (render cs) c o _ refl refl refl refl ∙ parse_args-render argv1 cs c _ h
parse_args-render argv1 (no_log_times ∷ cs) c o h =
    parse_args-flag argv1 _ (render cs) c o _ refl refl refl refl ∙ parse_args-render argv1 cs c _ h

abbrev pub first_of : List Bytes → Bytes → Bytes
first_of [] c = c
first_of (a ∷ args) c = a

-- Options written out one after the other, and behind them an argument that is no option, are all
-- read as they were meant, but what is appended to the connection string is the first argument of
-- all: the last one only if it is alone.
pub parse_command_line-render :
    (choices : List Choice) (c : Bytes) (o : Options)
    → IsPlain c
    → parse_command_line (render choices ++ c ∷ []) o
      ≡ options (record (choose choices o) {
        conn_str = (choose choices o).conn_str ++ first_of (render choices) c;
      })
unfolding parse_command_line
parse_command_line-render choices c o h =
    split (render choices) ∙ parse_args-render (first_of (render choices) c) choices c o h
  where
    split :
        (args : List Bytes)
        → parse_command_line (args ++ c ∷ []) o ≡ parse_args (first_of args c) (args ++ c ∷ []) o
    split [] = refl
    split (a ∷ args) = refl
