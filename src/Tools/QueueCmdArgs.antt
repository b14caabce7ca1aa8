-- ===== src/Tools/QueueCmdArgs.antt =====
-- The arguments of the program pg_cmdqd/pg_nix_queue_cmd.cpp.
use pg_cmd_queue.Base.{
  ℕ, zero, suc, not, Bool-cases, inl, inr, ap, ◌∙◌, bytes_eq_iff, ◌≡◌, refl, Bool, true, false,
  Option, none, some, List, [], ◌∷◌, ◌++◌, Bytes, bytes_eq, codes, take, ltb, length, if◌then◌else◌,
  arith,
}

pub record CmdArgs : Type 0 where
  pub output_update_statement : Bool
  pub exec_update_statement : Bool
  pub cmd_class : Bytes
  pub cmd_id : Bytes
  pub cmd_subid : Option Bytes
  pub cmd_meta_fields_identified : ℕ
  pub cmd_argv : List Bytes

abbrev pub no_args : CmdArgs
no_args = record {
  output_update_statement = false;
  exec_update_statement = false;
  cmd_class = [];
  cmd_id = [];
  cmd_subid = none;
  cmd_meta_fields_identified = 0;
  cmd_argv = [];
}

-- `--help`, a `CmdLineParseError` and exit with 222, or the arguments.
pub data Parsed : Type 0 where
  help usage_error : Parsed
  parsed : CmdArgs → Parsed

-- The meta field behind so many, unless there have been three.
abbrev pub nth_field : ℕ → Bytes → CmdArgs → Option CmdArgs
nth_field zero arg a = some (record a { cmd_class = arg; cmd_meta_fields_identified = 1 })
nth_field (suc zero) arg a = some (record a { cmd_id = arg; cmd_meta_fields_identified = 2 })
nth_field (suc (suc zero)) arg a =
    some (record a { cmd_subid = some arg; cmd_meta_fields_identified = 3 })
nth_field (suc (suc (suc n))) arg a = none

unfoldable pub meta_field : Bytes → CmdArgs → Option CmdArgs
meta_field arg a = nth_field a.cmd_meta_fields_identified arg a

-- The two tests behind the loop.
unfoldable pub check_args : CmdArgs → Parsed
check_args a =
    if ltb a.cmd_meta_fields_identified 2
    then usage_error
    else if ltb (length a.cmd_argv) 1
    then usage_error
    else parsed a

-- The loop over the arguments.
unfoldable pub parse_args : List Bytes → CmdArgs → Parsed
parse_args [] a = check_args a
parse_args (arg ∷ args) a =
    if bytes_eq arg (codes "--help")
    then help
    else if bytes_eq arg (codes "--output-update")
    then parse_args args (record a { output_update_statement = true })
    else if bytes_eq arg (codes "--exec-update")
    then parse_args args (record a { exec_update_statement = true })
    else if not (bytes_eq (take 2 arg) (codes "--"))
    then elim (meta_field arg a) [ none ↦ usage_error | some a' ↦ parse_args args a' ]
    else if bytes_eq arg (codes "--")
    then check_args (record a { cmd_argv = a.cmd_argv ++ args })
    else usage_error

-- An argument that does not start with two dashes.
abbrev pub IsField : Bytes → Type 0
IsField arg = bytes_eq (take 2 arg) (codes "--") ≡ false

IsField-not :
    (arg option : Bytes)
    → IsField arg
    → bytes_eq (take 2 option) (codes "--") ≡ true
    → bytes_eq arg option ≡ false
IsField-not arg option f o = elim (Bool-cases (bytes_eq arg option)) [
  | inl t ↦ absurd (clash ((bytes_eq_iff arg option).0 t))
  | inr n ↦ n
]
  where
    clash : arg ≡ option → ⊥
    clash e = ground (arith, ap (λ (b : Bytes). bytes_eq (take 2 b) (codes "--")) e)

parse_args-field :
    (arg : Bytes) (args : List Bytes) (a a' : CmdArgs)
    → IsField arg
    → meta_field arg a ≡ some a'
    → parse_args (arg ∷ args) a ≡ parse_args args a'
unfolding parse_args
parse_args-field arg args a a' f m =
    rw
      (
        IsField-not arg (codes "--help") f refl,
        IsField-not arg (codes "--output-update") f refl,
        IsField-not arg (codes "--exec-update") f refl,
        f,
        m,
      )
      refl

parse_args-command :
    (exe : Bytes) (args : List Bytes) (a : CmdArgs)
    → a.cmd_argv ≡ []
    → ltb a.cmd_meta_fields_identified 2 ≡ false
    → parse_args (codes "--" ∷ exe ∷ args) a ≡ parsed (record a { cmd_argv = exe ∷ args })
unfolding parse_args check_args
parse_args-command exe args a e n = simp (e, n) (ground arith)

abbrev pub fields_written : Option Bytes → ℕ
fields_written none = 2
fields_written (some s) = 3

-- The optional sub-identifier, written out.
abbrev pub subid_args : Option Bytes → List Bytes
subid_args none = []
subid_args (some s) = s ∷ []

abbrev pub AreFields : Option Bytes → Type 0
AreFields none = Unit
AreFields (some s) = IsField s

-- The class, the identifier and an optional sub-identifier, none of which starts with two dashes, and
-- behind `--` a command that is not empty, whatever its arguments are: all of them are read back.
pub parse_args-written :
    (cmd_class cmd_id : Bytes) (cmd_subid : Option Bytes) (exe : Bytes) (args : List Bytes)
    → IsField cmd_class
    → IsField cmd_id
    → AreFields cmd_subid
    → parse_args (cmd_class ∷ cmd_id ∷ (subid_args cmd_subid ++ codes "--" ∷ exe ∷ args)) no_args
      ≡ parsed (record no_args {
        cmd_class = cmd_class;
        cmd_id = cmd_id;
        cmd_subid = cmd_subid;
        cmd_meta_fields_identified = fields_written cmd_subid;
        cmd_argv = exe ∷ args;
      })
unfolding meta_field
parse_args-written cmd_class cmd_id none exe args c i s =
    parse_args-field cmd_class _ no_args _ c refl
    ∙ parse_args-field cmd_id _ _ _ i refl
    ∙ parse_args-command exe args _ refl refl
parse_args-written cmd_class cmd_id (some subid) exe args c i s =
    parse_args-field cmd_class _ no_args _ c refl
    ∙ parse_args-field cmd_id _ _ _ i refl
    ∙ parse_args-field subid _ _ _ s refl
    ∙ parse_args-command exe args _ refl refl
