-- ===== src/Sys/Environ.antt =====
-- `environ_to_unordered_map` of pg_cmdqd/utils.cpp. The environment is the list of its strings.
use mathlib.Core.List.{append_assoc, append-nil}
use pg_cmd_queue.Base.{
  false, Option, none, some, List, [], ◌∷◌, ◌++◌, ◌==◌, Bytes, bytes_eq, map, if◌then◌else◌, Result,
  ok, err, runtime_error, ◌≡◌, refl, ap, ◌∙◌, arith,
}
use pg_cmd_queue.Text.Scan.{Lacks}

-- The map: its pairs, each key once.
abbrev pub Env : Type 0
Env = List (Bytes × Bytes)

-- `map[key] = value`.
abbrev pub assign_var : Bytes → Bytes → Env → Env
assign_var key value [] = (key, value) ∷ []
assign_var key value ((k, v) ∷ m) =
    if bytes_eq k key then (key, value) ∷ m else (k, v) ∷ assign_var key value m

-- The name and the value around the first equals sign, if there is one.
abbrev pub split_var : Bytes → Option (Bytes × Bytes)
split_var [] = none
split_var (c ∷ cs) =
    if c == b'='
    then some ([], cs)
    else elim (split_var cs) [ none ↦ none | some (name, value) ↦ some (c ∷ name, value) ]

-- A string with no equals sign is an error; `next` is the loop from the next string on.
abbrev pub take_var : Option (Bytes × Bytes) → (Env → Result Env) → Env → Result Env
take_var none next m = err runtime_error
take_var (some (name, value)) next m = next (assign_var name value m)

-- The loop, with the map so far.
unfoldable pub environ_from : List Bytes → Env → Result Env
environ_from [] m = ok m
environ_from (s ∷ environ) m = take_var (split_var s) (environ_from environ) m

unfoldable pub environ_to_unordered_map : List Bytes → Result Env
environ_to_unordered_map environ = environ_from environ []

-- A variable as the environment holds it.
abbrev pub var_text : Bytes × Bytes → Bytes
var_text (name, value) = name ++ b'=' ∷ value

split_var-var_text :
    (name value : Bytes) → Lacks b'=' name → split_var (name ++ b'=' ∷ value) ≡ some (name, value)
split_var-var_text [] value l = refl
split_var-var_text (c ∷ name) value (l, ls) = ground (arith, split_var-var_text name value ls)

-- No pair of the map has the name.
abbrev pub FreshVar : Bytes → Env → Type 0
FreshVar name [] = Unit
FreshVar name ((k, v) ∷ m) = (bytes_eq k name ≡ false) × FreshVar name m

-- Each name is there once, none is in `read` already, and none has an equals sign.
abbrev pub PlainNames : Env → Env → Type 0
PlainNames read [] = Unit
PlainNames read ((k, v) ∷ m) = (Lacks b'=' k × FreshVar k read) × PlainNames (read ++ (k, v) ∷ []) m

pub assign_var-FreshVar :
    (name value : Bytes) (m : Env)
    → FreshVar name m
    → assign_var name value m ≡ m ++ (name, value) ∷ []
assign_var-FreshVar name value [] h = refl
assign_var-FreshVar name value ((k, v) ∷ m) (h, hs) =
    rw h (ap (◌∷◌ (k, v)) (assign_var-FreshVar name value m hs))

environ_from-PlainNames :
    (m read : Env) → PlainNames read m → environ_from (map var_text m) read ≡ ok (read ++ m)
unfolding environ_from
environ_from-PlainNames [] read p = ap ok (simp append-nil refl)
environ_from-PlainNames ((k, v) ∷ m) read ((l, f), p) =
    ap (λ o. take_var o (environ_from (map var_text m)) read) (split_var-var_text k v l)
    ∙ (ap (environ_from (map var_text m)) (assign_var-FreshVar k v read f)
        ∙ environ_from-PlainNames m (read ++ (k, v) ∷ []) p
        ∙ ap ok (append_assoc read ((k, v) ∷ []) m))

-- The environment of a set of variables is read back as these, if each name is there once and none
-- has an equals sign; the values may have any.
pub environ_to_unordered_map-vars :
    (m : Env) → PlainNames [] m → environ_to_unordered_map (map var_text m) ≡ ok m
unfolding environ_to_unordered_map
environ_to_unordered_map-vars m p = environ_from-PlainNames m [] p
