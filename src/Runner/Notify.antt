-- ===== src/Runner/Notify.antt =====
-- Which notifications the runner of pg_cmdqd/cmdqueuerunner.h acts on, and how it is stopped.
use pg_cmd_queue.Base.{
  ◌≤◌, Bool, false, Option, none, some, List, [], ◌∷◌, ◌++◌, Bytes, bytes_eq, bytes_eq_refl, codes,
  if◌then◌else◌, ok, ◌>>=◌, ◌≡◌, ◌≢◌, refl, ◌∙◌, ap, arith,
}
use pg_cmd_queue.Text.Quote.{joined}
use pg_cmd_queue.Text.Composite.{from_text_composite_value}
use pg_cmd_queue.Text.Composite.Plain.{
  PlainField, PlainFields, plain_text, from_text_composite_value-plain,
}
use pg_cmd_queue.Text.Composite.Quoted.{quoted_payload, from_text_composite_value-quoted_payload}
use pg_cmd_queue.Text.Scan.{Lacks}
use pg_cmd_queue.Runner.Wait.{
  notify_fields, read_notify, KillRead, ready, Turn, heard, idle, Waited, notified, stopped,
  reconnect, after_kill, after_ready, after_wait, is_broken, after_parse, after_notified, turn,
  wait_loop,
}

-- The loop goes on behind each of these turns.
abbrev pub AllPass : Bytes → List Turn → Type 0
AllPass identity [] = Unit
AllPass identity (t ∷ turns) = (turn identity t ≡ ok none) × AllPass identity turns

wait_loop-AllPass :
    (identity : Bytes) (before later : List Turn)
    → AllPass identity before
    → wait_loop identity (before ++ later) ≡ wait_loop identity later
unfolding wait_loop
wait_loop-AllPass identity [] later p = refl
wait_loop-AllPass identity (t ∷ before) later (p, ps) =
    rw p (wait_loop-AllPass identity before later ps)

wait_loop_end :
    (identity : Bytes) (t : Turn) (later : List Turn) (w : Waited)
    → turn identity t ≡ ok (some w)
    → wait_loop identity (t ∷ later) ≡ ok w
unfolding wait_loop
wait_loop_end identity t later w e = rw e refl

turn_heard :
    (identity extra : Bytes) (fields : List (Option Bytes))
    → from_text_composite_value extra ≡ ok fields
    → turn identity (heard extra) ≡ ok (after_notified (notify_fields identity fields))
unfolding turn read_notify after_parse
turn_heard identity extra fields e =
    ap (λ r. after_parse identity r >>= λ n. ok (after_notified n)) e

-- The text of a row of the three fields of a payload, none of which is in quotes.
abbrev pub payload : Bytes → Bytes → Option Bytes → Bytes
payload cls cmd_id cmd_subid =
    codes "("
    ++ (joined (codes ",") plain_text false (some cls ∷ some cmd_id ∷ cmd_subid ∷ []) ++ codes ")")

-- A payload in which no field is in quotes and that names this queue makes the loop end with the
-- command's identifiers, behind any turns that do not end it, and whatever follows.
pub wait_loop-payload :
    (identity cmd_id : Bytes) (cmd_subid : Option Bytes) (before later : List Turn)
    → PlainFields (some identity ∷ some cmd_id ∷ cmd_subid ∷ [])
    → AllPass identity before
    → wait_loop identity (before ++ heard (payload identity cmd_id cmd_subid) ∷ later)
      ≡ ok (notified cmd_id cmd_subid)
unfolding notify_fields
wait_loop-payload identity cmd_id cmd_subid before later plain p =
    let fields = from_text_composite_value-plain identity (some cmd_id ∷ cmd_subid ∷ []) plain in
    wait_loop-AllPass identity before _ p
    ∙ wait_loop_end identity _ later _
        (turn_heard identity _ _ fields ∙ rw (bytes_eq_refl identity) refl)

-- A payload for another queue, no field in quotes, is passed over.
pub wait_loop-other_payload :
    (identity cls cmd_id : Bytes) (cmd_subid : Option Bytes) (later : List Turn)
    → PlainFields (some cls ∷ some cmd_id ∷ cmd_subid ∷ [])
    → bytes_eq cls identity ≡ false
    → wait_loop identity (heard (payload cls cmd_id cmd_subid) ∷ later) ≡ wait_loop identity later
unfolding notify_fields
wait_loop-other_payload identity cls cmd_id cmd_subid later plain ne =
    let fields = from_text_composite_value-plain cls (some cmd_id ∷ cmd_subid ∷ []) plain in
    wait_loop-AllPass identity (_ ∷ []) later (turn_heard identity _ _ fields ∙ rw ne refl, tt)

-- A payload for this very queue is passed over too if its `cmd_id` is in quotes, as the server
-- writes one that holds a space or a comma. The `cmd_id` is not empty and has no quote or
-- backslash itself; the other fields are without quotes.
pub wait_loop-quoted_payload :
    (identity cmd_id : Bytes) (cmd_subid : Option Bytes) (later : List Turn)
    → PlainField (some identity)
    → Lacks b'"' cmd_id
    → Lacks b'\\' cmd_id
    → cmd_id ≢ []
    → PlainField cmd_subid
    → wait_loop identity (heard (quoted_payload identity cmd_id cmd_subid) ∷ later)
      ≡ wait_loop identity later
unfolding notify_fields
wait_loop-quoted_payload identity cmd_id cmd_subid later p q b n s =
    let fields = from_text_composite_value-quoted_payload identity cmd_id cmd_subid p q b n s in
    wait_loop-AllPass identity (_ ∷ []) later (turn_heard identity _ _ fields, tt)

-- When a whole signal number is read from the kill pipe, the loop ends, unless the connection broke
-- in the same turn: that is seen first, and the pipe is not read.
pub wait_loop-kill :
    (identity : Bytes) (before later : List Turn) (k : KillRead) (consumed : Option Bool)
    → 4 ≤ k.sig_num_bytes_total
    → AllPass identity before
    → wait_loop identity
        (before ++ idle (ready (record { consumed = consumed; kill = some k })) ∷ later)
      ≡ ok (if is_broken consumed then reconnect else stopped)
unfolding turn after_wait after_ready after_kill
wait_loop-kill identity before later k consumed n p =
    wait_loop-AllPass identity before _ p ∙ wait_loop_end identity _ later _ (ground arith)
