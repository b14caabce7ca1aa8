-- ===== src/Daemon/Listen/Payloads.antt =====
-- What the daemon's main thread (pg_cmdqd/cmdqueuerunnermanager.cpp) makes of the payload of a
-- notification.
use pg_cmd_queue.Base.{
  ◌&&◌, ℕ, Bool, true, Option, some, List, [], ◌∷◌, Bytes, bytes_eq, codes, ok, err, assertion, ◌≡◌,
  ◌≢◌, refl, arith, if◌then◌else◌,
}
use pg_cmd_queue.Text.Composite.{from_text_composite_value}
use pg_cmd_queue.Text.Composite.Plain.{PlainFields, from_text_composite_value-plain}
use pg_cmd_queue.Runner.Notify.{payload}
use pg_cmd_queue.Daemon.Manager.{Manager, SelectTry}
use pg_cmd_queue.Daemon.Listen.{
  is_change, is_queue_change, Notification, refreshed, take_notification, take_notifications,
  ReadAnswer, ListenTurn, ready, listen_loop,
}

not_composite : (c : ℕ) (cs : Bytes) → c ≢ b'(' → from_text_composite_value (c ∷ cs) ≡ err assertion
unfolding from_text_composite_value
not_composite c cs h = ground arith

-- A payload that does not start with a parenthesis ends the program by a failed assertion, whatever
-- else is to be read, and whatever follows.
pub listen_loop-not_composite :
    (c : ℕ) (cs : Bytes) (tries : List SelectTry) (ns : List Notification)
    (answers : Option (List ReadAnswer)) (turns : List ListenTurn) (m : Manager)
    → c ≢ b'('
    → m.keep_running ≡ true
    → listen_loop (ready (some (record { extra = c ∷ cs; tries = tries } ∷ ns)) answers ∷ turns) m
      ≡ err assertion
unfolding listen_loop take_notifications take_notification
listen_loop-not_composite c cs tries ns answers turns m h k = simp (k, not_composite c cs h) refl

take_notification-fields :
    (fields : List (Option Bytes)) (n : Notification) (m : Manager) (b : Bool)
    → from_text_composite_value n.extra ≡ ok fields
    → is_queue_change fields ≡ ok b
    → take_notification n m ≡ (if b then refreshed true n.tries m else ok m)
unfolding take_notification
take_notification-fields fields n m b e f = simp (e, f) refl

-- A payload of three fields, none in quotes, makes the daemon select its queues again, trying until
-- that succeeds, exactly if it is of `cmd_queue` and of an `INSERT`, `UPDATE` or `DELETE`.
pub take_notification-payload :
    (cls second : Bytes) (op : Option Bytes) (tries : List SelectTry) (m : Manager)
    → PlainFields (some cls ∷ some second ∷ op ∷ [])
    → take_notification (record { extra = payload cls second op; tries = tries }) m
      ≡ (if bytes_eq cls (codes "cmd_queue") && is_change op then refreshed true tries m else ok m)
unfolding is_queue_change
take_notification-payload cls second op tries m plain =
    take_notification-fields (some cls ∷ some second ∷ op ∷ []) _ m _
      (from_text_composite_value-plain cls (some second ∷ op ∷ []) plain) refl
