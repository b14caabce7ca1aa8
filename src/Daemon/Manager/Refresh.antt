-- ===== src/Daemon/Manager/Refresh.antt =====
-- What a refresh of the queue list of pg_cmdqd/cmdqueuerunnermanager.cpp does to the runners.
use pg_cmd_queue.Base.{
  ℕ, Bool, true, ◌||◌, Option, none, some, List, [], ◌∷◌, ◌++◌, Bytes, bytes_eq, bytes_eq_refl,
  codes, ok, ◌≡◌, refl, ap, ◌∙◌, inl, inr, arith, Bool-cases,
}
use pg_cmd_queue.Daemon.Manager.{
  insert_before, is_before, CmdQueue, Runner, Runners, Manager, has_runner, has_class, insert_class,
  emplace, new_runner, kill_at, queue_has_runner_already, add_runner, stop_runner, take_row,
  take_rows, stop_disappeared, refresh_with, sigterm_num,
}

-- A class has a runner of one of the two types.
abbrev pub with_runner : Bytes → Manager → Bool
with_runner cls m = has_runner cls m.nix_cmd_queue_runners || has_runner cls m.sql_cmd_queue_runners

abbrev pub AllHaveRunners : List Bytes → Manager → Type 0
AllHaveRunners [] m = Unit
AllHaveRunners (cls ∷ classes) m = (with_runner cls m ≡ true) × AllHaveRunners classes m

-- The template is one of the two that the manager knows.
abbrev pub IsKnown : CmdQueue → Type 0
IsKnown q =
    (bytes_eq q.cmd_signature_class_relname (codes "nix_queue_cmd_template")
      || bytes_eq q.cmd_signature_class_relname (codes "sql_queue_cmd_template"))
    ≡ true

abbrev pub KnownRows : List (Option CmdQueue) → Type 0
KnownRows [] = Unit
KnownRows (none ∷ rows) = KnownRows rows
KnownRows (some q ∷ rows) = IsKnown q × KnownRows rows

-- The classes of the valid rows, each once, behind those that are there.
abbrev pub row_classes : List Bytes → List (Option CmdQueue) → List Bytes
row_classes classes [] = classes
row_classes classes (none ∷ rows) = row_classes classes rows
row_classes classes (some q ∷ rows) = row_classes (insert_class q.cmd_class_identity classes) rows

has_runner-snoc :
    (cls : Bytes) (rs : Runners) (r : Runner) → has_runner cls (rs ++ (cls, r) ∷ []) ≡ true
has_runner-snoc cls [] r = rw (bytes_eq_refl cls) refl
has_runner-snoc cls ((key, r') ∷ rs) r = ground (arith, has_runner-snoc cls rs r)

has_runner-append :
    (cls : Bytes) (rs more : Runners)
    → has_runner cls rs ≡ true
    → has_runner cls (rs ++ more) ≡ true
has_runner-append cls [] more h = cc
has_runner-append cls ((key, r) ∷ rs) more h = ground (arith, has_runner-append cls rs more)

has_runner-emplace : (cls : Bytes) (rs : Runners) → has_runner cls (emplace cls rs) ≡ true
has_runner-emplace cls rs = ground (arith, has_runner-snoc cls rs new_runner)

has_runner-emplace_other :
    (cls key : Bytes) (rs : Runners)
    → has_runner cls rs ≡ true
    → has_runner cls (emplace key rs) ≡ true
has_runner-emplace_other cls key rs h =
    ground (arith, has_runner-append cls rs ((key, new_runner) ∷ []) h)

pub has_runner-kill_at :
    (cls key : Bytes) (n : ℕ) (rs : Runners) → has_runner cls (kill_at key n rs) ≡ has_runner cls rs
has_runner-kill_at cls key n [] = refl
has_runner-kill_at cls key n ((k, r) ∷ rs) = ground (arith, has_runner-kill_at cls key n rs)

-- What taking a row leaves as it was, and what it gives.
take_row-runner :
    (cls : Bytes) (q : CmdQueue) (m : Manager)
    → with_runner cls m ≡ true
    → with_runner cls (take_row (some q) m) ≡ true
unfolding take_row add_runner queue_has_runner_already
take_row-runner cls q m h = ground (
  arith,
  has_runner-emplace_other cls q.cmd_class_identity m.nix_cmd_queue_runners,
  has_runner-emplace_other cls q.cmd_class_identity m.sql_cmd_queue_runners,
)

take_row-new_runner :
    (q : CmdQueue) (m : Manager)
    → IsKnown q
    → with_runner q.cmd_class_identity (take_row (some q) m) ≡ true
unfolding take_row add_runner queue_has_runner_already
take_row-new_runner q m h = ground (
  arith,
  has_runner-emplace q.cmd_class_identity m.nix_cmd_queue_runners,
  has_runner-emplace q.cmd_class_identity m.sql_cmd_queue_runners,
)

take_row-new_cmd_classes :
    (q : CmdQueue) (m : Manager)
    → (take_row (some q) m).new_cmd_classes ≡ insert_class q.cmd_class_identity m.new_cmd_classes
unfolding take_row add_runner
take_row-new_cmd_classes q m = ground arith

take_row-old_cmd_classes :
    (q : CmdQueue) (m : Manager) → (take_row (some q) m).old_cmd_classes ≡ m.old_cmd_classes
unfolding take_row add_runner
take_row-old_cmd_classes q m = ground arith

take_row-AllHaveRunners :
    (classes : List Bytes) (q : CmdQueue) (m : Manager)
    → AllHaveRunners classes m
    → AllHaveRunners classes (take_row (some q) m)
take_row-AllHaveRunners [] q m h = h
take_row-AllHaveRunners (cls ∷ classes) q m (h, hs) =
    (take_row-runner cls q m h, take_row-AllHaveRunners classes q m hs)

insert_before-AllHaveRunners :
    (classes : List Bytes) (cls : Bytes) (m : Manager)
    → AllHaveRunners classes m
    → with_runner cls m ≡ true
    → AllHaveRunners (insert_before cls classes) m
insert_before-AllHaveRunners [] cls m h e = (e, tt)
insert_before-AllHaveRunners (c ∷ classes) cls m (h, hs) e = elim (Bool-cases (is_before cls c)) [
  | inl t ↦ rw t (e, (h, hs))
  | inr f ↦ rw f (h, insert_before-AllHaveRunners classes cls m hs e)
]

insert_class-AllHaveRunners :
    (classes : List Bytes) (cls : Bytes) (m : Manager)
    → AllHaveRunners classes m
    → with_runner cls m ≡ true
    → AllHaveRunners (insert_class cls classes) m
insert_class-AllHaveRunners classes cls m h e = elim (Bool-cases (has_class cls classes)) [
  | inl t ↦ rw t h
  | inr f ↦ rw f (insert_before-AllHaveRunners classes cls m h e)
]

-- What the rows leave behind, when their templates are known.
abbrev Taken : List (Option CmdQueue) → Manager → Manager → Type 0
Taken rows m m' =
    (m'.old_cmd_classes ≡ m.old_cmd_classes)
    × (m'.new_cmd_classes ≡ row_classes m.new_cmd_classes rows)
    × AllHaveRunners m'.old_cmd_classes m'
    × AllHaveRunners m'.new_cmd_classes m'

pub take_rows_nil : (m : Manager) → take_rows [] m ≡ m
unfolding take_rows
take_rows_nil m = refl

pub take_rows-none :
    (rows : List (Option CmdQueue)) (m : Manager) → take_rows (none ∷ rows) m ≡ take_rows rows m
unfolding take_rows take_row
take_rows-none rows m = refl

pub take_rows-some :
    (q : CmdQueue) (rows : List (Option CmdQueue)) (m : Manager)
    → take_rows (some q ∷ rows) m ≡ take_rows rows (take_row (some q) m)
unfolding take_rows
take_rows-some q rows m = refl

take_rows-Taken :
    (rows : List (Option CmdQueue)) (m : Manager)
    → KnownRows rows
    → AllHaveRunners m.old_cmd_classes m
    → AllHaveRunners m.new_cmd_classes m
    → Taken rows m (take_rows rows m)
take_rows-Taken [] m k o n = rw (take_rows_nil m) (refl, refl, o, n)
take_rows-Taken (none ∷ rows) m k o n = rw (take_rows-none rows m) (take_rows-Taken rows m k o n)
take_rows-Taken (some q ∷ rows) m (kq, k) o n = rw (take_rows-some q rows m) (
    let m' = take_row (some q) m in
    let (e, f, o', n') =
      take_rows-Taken rows m' k
        (simp (take_row-old_cmd_classes q m) (take_row-AllHaveRunners m.old_cmd_classes q m o))
        (simp (take_row-new_cmd_classes q m) (
          insert_class-AllHaveRunners m.new_cmd_classes q.cmd_class_identity m'
            (take_row-AllHaveRunners m.new_cmd_classes q m n) (take_row-new_runner q m kq))) in
    (
      e ∙ take_row-old_cmd_classes q m,
      f ∙ ap (λ (l : List Bytes). row_classes l rows) (take_row-new_cmd_classes q m),
      o',
      n',
    ))

-- What asking runners to stop leaves as it was.
abbrev Kept : Manager → Manager → Type 0
Kept m m' =
    (m'.new_cmd_classes ≡ m.new_cmd_classes)
    × ((cls : Bytes) → with_runner cls m' ≡ with_runner cls m)

stop_runner-Kept :
    (cls : Bytes) (n : ℕ) (m : Manager)
    → with_runner cls m ≡ true
    → (m' : Manager) × (stop_runner cls n m ≡ ok m') × Kept m m'
unfolding stop_runner
stop_runner-Kept cls n m h = elim (Bool-cases (has_runner cls m.nix_cmd_queue_runners)) [
  | inl t ↦ (
    record m { nix_cmd_queue_runners = kill_at cls n m.nix_cmd_queue_runners },
    rw t refl,
    (
      refl,
      λ c.
          ap (λ b. b || has_runner c m.sql_cmd_queue_runners)
            (has_runner-kill_at c cls n m.nix_cmd_queue_runners),
    ),
  )
  | inr f ↦ (
    record m { sql_cmd_queue_runners = kill_at cls n m.sql_cmd_queue_runners },
    ground arith,
    (
      refl,
      λ c.
          ap (λ b. has_runner c m.nix_cmd_queue_runners || b)
            (has_runner-kill_at c cls n m.sql_cmd_queue_runners),
    ),
  )
]

Kept-AllHaveRunners :
    (classes : List Bytes) (m m' : Manager)
    → ((cls : Bytes) → with_runner cls m' ≡ with_runner cls m)
    → AllHaveRunners classes m
    → AllHaveRunners classes m'
Kept-AllHaveRunners [] m m' k h = h
Kept-AllHaveRunners (cls ∷ classes) m m' k (h, hs) =
    (k cls ∙ h, Kept-AllHaveRunners classes m m' k hs)

stop_disappeared-Kept :
    (old : List Bytes) (m : Manager)
    → AllHaveRunners old m
    → (m' : Manager) × (stop_disappeared old m ≡ ok m') × Kept m m'
unfolding stop_disappeared
stop_disappeared-Kept [] m h = (m, refl, (refl, λ cls. refl))
stop_disappeared-Kept (cls ∷ old) m (h, hs) = elim (Bool-cases (has_class cls m.new_cmd_classes)) [
  | inl t ↦ let (m', e, k) = stop_disappeared-Kept old m hs in (m', rw t e, k)
  | inr f ↦
      let (m1, e1, (n1, k1)) = stop_runner-Kept cls sigterm_num m h in
      let (m', e, (n, k)) = stop_disappeared-Kept old m1 (Kept-AllHaveRunners old m m1 k1 hs) in
      (m', rw (f, e1) e, (n ∙ n1, λ c. k c ∙ k1 c))
]

-- If every old class has a runner and the rows' templates are known, a refresh succeeds. The
-- classes that it remembers are then the set of the valid rows' classes, and each of them has a
-- runner, so that the next refresh meets the same condition.
pub refresh_with-AllHaveRunners :
    (rows : List (Option CmdQueue)) (m : Manager)
    → KnownRows rows
    → AllHaveRunners m.old_cmd_classes m
    → (m' : Manager) × (refresh_with rows m ≡ ok m')
      × (m'.old_cmd_classes ≡ row_classes [] rows)
      × AllHaveRunners m'.old_cmd_classes m'
unfolding refresh_with
refresh_with-AllHaveRunners rows m k o =
    let m0 = record m { new_cmd_classes = [] } in
    let m1 = take_rows rows m0 in
    let (e, f, o1, n1) =
      take_rows-Taken rows m0 k (Kept-AllHaveRunners m.old_cmd_classes m m0 (λ cls. refl) o) tt in
    let (m2, s, (n2, k2)) = stop_disappeared-Kept m1.old_cmd_classes m1 o1 in
    (
      record m2 { old_cmd_classes = m2.new_cmd_classes },
      rw s refl,
      n2 ∙ f,
      Kept-AllHaveRunners m2.new_cmd_classes m2 _ (λ cls. refl)
          (simp n2 (Kept-AllHaveRunners m1.new_cmd_classes m1 m2 k2 n1)),
    )
