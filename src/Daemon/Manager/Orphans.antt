-- ===== src/Daemon/Manager/Orphans.antt =====
-- A class in the queue list of pg_cmdqd/cmdqueuerunnermanager.cpp that never had a runner, since its
-- template is not known.
use pg_cmd_queue.Base.{
  ℕ, true, false, ◌||◌, Option, none, some, List, [], ◌∷◌, ◌++◌, Bytes, bytes_eq, bytes_eq_refl,
  bytes_eq_iff, codes, ok, err, runtime_error, ◌>>=◌, ◌≡◌, refl, ap, ◌∙◌, ◌⊎◌, inl, inr, arith,
  Bool-cases,
}
use pg_cmd_queue.Daemon.Manager.{
  insert_before, CmdQueue, Runner, Runners, Manager, has_runner, has_class, insert_class,
  new_runner, kill_at, queue_has_runner_already, add_runner, stop_runner, take_row, take_rows,
  stop_disappeared, refresh_with, sigterm_num,
}
use pg_cmd_queue.Daemon.Manager.Refresh.{with_runner, has_runner-kill_at}

-- No valid row is of this class.
abbrev pub NoRow : Bytes → List (Option CmdQueue) → Type 0
NoRow cls [] = Unit
NoRow cls (none ∷ rows) = NoRow cls rows
NoRow cls (some q ∷ rows) = (bytes_eq q.cmd_class_identity cls ≡ false) × NoRow cls rows

has_runner-snoc_other :
    (cls key : Bytes) (rs : Runners) (r : Runner)
    → bytes_eq key cls ≡ false
    → has_runner cls (rs ++ (key, r) ∷ []) ≡ has_runner cls rs
has_runner-snoc_other cls key [] r h = ground arith
has_runner-snoc_other cls key ((k, r') ∷ rs) r h =
    ground (arith, has_runner-snoc_other cls key rs r h)

has_class-insert_before_other :
    (cls key : Bytes) (classes : List Bytes)
    → bytes_eq key cls ≡ false
    → has_class cls (insert_before key classes) ≡ has_class cls classes
has_class-insert_before_other cls key [] h = ground arith
has_class-insert_before_other cls key (k ∷ classes) h =
    ground (arith, has_class-insert_before_other cls key classes h)

-- The class is an old one, no runner has it, and no new row has been of it.
abbrev Orphan : Bytes → Manager → Type 0
Orphan cls m = (with_runner cls m ≡ false) × (has_class cls m.new_cmd_classes ≡ false)

take_row-Orphan :
    (cls : Bytes) (q : CmdQueue) (m : Manager)
    → bytes_eq q.cmd_class_identity cls ≡ false
    → Orphan cls m
    → Orphan cls (take_row (some q) m)
unfolding take_row add_runner queue_has_runner_already
take_row-Orphan cls q m n (h, k) = (
  ground (
    arith,
    has_runner-snoc_other cls q.cmd_class_identity m.nix_cmd_queue_runners new_runner n,
    has_runner-snoc_other cls q.cmd_class_identity m.sql_cmd_queue_runners new_runner n,
  ),
  ground (arith, has_class-insert_before_other cls q.cmd_class_identity m.new_cmd_classes n),
)

take_row-none-Orphan : (cls : Bytes) (m : Manager) → Orphan cls m → Orphan cls (take_row none m)
unfolding take_row
take_row-none-Orphan cls m h = h

take_rows-Orphan :
    (cls : Bytes) (rows : List (Option CmdQueue)) (m : Manager)
    → NoRow cls rows
    → Orphan cls m
    → Orphan cls (take_rows rows m)
unfolding take_rows
take_rows-Orphan cls [] m n h = h
take_rows-Orphan cls (none ∷ rows) m n h =
    take_rows-Orphan cls rows (take_row none m) n (take_row-none-Orphan cls m h)
take_rows-Orphan cls (some q ∷ rows) m (n, ns) h =
    take_rows-Orphan cls rows (take_row (some q) m) ns (take_row-Orphan cls q m n h)

take_row-old_cmd_classes :
    (row : Option CmdQueue) (m : Manager) → (take_row row m).old_cmd_classes ≡ m.old_cmd_classes
unfolding take_row add_runner
take_row-old_cmd_classes none m = refl
take_row-old_cmd_classes (some q) m = ground arith

take_rows-old_cmd_classes :
    (rows : List (Option CmdQueue)) (m : Manager)
    → (take_rows rows m).old_cmd_classes ≡ m.old_cmd_classes
unfolding take_rows
take_rows-old_cmd_classes [] m = refl
take_rows-old_cmd_classes (row ∷ rows) m =
    take_rows-old_cmd_classes rows (take_row row m) ∙ take_row-old_cmd_classes row m

stop_runner_orphan :
    (cls : Bytes) (n : ℕ) (m : Manager)
    → with_runner cls m ≡ false
    → stop_runner cls n m ≡ err runtime_error
unfolding stop_runner
stop_runner_orphan cls n m h = ground arith

-- Whichever runner is stopped, no runner or row of the class comes of it.
stop_runner-Orphan :
    (cls key : Bytes) (n : ℕ) (m : Manager)
    → Orphan cls m
    → (stop_runner key n m ≡ err runtime_error)
      ⊎ ((m' : Manager) × (stop_runner key n m ≡ ok m') × Orphan cls m')
unfolding stop_runner
stop_runner-Orphan cls key n m (h, k) = elim (Bool-cases (has_runner key m.nix_cmd_queue_runners)) [
  | inl t ↦ inr (
    record m { nix_cmd_queue_runners = kill_at key n m.nix_cmd_queue_runners },
    rw t refl,
    (
      ap (λ b. b || has_runner cls m.sql_cmd_queue_runners)
            (has_runner-kill_at cls key n m.nix_cmd_queue_runners)
          ∙ h,
      k,
    ),
  )
  | inr f ↦ elim (Bool-cases (has_runner key m.sql_cmd_queue_runners)) [
    | inl t ↦ inr (
      record m { sql_cmd_queue_runners = kill_at key n m.sql_cmd_queue_runners },
      rw (f, t) refl,
      (
        ap (λ b. has_runner cls m.nix_cmd_queue_runners || b)
              (has_runner-kill_at cls key n m.sql_cmd_queue_runners)
            ∙ h,
        k,
      ),
    )
    | inr f' ↦ inl (rw (f, f') refl)
  ]
]

stop_disappeared-Orphan :
    (cls : Bytes) (old : List Bytes) (m : Manager)
    → has_class cls old ≡ true
    → Orphan cls m
    → stop_disappeared old m ≡ err runtime_error
unfolding stop_disappeared
stop_disappeared-Orphan cls [] m i o = cc
stop_disappeared-Orphan cls (key ∷ old) m i o = elim (Bool-cases (bytes_eq key cls)) [
  | inl t ↦ rw ((bytes_eq_iff key cls).0 t, o.1, stop_runner_orphan cls sigterm_num m o.0) refl
  | inr f ↦
      let later : has_class cls old ≡ true = ground arith in
      elim (Bool-cases (has_class key m.new_cmd_classes)) [
        | inl t ↦ rw t (stop_disappeared-Orphan cls old m later o)
        | inr g ↦ elim (stop_runner-Orphan cls key sigterm_num m o) [
          | inl e ↦ rw (g, e) refl
          | inr (m', e, o') ↦ rw (g, e) (stop_disappeared-Orphan cls old m' later o')
        ]
      ]
]

-- If an old class has no runner and is in no valid row, the refresh throws.
refresh_with_orphan :
    (cls : Bytes) (rows : List (Option CmdQueue)) (m : Manager)
    → has_class cls m.old_cmd_classes ≡ true
    → with_runner cls m ≡ false
    → NoRow cls rows
    → refresh_with rows m ≡ err runtime_error
unfolding refresh_with
refresh_with_orphan cls rows m i h n =
    let m0 = record m { new_cmd_classes = [] } in
    let e =
      stop_disappeared-Orphan cls (take_rows rows m0).old_cmd_classes (take_rows rows m0)
        (ap (has_class cls) (take_rows-old_cmd_classes rows m0) ∙ i)
        (take_rows-Orphan cls rows m0 n (h, refl)) in
    rw e refl

-- The template is neither of the two known ones.
abbrev pub IsUnknown : CmdQueue → Type 0
IsUnknown q =
    (bytes_eq q.cmd_signature_class_relname (codes "nix_queue_cmd_template")
      || bytes_eq q.cmd_signature_class_relname (codes "sql_queue_cmd_template"))
    ≡ false

take_row_unknown :
    (q : CmdQueue) (m : Manager)
    → with_runner q.cmd_class_identity m ≡ false
    → IsUnknown q
    → take_row (some q) m ≡ record m {
      new_cmd_classes = insert_class q.cmd_class_identity m.new_cmd_classes;
      signals_blocked = false;
    }
unfolding take_row add_runner queue_has_runner_already
take_row_unknown q m h u =
    let n : bytes_eq q.cmd_signature_class_relname (codes "nix_queue_cmd_template") ≡ false =
      ground arith in
    let s : bytes_eq q.cmd_signature_class_relname (codes "sql_queue_cmd_template") ≡ false =
      ground arith in
    rw (h, n, s) refl

stop_disappeared_nil : (old : List Bytes) (m : Manager) → old ≡ [] → stop_disappeared old m ≡ ok m
unfolding stop_disappeared
stop_disappeared_nil [] m h = refl
stop_disappeared_nil (cls ∷ old) m h = cc

-- A refresh that lists such a queue remembers its class, and no runner has it.
listed_once :
    (q : CmdQueue) (m : Manager)
    → m.old_cmd_classes ≡ []
    → with_runner q.cmd_class_identity m ≡ false
    → IsUnknown q
    → (m' : Manager) × (refresh_with (some q ∷ []) m ≡ ok m')
      × (has_class q.cmd_class_identity m'.old_cmd_classes ≡ true)
      × (with_runner q.cmd_class_identity m' ≡ false)
unfolding refresh_with take_rows
listed_once q m o h u =
    let m0 = record m { new_cmd_classes = [] } in
    let m1 = record m0 { new_cmd_classes = q.cmd_class_identity ∷ []; signals_blocked = false } in
    (
      record m1 { old_cmd_classes = q.cmd_class_identity ∷ [] },
      simp (take_row_unknown q m0 h u) (simp (stop_disappeared_nil m.old_cmd_classes m1 o) refl),
      rw (bytes_eq_refl q.cmd_class_identity) refl,
      h,
    )

-- From a manager that remembers no classes: a queue of a template that is neither of the two known
-- ones, whose class has no runner, is listed alone once and not listed the next time. Then the
-- second refresh throws a `runtime_error`, whatever the other rows are by then.
pub refresh_with_unknown_template :
    (q : CmdQueue) (rows : List (Option CmdQueue)) (m : Manager)
    → m.old_cmd_classes ≡ []
    → with_runner q.cmd_class_identity m ≡ false
    → IsUnknown q
    → NoRow q.cmd_class_identity rows
    → refresh_with (some q ∷ []) m >>= refresh_with rows ≡ err runtime_error
refresh_with_unknown_template q rows m o h u n =
    let (m', e, i, h') = listed_once q m o h u in
    rw e (refresh_with_orphan q.cmd_class_identity rows m' i h' n)
