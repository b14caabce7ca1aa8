-- ===== src/Daemon/Queue/Columns.antt =====
-- A row of the queues that has all the columns, as the constructor of `CmdQueue`
-- (pg_cmdqd/cmdqueue.cpp) goes through them.
use pg_cmd_queue.Base.{
  ℕ, zero, suc, ◌^◌, ◌==◌, ltb, ℤ, true, false, Option, none, some, List, [], ◌∷◌, ap, ◌∙◌, Bytes,
  codes, Fault, Result, ok, err, ◌>>=◌, ◌≡◌, refl,
}
use pg_cmd_queue.Pq.Rows.{PgResult, FieldNumbers, value_at, nullable_at, is_null_at}
use pg_cmd_queue.Pq.Load.{Throws, then_Throws, if_Throws, load, threw, finished}
use pg_cmd_queue.Daemon.Queue.{
  CmdQueue, digits_from, positive, negative, signed, is_blank, stoi, load_interval, load_every_nth,
  load_timeout, load_color, queue_steps,
}

-- A field that may be null.
abbrev pub NullableColumn : PgResult → ℕ → FieldNumbers → Bytes → Option Bytes → Type 0
NullableColumn res row numbers name none = is_null_at res row numbers name ≡ ok true
NullableColumn res row numbers name (some v) =
    (is_null_at res row numbers name ≡ ok false) × (value_at res row numbers name ≡ ok v)

-- The texts of the columns.
pub record QueueTexts : Type 0 where
  pub identity : Bytes
  pub relname : Bytes
  pub signature : Bytes
  pub role : Option Bytes
  pub channel : Option Bytes
  pub interval : Bytes
  pub every_nth : Option Bytes
  pub timeout : Option Bytes
  pub color : Bytes

pub record QueueRow (res : PgResult) (row : ℕ) (numbers : FieldNumbers) (t : QueueTexts)
    : Type 0 where
  pub identity_column : value_at res row numbers (codes "cmd_class_identity") ≡ ok t.identity
  pub relname_column : value_at res row numbers (codes "cmd_class_relname") ≡ ok t.relname
  pub signature_column :
      value_at res row numbers (codes "cmd_signature_class_relname") ≡ ok t.signature
  pub role_column : nullable_at res row numbers (codes "queue_runner_role") ≡ ok t.role
  pub channel_column : nullable_at res row numbers (codes "queue_notify_channel") ≡ ok t.channel
  pub interval_column :
      value_at res row numbers (codes "queue_reselect_interval_msec") ≡ ok t.interval
  pub every_nth_column :
      NullableColumn res row numbers (codes "queue_reselect_randomized_every_nth") t.every_nth
  pub timeout_column : NullableColumn res row numbers (codes "queue_cmd_timeout_sec") t.timeout
  pub color_column : value_at res row numbers (codes "ansi_fg") ≡ ok t.color

positive-Throws : (n : Option ℕ) → Throws (positive n)
positive-Throws none = refl
positive-Throws (some n) = if_Throws (ltb n (2 ^ 31)) _ _ tt refl

negative-Throws : (n : Option ℕ) → Throws (negative n)
negative-Throws none = refl
negative-Throws (some zero) = tt
negative-Throws (some (suc n)) = if_Throws (ltb n (2 ^ 31)) _ _ tt refl

signed-Throws : (s : Bytes) → Throws (signed s)
signed-Throws [] = refl
signed-Throws (c ∷ cs) = if_Throws (c == b'-') _ _ (negative-Throws (digits_from false 0 cs)) (
    if_Throws (c == b'+') _ _ (positive-Throws (digits_from false 0 cs))
      (positive-Throws (digits_from false 0 (c ∷ cs))))

pub stoi-Throws : (s : Bytes) → Throws (stoi s)
unfolding stoi
stoi-Throws [] = refl
stoi-Throws (c ∷ cs) = if_Throws (is_blank c) _ _ (stoi-Throws cs) (signed-Throws (c ∷ cs))

module _ {Double : Type 0} (stod : Bytes → Result Double) (zero_sec : Double)
    (message : Bytes → Fault → Bytes) where
  -- The numbers among them: a null timeout is 0, and a null number of rounds is what was there.
  abbrev pub every_nth_of : Option Bytes → Option ℤ → Result (Option ℤ)
  every_nth_of none unset = ok unset
  every_nth_of (some v) unset = stoi v >>= λ n. ok (some n)

  abbrev pub timeout_of : Option Bytes → Result Double
  timeout_of none = ok zero_sec
  timeout_of (some v) = stod v

  pub every_nth_of-Throws : (o : Option Bytes) (unset : Option ℤ) → Throws (every_nth_of o unset)
  every_nth_of-Throws none unset = tt
  every_nth_of-Throws (some v) unset = then_Throws (stoi v) _ (stoi-Throws v) (λ n. tt)

  pub timeout_of-Throws :
      (o : Option Bytes) → ((s : Bytes) → Throws (stod s)) → Throws (timeout_of o)
  timeout_of-Throws none h = tt
  timeout_of-Throws (some v) h = h v

  load_every_nth-column :
      (res : PgResult) (row : ℕ) (numbers : FieldNumbers) (o : Option Bytes) (q : CmdQueue Double)
      → NullableColumn res row numbers (codes "queue_reselect_randomized_every_nth") o
      → load_every_nth stod zero_sec message res row numbers q ≡ (
          every_nth_of o q.queue_reselect_randomized_every_nth >>= λ n.
          ok (record q { queue_reselect_randomized_every_nth = n }))
  load_every_nth-column res row numbers none q h = simp h refl
  load_every_nth-column res row numbers (some v) q (h, hv) = go (stoi v) refl
    where
      go :
          (n : Result ℤ)
          → stoi v ≡ n
          → load_every_nth stod zero_sec message res row numbers q ≡ (
              every_nth_of (some v) q.queue_reselect_randomized_every_nth >>= λ n.
              ok (record q { queue_reselect_randomized_every_nth = n }))
      go (ok n) e = simp (h, hv, e) refl
      go (err f) e = simp (h, hv, e) refl

  load_timeout-column :
      (res : PgResult) (row : ℕ) (numbers : FieldNumbers) (o : Option Bytes) (q : CmdQueue Double)
      → NullableColumn res row numbers (codes "queue_cmd_timeout_sec") o
      → load_timeout stod zero_sec message res row numbers q
        ≡ (timeout_of o >>= λ d. ok (record q { queue_cmd_timeout_sec = d }))
  load_timeout-column res row numbers none q h = simp h refl
  load_timeout-column res row numbers (some v) q (h, hv) = simp (h, hv) refl

  load-ok :
      {A : Type 0} (step : A → Result A) (steps : List (A → Result A)) (a : A) {b : A}
      → step a ≡ ok b
      → load (step ∷ steps) a ≡ load steps b
  unfolding load
  load-ok step steps a h = rw h refl

  load-err :
      {A : Type 0} (step : A → Result A) (steps : List (A → Result A)) (a : A) {e : Fault}
      → step a ≡ err e
      → load (step ∷ steps) a ≡ threw e a
  unfolding load
  load-err step steps a h = rw h refl

  load-nil : {A : Type 0} (a : A) → load [] a ≡ finished a
  unfolding load
  load-nil a = refl

  -- The members in front of the numbers.
  abbrev pub with_texts : QueueTexts → CmdQueue Double → CmdQueue Double
  with_texts t q = record q {
    cmd_class_identity = t.identity;
    cmd_class_relname = t.relname;
    cmd_signature_class_relname = t.signature;
    queue_runner_role = t.role;
    queue_notify_channel = t.channel;
  }

  module _ (res : PgResult) (row : ℕ) (numbers : FieldNumbers) (t : QueueTexts)
      (r : QueueRow res row numbers t) where
    abbrev number_steps : List (CmdQueue Double → Result (CmdQueue Double))
    number_steps =
        load_interval stod zero_sec message res row numbers
        ∷ load_every_nth stod zero_sec message res row numbers
        ∷ load_timeout stod zero_sec message res row numbers
        ∷ load_color stod zero_sec message res row numbers
        ∷ []

    pub load-texts :
        (q : CmdQueue Double)
        → load (queue_steps stod zero_sec message res row numbers) q
          ≡ load number_steps (with_texts t q)
    load-texts q =
        load-ok _ _ _
          (ap (λ o. o >>= λ v. ok (record q { cmd_class_identity = v })) r.identity_column)
        ∙ load-ok _ _ _ (
            ap
              (λ o.
                o >>= λ v. ok (record q { cmd_class_identity = t.identity; cmd_class_relname = v }))
              r.relname_column)
        ∙ load-ok _ _ _ (
            ap
              (λ o. o >>= λ v. ok (record q {
                cmd_class_identity = t.identity;
                cmd_class_relname = t.relname;
                cmd_signature_class_relname = v;
              }))
              r.signature_column)
        ∙ load-ok _ _ _ (
            ap
              (λ o. o >>= λ v. ok (record q {
                cmd_class_identity = t.identity;
                cmd_class_relname = t.relname;
                cmd_signature_class_relname = t.signature;
                queue_runner_role = v;
              }))
              r.role_column)
        ∙ load-ok _ _ _ (
            ap
              (λ o. o >>= λ v. ok (record q {
                cmd_class_identity = t.identity;
                cmd_class_relname = t.relname;
                cmd_signature_class_relname = t.signature;
                queue_runner_role = t.role;
                queue_notify_channel = v;
              }))
              r.channel_column)

    load_interval-column :
        (q : CmdQueue Double)
        → load_interval stod zero_sec message res row numbers q
          ≡ (stoi t.interval >>= λ n. ok (record q { queue_reselect_interval_msec = n }))
    load_interval-column q = rw r.interval_column refl

    -- Behind the texts, by what the three texts of numbers give.
    pub read_from :
        (q : CmdQueue Double) (i : Result ℤ) (n : Result (Option ℤ)) (d : Result Double)
        → stoi t.interval ≡ i
        → every_nth_of t.every_nth q.queue_reselect_randomized_every_nth ≡ n
        → timeout_of t.timeout ≡ d
        → load number_steps q ≡ elim i [
          | err e ↦ threw e q
          | ok i ↦ elim n [
            | err e ↦ threw e (record q { queue_reselect_interval_msec = i })
            | ok n ↦ elim d [
              | err e ↦ threw e (record q {
                queue_reselect_interval_msec = i;
                queue_reselect_randomized_every_nth = n;
              })
              | ok d ↦ finished (record q {
                queue_reselect_interval_msec = i;
                queue_reselect_randomized_every_nth = n;
                queue_cmd_timeout_sec = d;
                ansi_fg = t.color;
              })
            ]
          ]
        ]
    read_from q (err e) n d ei en ed = load-err _ _ _ (load_interval-column q ∙ simp ei refl)
    read_from q (ok i) (err e) d ei en ed =
        let q1 = record q { queue_reselect_interval_msec = i } in
        load-ok _ _ _ {b = q1} (load_interval-column q ∙ simp ei refl)
        ∙ load-err _ _ q1
            (load_every_nth-column res row numbers t.every_nth q1 r.every_nth_column ∙ simp en refl)
    read_from q (ok i) (ok n) d ei en ed =
        let q1 = record q { queue_reselect_interval_msec = i } in
        let q2 = record q1 { queue_reselect_randomized_every_nth = n } in
        load-ok _ _ _ {b = q1} (load_interval-column q ∙ simp ei refl)
        ∙ load-ok _ _ q1 {b = q2}
            (load_every_nth-column res row numbers t.every_nth q1 r.every_nth_column ∙ simp en refl)
        ∙ go q2 d ed
      where
        go :
            (q2 : CmdQueue Double) (d : Result Double)
            → timeout_of t.timeout ≡ d
            → load
                (load_timeout stod zero_sec message res row numbers
                  ∷ load_color stod zero_sec message res row numbers
                  ∷ [])
                q2
              ≡ elim d [
                | err e ↦ threw e q2
                | ok d ↦ finished (record q2 { queue_cmd_timeout_sec = d; ansi_fg = t.color })
              ]
        go q2 (err e) ed =
            load-err _ _ q2
              (load_timeout-column res row numbers t.timeout q2 r.timeout_column ∙ simp ed refl)
        go q2 (ok d) ed =
            let q3 = record q2 { queue_cmd_timeout_sec = d } in
            load-ok _ _ q2 {b = q3}
              (load_timeout-column res row numbers t.timeout q2 r.timeout_column ∙ simp ed refl)
            ∙ load-ok _ _ q3 {b = record q3 { ansi_fg = t.color }}
                (ap (λ o. o >>= λ v. ok (record q3 { ansi_fg = v })) r.color_column)
            ∙ load-nil (record q3 { ansi_fg = t.color })
