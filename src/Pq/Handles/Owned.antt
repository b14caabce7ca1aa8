-- ===== src/Pq/Handles/Owned.antt =====
-- Each object of libpq (pg_cmdqd/pq-raii/libpq-raii.hpp) has one owner at most, and is given back
-- once at most; what the assignment of a result loses.
use pg_cmd_queue.Base.{
  ℕ, zero, suc, ◌+◌, ◌≤◌, ◌≡◌, ap, ◌∙◌, Option, none, some, List, [], ◌∷◌, ◌++◌, ◌==◌, get_or,
  if◌then◌else◌, arith,
}
use pg_cmd_queue.Pq.Handles.{
  Handles, set, get, new_handle, move_handle, assign_handle, freed_with, delete_handle, finish,
}

pub data HandleStep : Type 0 where
  makes : Option ℕ → HandleStep
  moves : ℕ → HandleStep
  assigns : ℕ → ℕ → HandleStep
  deletes finishes : ℕ → HandleStep

unfoldable pub handle_step : HandleStep → Handles → Handles
handle_step (makes raw) h = new_handle raw h
handle_step (moves other) h = move_handle other h
handle_step (assigns this other) h = assign_handle this other h
handle_step (deletes this) h = delete_handle this h
handle_step (finishes this) h = finish this h

unfoldable pub handle_steps : List HandleStep → Handles → Handles
handle_steps [] h = h
handle_steps (step ∷ steps) h = handle_steps steps (handle_step step h)

-- How often an object is held, has been given back, and is made.
abbrev pub owns : ℕ → Option ℕ → ℕ
owns p none = 0
owns p (some q) = if q == p then 1 else 0

abbrev pub held : ℕ → List (Option ℕ) → ℕ
held p [] = 0
held p (o ∷ os) = owns p o + held p os

abbrev pub count : ℕ → List ℕ → ℕ
count p [] = 0
count p (q ∷ qs) = owns p (some q) + count p qs

abbrev pub made : ℕ → List HandleStep → ℕ
made p [] = 0
made p (makes raw ∷ steps) = owns p raw + made p steps
made p (_ ∷ steps) = made p steps

abbrev pub known : ℕ → Handles → ℕ
known p h = held p h.holders + count p h.freed

held-append :
    (p : ℕ) (os : List (Option ℕ)) (o : Option ℕ) → held p (os ++ o ∷ []) ≡ held p os + owns p o
held-append p [] o = omega arith
held-append p (x ∷ os) o = omega (arith, held-append p os o)

count-freed_with :
    (p : ℕ) (o : Option ℕ) (freed : List ℕ)
    → count p (freed_with o freed) ≡ count p freed + owns p o
count-freed_with p none freed = omega arith
count-freed_with p (some q) [] = omega arith
count-freed_with p (some q) (r ∷ freed) = omega (arith, count-freed_with p (some q) freed)

held-set :
    (p : ℕ) (os : List (Option ℕ)) (i : ℕ) (o : Option ℕ)
    → held p (set os i o) + owns p (get_or os i none) ≤ held p os + owns p o
held-set p [] i o = omega arith
held-set p (x ∷ os) zero o = omega arith
held-set p (x ∷ os) (suc i) o = omega (arith, held-set p os i o)

held-set-none :
    (p : ℕ) (os : List (Option ℕ)) (i : ℕ)
    → held p (set os i none) + owns p (get_or os i none) ≡ held p os
held-set-none p [] i = omega arith
held-set-none p (x ∷ os) zero = omega arith
held-set-none p (x ∷ os) (suc i) = omega (arith, held-set-none p os i)

-- What is assigned stands at the place that it is taken from until that is cleared.
owns-set :
    (p : ℕ) (os : List (Option ℕ)) (i j : ℕ)
    → owns p (get_or os j none) ≤ owns p (get_or (set os i (get_or os j none)) j none)
owns-set p [] i j = omega arith
owns-set p (x ∷ os) zero zero = omega arith
owns-set p (x ∷ os) zero (suc j) = omega arith
owns-set p (x ∷ os) (suc i) zero = omega arith
owns-set p (x ∷ os) (suc i) (suc j) = omega (arith, owns-set p os i j)

-- The object that is assigned over is held once less.
known-assign_handle :
    (p : ℕ) (i j : ℕ) (h : Handles) → known p (assign_handle i j h) + owns p (get h i) ≤ known p h
unfolding assign_handle
known-assign_handle p i j h =
    let os = set h.holders i (get h j) in
    omega (arith, held-set p h.holders i (get h j), held-set-none p os j, owns-set p h.holders i j)

known-handle_step :
    (p : ℕ) (step : HandleStep) (h : Handles)
    → known p (handle_step step h) ≤ known p h + made p (step ∷ [])
unfolding handle_step new_handle move_handle delete_handle finish
known-handle_step p (makes raw) h = omega (arith, held-append p h.holders raw)
known-handle_step p (moves other) h =
    omega (
      arith,
      held-append p (set h.holders other none) (get h other),
      held-set-none p h.holders other,
    )
known-handle_step p (assigns this other) h = omega (arith, known-assign_handle p this other h)
known-handle_step p (deletes this) h =
    omega (arith, held-set-none p h.holders this, count-freed_with p (get h this) h.freed)
known-handle_step p (finishes this) h =
    omega (arith, held-set-none p h.holders this, count-freed_with p (get h this) h.freed)

made-cons :
    (p : ℕ) (step : HandleStep) (steps : List HandleStep)
    → made p (step ∷ steps) ≡ made p (step ∷ []) + made p steps
made-cons p (makes raw) steps = omega arith
made-cons p (moves other) steps = omega arith
made-cons p (assigns this other) steps = omega arith
made-cons p (deletes this) steps = omega arith
made-cons p (finishes this) steps = omega arith

-- However variables are made, moved, assigned, finished and deleted: the variables that hold an
-- object and the times that it has been given back are together no more than they were before and
-- the times that libpq has made it since. So what is made once has one owner at most, and is given
-- back at most once, and not while it is held.
pub known-handle_steps :
    (p : ℕ) (steps : List HandleStep) (h : Handles)
    → known p (handle_steps steps h) ≤ known p h + made p steps
unfolding handle_steps
known-handle_steps p [] h = omega arith
known-handle_steps p (step ∷ steps) h = omega (
  arith,
  known-handle_steps p steps (handle_step step h),
  known-handle_step p step h,
  made-cons p step steps,
)

-- The result that a variable holds when another is assigned to it is lost: if libpq makes it only
-- once, no variable holds it any more and it is never given back, whatever follows.
pub known-assigned_over :
    (p this other : ℕ) (steps : List HandleStep) (h : Handles)
    → known p h ≡ 1
    → get h this ≡ some p
    → made p steps ≡ 0
    → known p (handle_steps steps (assign_handle this other h)) ≡ 0
known-assigned_over p this other steps h k g m =
    let one : owns p (get h this) ≡ 1 = ap (owns p) g ∙ ground arith in
    omega (
      arith,
      known-handle_steps p steps (assign_handle this other h),
      known-assign_handle p this other h,
    )
