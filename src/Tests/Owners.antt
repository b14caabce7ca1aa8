-- ===== src/Tests/Owners.antt =====
-- The theorems on the owners of libpq's objects and the columns of a result at concrete inputs.
use pg_cmd_queue.Base.{◌≤◌, ◌≡◌, refl, some, [], ◌∷◌}
use pg_cmd_queue.Pq.Handles.{Handles, assign_handle}
use pg_cmd_queue.Pq.Handles.Owned.{
  makes, moves, deletes, known, handle_steps, known-handle_steps, known-assigned_over,
}

abbrev no_handles : Handles
no_handles = record { holders = []; freed = [] }

-- The result 7 is made, moved, and its last owner deleted; the first variable deletes nothing.
known-handle_steps_example :
    known 7 (handle_steps (makes (some 7) ∷ moves 0 ∷ deletes 0 ∷ deletes 1 ∷ []) no_handles) ≤ 1
known-handle_steps_example =
    known-handle_steps 7 (makes (some 7) ∷ moves 0 ∷ deletes 0 ∷ deletes 1 ∷ []) no_handles

-- A variable holds the result 7, as `refresh_queue_list` does when a `SELECT` has failed.
abbrev two_results : Handles
two_results = record { holders = some 7 ∷ some 8 ∷ []; freed = [] }

known-assigned_over_example :
    known 7 (handle_steps (deletes 0 ∷ deletes 1 ∷ []) (assign_handle 0 1 two_results)) ≡ 0
known-assigned_over_example =
    known-assigned_over 7 0 1 (deletes 0 ∷ deletes 1 ∷ []) two_results refl refl refl
