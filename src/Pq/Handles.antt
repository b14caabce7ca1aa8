-- ===== src/Pq/Handles.antt =====
-- The owners of libpq's objects, `PG::conn`, `PG::result` and `PG::notify` of
-- pg_cmdqd/pq-raii/libpq-raii.hpp: which variable holds which object, and which objects have been
-- given back to libpq. An object is the number of its allocation.
pub mod Owned
use pg_cmd_queue.Base.{ℕ, zero, suc, Option, none, some, List, [], ◌∷◌, ◌++◌, get_or}

-- The raw pointer of each variable of one class, null for one that has been moved from, finished or
-- deleted; and the objects that `PQclear`, `PQfinish` or `PQfreemem` was called for, in order.
pub record Handles : Type 0 where
  pub holders : List (Option ℕ)
  pub freed : List ℕ

abbrev pub set {ℓ} : {A : Type ℓ} → List A → ℕ → A → List A
set [] i v = []
set (x ∷ xs) zero v = v ∷ xs
set (x ∷ xs) (suc i) v = x ∷ set xs i v

abbrev pub get : Handles → ℕ → Option ℕ
get h i = get_or h.holders i none

-- The constructor from a raw pointer.
unfoldable pub new_handle : Option ℕ → Handles → Handles
new_handle raw h = record h { holders = h.holders ++ raw ∷ [] }

-- `result(result &&other)`.
unfoldable pub move_handle : ℕ → Handles → Handles
move_handle other h = record h { holders = set h.holders other none ++ get h other ∷ [] }

-- `operator=(result &&other)`: nothing is done about what `this` holds.
unfoldable pub assign_handle : ℕ → ℕ → Handles → Handles
assign_handle this other h = record h {
  holders = set (set h.holders this (get h other)) other none;
}

abbrev pub freed_with : Option ℕ → List ℕ → List ℕ
freed_with none freed = freed
freed_with (some raw) freed = freed ++ raw ∷ []

-- The destructors: nothing for a null pointer.
unfoldable pub delete_handle : ℕ → Handles → Handles
delete_handle this h = record {
  holders = set h.holders this none;
  freed = freed_with (get h this) h.freed;
}

-- `conn::finish`: `PQfinish` does nothing with a null pointer.
unfoldable pub finish : ℕ → Handles → Handles
finish this h = record {
  holders = set h.holders this none;
  freed = freed_with (get h this) h.freed;
}
