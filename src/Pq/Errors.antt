-- ===== src/Pq/Errors.antt =====
-- `PQ::resultErrorFields` (pg_cmdqd/pq-raii/libpq-raii.hpp), and the order in which its fields are
-- sent to the server. The values of the `PG_DIAG_…` macros are a function.
use pg_cmd_queue.Base.{ℕ, ◌≡◌, refl, Option, List, [], ◌∷◌, map, Bytes, ltb, ◌==◌, if◌then◌else◌}
use pg_cmd_queue.Sql.Command.{ErrorFields}
use pg_cmd_queue.Sql.Params.{values_to_vector}

-- The fields, in the order of the initializer list, which is that of postgres_ext.h and of the
-- columns of the type `sql_errorish` (sql/pg_cmd_queue--0.1.0.sql).
pub data DiagField : Type 0 where
  severity severity_nonlocalized sqlstate message_primary message_detail message_hint : DiagField
  statement_position internal_position internal_query context schema_name table_name : DiagField
  column_name datatype_name constraint_name source_file source_line source_function : DiagField

abbrev pub diag_fields : List DiagField
diag_fields =
    severity ∷ severity_nonlocalized ∷ sqlstate ∷ message_primary ∷ message_detail ∷ message_hint
    ∷ statement_position ∷ internal_position ∷ internal_query ∷ context ∷ schema_name ∷ table_name
    ∷ column_name ∷ datatype_name ∷ constraint_name ∷ source_file ∷ source_line ∷ source_function
    ∷ []

-- `insert` into a `std::map`, whose keys ascend: a key that is there is left alone.
abbrev pub insert_field : ℕ → Option Bytes → ErrorFields → ErrorFields
insert_field key value [] = (key, value) ∷ []
insert_field key value ((k, v) ∷ m) =
    let later = insert_field key value m in
    if ltb key k then (key, value) ∷ (k, v) ∷ m else if key == k then (k, v) ∷ m else (k, v) ∷ later

module _ (pg_diag : DiagField → ℕ) (error_field : ℕ → Option Bytes) where
  -- The map of an initializer list; `PQ::from_text` of `PQresultErrorField` is a text or none.
  abbrev pub fields_of : List DiagField → ErrorFields → ErrorFields
  fields_of [] m = m
  fields_of (f ∷ fields) m = fields_of fields (insert_field (pg_diag f) (error_field (pg_diag f)) m)

  unfoldable pub result_error_fields : ErrorFields
  result_error_fields = fields_of diag_fields []

-- The values that the documentation of libpq's protocol gives for the macros.
abbrev pub documented : DiagField → ℕ
documented severity = b'S'
documented severity_nonlocalized = b'V'
documented sqlstate = b'C'
documented message_primary = b'M'
documented message_detail = b'D'
documented message_hint = b'H'
documented statement_position = b'P'
documented internal_position = b'p'
documented internal_query = b'q'
documented context = b'W'
documented schema_name = b's'
documented table_name = b't'
documented column_name = b'c'
documented datatype_name = b'd'
documented constraint_name = b'n'
documented source_file = b'F'
documented source_line = b'L'
documented source_function = b'R'

-- The fields in the order of those values.
abbrev pub by_value : List DiagField
by_value =
    sqlstate ∷ message_detail ∷ source_file ∷ message_hint ∷ source_line ∷ message_primary
    ∷ statement_position ∷ source_function ∷ severity ∷ severity_nonlocalized ∷ context
    ∷ column_name ∷ datatype_name ∷ constraint_name ∷ internal_position ∷ internal_query
    ∷ schema_name ∷ table_name ∷ []

-- With the documented values of the macros, the fields of an error are sent in the order of those
-- values, the `SQLSTATE` first, and not in the order of the columns that they are for.
pub result_error_fields-by_value :
    (pg_diag : DiagField → ℕ) (error_field : ℕ → Option Bytes)
    → ((f : DiagField) → pg_diag f ≡ documented f)
    → values_to_vector (result_error_fields pg_diag error_field)
      ≡ map (λ f. error_field (pg_diag f)) by_value
unfolding values_to_vector result_error_fields
result_error_fields-by_value pg_diag error_field h = simp h refl
