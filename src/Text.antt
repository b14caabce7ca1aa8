-- ===== src/Text.antt =====
-- The type conversions of pg_cmdqd/pq-raii/libpq-raii.hpp, from and to PostgreSQL's text forms.
pub mod Quote
pub mod Scan
pub mod Array
pub mod Hstore
pub mod Composite
