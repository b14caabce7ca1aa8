-- ===== src/Pq.antt =====
-- What the daemon uses of libpq through pg_cmdqd/pq-raii/libpq-raii.hpp: the rows of a result,
-- the fields of an error, the arguments of its calls, and who owns its objects. The answers of libpq
-- itself are arguments.
pub mod Rows
pub mod Load
pub mod Errors
pub mod Tuples
pub mod Names
pub mod Exec
pub mod Handles
