-- ===== src/Sql.antt =====
-- `SqlQueueCmd` of pg_cmdqd/sqlqueuecmd.h and pg_cmdqd/sqlqueuecmd.cpp.
pub mod Command
pub mod Row
pub mod Run
pub mod Params
