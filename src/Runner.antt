-- ===== src/Runner.antt =====
-- `CmdQueueRunner` of pg_cmdqd/cmdqueuerunner.h: a round of the thread's loop that selects and runs
-- a command, the loop that waits for a reason to select again, and the whole thread.
pub mod Select
pub mod Wait
pub mod Notify
pub mod Run
pub mod Command
pub mod Kill
