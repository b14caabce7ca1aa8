-- ===== src/Nix.antt =====
-- `NixQueueCmd` of pg_cmdqd/nixqueuecmd.h and pg_cmdqd/nixqueuecmd.cpp.
pub mod Command
pub mod Row
pub mod Flush
pub mod Io
pub mod Poll
pub mod Run
pub mod Child
pub mod UpdateText
pub mod CmdLine
