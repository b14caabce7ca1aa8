-- ===== src/Tools.antt =====
-- The helper programs beside the daemon.
pub mod WithCmdqd
pub mod QueueCmdArgs
pub mod QueueCmdMain
pub mod NixTestCmd
