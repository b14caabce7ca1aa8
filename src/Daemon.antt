-- ===== src/Daemon.antt =====
-- The daemon's main thread: its options, received signals, the connection, the queues and the
-- runner manager.
pub mod Options
pub mod Signals
pub mod Connection
pub mod ClassNames
pub mod Queue
pub mod Manager
pub mod Listen
pub mod Main
