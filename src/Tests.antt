-- ===== src/Tests.antt =====
-- The theorems at concrete inputs, for the parts of pg_cmdqd.
mod Text
mod Nix
mod Loops
mod Daemon
mod Tools
mod Rows
mod Runs
mod Listen
mod Main
mod Updates
mod Owners
mod Kills
mod Queues
