-- ===== src/Sys.antt =====
-- What the daemon's parts share of the system: the environment (pg_cmdqd/utils.cpp), and the owners
-- of file descriptors (pg_cmdqd/pipefds.cpp, pg_cmdqd/fdguard.cpp).
pub mod Environ
pub mod PipeFds
