-- ===== src/Lib.antt =====
-- pg_cmd_queue: the daemon `pg_cmdqd` takes commands from queue tables in PostgreSQL, runs each as a
-- process (`nix_queue_cmd`) or as SQL (`sql_queue_cmd`), and writes the outcome back. This library
-- models the daemon's C++ code, in pg_cmdqd/ of the repository, and proves what its parts do.
--
-- The parts. `main` (pg_cmdqd/pg_cmd_queue_daemon.cpp) reads its options and makes a
-- `CmdQueueRunnerManager`, which lists the queues, and starts and stops a `CmdQueueRunner` thread for
-- each. A runner waits for a notification or for the time to look again, selects a command, has
-- `NixQueueCmd::run_cmd` or `SqlQueueCmd::run_cmd` run it, and updates its row. All of them use the
-- text conversions of pg_cmdqd/pq-raii/libpq-raii.hpp and the logger.
--
-- The files, and how they stand for the code:
--   Base         names of the libraries, tests on numbers, measured lists, and `Result`, whose
--                faults are the exceptions and failed assertions that the code can end in.
--   Text         pg_cmdqd/pq-raii/libpq-raii.hpp: Text/Quote has `double_quote`, `as_text_array`,
--                `as_text_composite_value` and `as_text_hstore`; Text/Array and Text/Composite the
--                loops of `from_text_array` and `from_text_composite_value`, a step of a record of
--                the local variables for each byte; Text/Hstore the loop of `from_text_hstore`
--                likewise. A string is a list of bytes.
--   Pq           pg_cmdqd/pq-raii/libpq-raii.hpp: Pq/Rows is the reading of a row by the names of its
--                columns, Pq/Names the columns' names, Pq/Errors the fields of an error, Pq/Exec the
--                arguments of `execParams` and `execPrepared`, Pq/Handles the owners of connections
--                and results, and Pq/Tuples the iterator over rows. Pq/Load is the form of the
--                constructors that load a row within a `try`, member after member.
--   Sys          Sys/Environ is `environ_to_unordered_map` of pg_cmdqd/utils.cpp, Sys/PipeFds the
--                owners of descriptors, pg_cmdqd/pipefds.cpp and fdguard.cpp.
--   Logger       pg_cmdqd/logger.h and logger.cpp: the levels, their names and the threshold;
--                Logger/Writer is the queue of lines and the thread that writes them.
--   Nix          pg_cmdqd/nixqueuecmd.h, nixqueuecmd.cpp and queuecmdmetadata.h: Nix/Command is the
--                data, Nix/Flush `flush_stderr`, Nix/Io the `write()` and `read()` loops, Nix/Poll
--                the `poll()` loop and Nix/Run `run_cmd` round it, in the parent process; Nix/Child is
--                `run_cmd` in the forked child, Nix/Row the constructors that load a row, and
--                Nix/UpdateText the text of the `UPDATE`; Nix/CmdLine is the command as it is logged.
--   Sql          pg_cmdqd/sqlqueuecmd.h and sqlqueuecmd.cpp: `run_cmd`, a step for each of its
--                blocks, over a server that is a function of the statements sent; the constructor that
--                loads a row; and the parameters of the `UPDATE`.
--   Runner       pg_cmdqd/cmdqueuerunner.h: Runner/Select is a round of the loop of `_run` that selects
--                a command, Runner/Wait the loop in it that waits, Runner/Run the whole of `_run`
--                round both, with its connections, Runner/Command what is done with the selected row,
--                by an interface for what the template needs of a command, and Runner/Kill `kill`.
--   Daemon       Daemon/Options is `main`'s reading of the environment and the arguments,
--                Daemon/Signals pg_cmdqd/sigstate.cpp, Daemon/Connection
--                pg_cmdqd/pq_cmdqd_utils.cpp, Daemon/Queue the constructor of pg_cmdqd/cmdqueue.cpp,
--                and Daemon/Manager, Daemon/Listen and Daemon/ClassNames are
--                pg_cmdqd/cmdqueuerunnermanager.cpp, with what `main` calls of it; Daemon/Main is the
--                whole of `main`.
--   Tools        Tools/WithCmdqd is pg_cmdqd/with_cmdqd.cpp, Tools/QueueCmdArgs and
--                Tools/QueueCmdMain pg_cmdqd/pg_nix_queue_cmd.cpp, and Tools/NixTestCmd
--                pg_cmdqd/nixtestcmd.cpp.
--   Tests        the theorems at concrete inputs.
--
-- State is a record that is passed along; a handler gives the next state, or says that the loop is
-- left. What the kernel, libpq, the clock and the server answer is input: a list with an entry for
-- each round of a loop (`Round`, `Attempt`, `Session`, `Turn`, `ListenTurn`, `SelectTry`), or a
-- function. A loop over such a list gives `out_of_fuel` when the list ends before the loop does; that
-- is a loop that is still running, and the theorems on termination say which answers end it. The
-- readers of text count rounds down from a number that grows with the input's length, one more than
-- there are bytes, since each round goes on by a byte at least. The loop that writes the rest of the
-- log counts down from more than the number of lines. Times are in microseconds.
--
-- Not modelled: threads as such, beyond steps that follow each other; the text of log messages and
-- the format strings of the C library, which are functions where a result depends on them; the
-- wrappers of libpq that only pass a call on, and those that nothing calls; the text of the usage and
-- of the prepared SQL statements; the signal masks and the installation of the handlers; the number
-- parsers of C++ but `std::stoi`; and the SQL extension in sql/. Between the daemon's main thread and
-- its runners only the answers stand: which threads have set `_running` is told at certain turns of the
-- main loop and at its end, whether a runner's thread returns is a function in Daemon/Main, the pipe
-- of a runner has room when the manager writes to it (Runner/Kill has a pipe that has none), and what
-- a thread does with the bytes in its pipe is in Runner. What `pipe` and `close` fail with is an input
-- of `run_cmd`. In Tools/NixTestCmd the calls on `std::cout` are recorded, whether they print or
-- not.
pub mod Base
pub mod Text
pub mod Pq
pub mod Sys
pub mod Logger
pub mod Nix
pub mod Sql
pub mod Runner
pub mod Daemon
pub mod Tools
mod Tests
