-- ===== src/Lib.antt =====
-- Verification of PMF, a process management frame: one master process reads its configuration, checks
-- it, sets up shared memory, signals and listening sockets, and keeps a scoreboard for each pool of
-- workers.
--
-- The parts, and the files that model them (paths from the root of the repository):
--   pmf.c, pmf.h                                          Main, Master
--   pmf_conf.c, pmf_conf.h, pmf_worker_pool.c             Conf
--   pmf_unix.c                                            Unix
--   pmf_scoreboard.c, pmf_scoreboard.h                    Scoreboard
--   pmf_atomic.h, and the lock in pmf_scoreboard.c        Spinlock
--   pmf_shm.c                                             Shm
--   pmf_sockets.c, pmf_sockets.h                          Sockets
--   pmf_array.h                                           Array
--   pmf_events.c, events/epoll.c, events/select.c         Events
--   pmf_signals.c, and fd_set_blocked of pmf_sockets.h    Signals
--   pmf_stdio.c                                           Stdio
--   pmf_clock.c                                           Clock
--   pmf_children.c                                        Children
--   pmf_log.c, pmf_log.h                                  Log
--   the codes that the functions return                   Outcome
--   strings and numbers of the C library                  Text, Common
--
-- Tests runs them on concrete inputs.
--
-- How they interact. The state of the process is the record Master: the globals, the configuration,
-- the pools, the log, the table of sockets and what else the files keep in static variables. Main
-- is pmf_init, which runs the init functions of the parts over it in a fixed order, each tested as
-- the source tests its code (Outcome), with the answers of the system (World) as arguments;
-- Main/Kept and Main/Running are about its result. Conf/Load is pmf_conf_init_main, which finds and
-- reads the files, and Unix/Start is pmf_unix_init_main, which tells the processes that go on apart
-- by the answers of fork. pmf_conf_parse_global_ini and pmf_conf_parse_pool_ini (Conf/Parse) read
-- them through lib/iniparser, store each option with the parser that a table names (Conf/Options,
-- Conf/Values, Conf/Expand) into the structures of Conf/Records, and pmf_conf_process_all_pools
-- (Conf/Check) refuses a pool or fills in what its style needs; Conf/Dump is what is then written
-- to the log, and Conf/Pid the pid file. The sockets are kept in a table over a growing array
-- (Sockets/Table on Array), under a key that Sockets/Key prints from the address; Sockets/Binding
-- reads a pool's address and tries the addresses of its host, and Sockets/Opening opens a socket by
-- a sequence of system calls, with the owner and the mode that Unix finds; Sockets/Closing is the
-- loop that closes inherited sockets that nothing uses, and Sockets/Setup runs all this over the
-- pools. Scoreboard/Setup lays out the shared block of each pool. Events chooses the mechanism, on
-- which the check of an on-demand pool depends, and Events/Polling is the waiting of epoll and its
-- list of descriptors. pmf_scoreboard_update (Scoreboard/Update) changes counters in shared memory
-- between pmf_spinlock and pmf_unlock (Spinlock/Lock); Spinlock/System interleaves any number of
-- processes that do so. It takes the statements of an update as a parameter, each of which reads the
-- state and writes one field of it, in two steps; Spinlock/Board lists those of
-- pmf_scoreboard_update, and Spinlock/Serial is about them. Every part writes to the
-- log (Log/Level its state, Log/Line the line that vplog builds in its buffer).
--
-- How state is modelled. A struct is a record, the list of pools a list, a function that changes a
-- struct a function from the old to the new; a failing function returns the state that it leaves.
-- Messages are left out, and where a failure has several causes the model keeps the cause. A pointer
-- that must not be used (NULL, indeterminate, out of the block, of the wrong type) ends a run in
-- `fault` or `none`, so that a theorem can exclude it. An `int` is an integer that is wrapped to 32 bits
-- where the source computes; an unsigned number is a natural number with its modulus written out. What
-- malloc, realloc and strdup find, what the processes leave in the lock word, and what lib/iniparser
-- returns (the record `Ini`) are arguments.
--
-- Bounds and fuel. The loop of pmf_conf_expand_pool_name runs on fuel, one round more than the text
-- is long, since each round shortens the text; pmf_spinlock runs over the values that other
-- processes leave in the word; the loop that closes sockets has a round for each member and one
-- more. All other loops are over lists or counts. Arrays are spoken of as long as their sizes fit
-- in an `unsigned int`. A log line's time is at most 1000 bytes long, far more than strftime
-- prints.
--
-- Not modelled: lib/iniparser (a copy of another project, taken as a parameter); atomic_fetch_add and
-- the external logger, which nothing uses; pmf_process_ctl.c, which has no function; the bodies of the
-- callbacks of events and of the calls of the system, whose answers are arguments.
pub mod Common
pub mod Text
pub mod Array
pub mod Log
pub mod Outcome
pub mod Master
pub mod Stdio
pub mod Clock
pub mod Children
pub mod Signals
pub mod Main
pub mod Sockets
pub mod Conf
pub mod Scoreboard
pub mod Spinlock
pub mod Tests
pub mod Shm
pub mod Events
pub mod Unix
