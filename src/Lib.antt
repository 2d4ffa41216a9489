-- ===== src/Lib.antt =====
-- A verification library for SiLog, a logging system in C: programs hand log entries to a daemon, which
-- writes them to files that it rotates, and sends them to remote clients.
--
-- The parts, with the source that each file models:
--
-- - Errors, Entry: the error codes of silog_comm/include/silog_error.h, and the entry and levels of
--   silog_logger/include/silog_logger.h and interface/silog.h. A character array is the list of its bytes.
-- - PQueue: silog_comm/src/silog_pqueue.c. `push` is `SilogPQueuePush`, `sift_up` is `SiftUp`, and so on;
--   PQueue/Order has the heap order, PQueue/Sift, Push, Pop, Contents and Capacity the proofs.
-- - Mpsc: silog_comm/src/silog_mpsc.c, for calls that are not interleaved. Mpsc/Fifo is the abstract queue.
--   Mpsc/Threads has `SilogMpscQueuePush` and `SilogMpscQueuePop` as accesses of threads that interleave.
-- - Remote/Wire: `SilogRemoteSerializeEntry` and `SilogRemoteDeserializeEntry` of
--   silog_comm/src/silog_remote.c.
-- - Remote/Server: the server in the same file: the table of clients, its start and end, the accepting
--   of a client, and the broadcast. Remote/Server/Fate specifies a broadcast slot by slot.
-- - Remote/Client: the client in the same file: the connection and the frame that it is receiving.
-- - Clean: `SilogFileManagerCleanOldFiles` of silog_dae/src/silog_file_manager.c, on the queue of PQueue.
-- - File: the rest of that file: the log file, its rotation, its settings and its compression thread, whose tasks go
--   through the queue of Mpsc. File/Config/Join says when the end joins a thread that is there.
-- - Ipc: silog_comm/src/silog_ipc.c: the local datagram socket. Ipc/Descriptors follows the descriptors over
--   sequences of calls, Ipc/Send the datagrams.
-- - Time: silog_comm/src/silog_time.c on Linux, and the level names of silog_comm/src/silog_utils.c.
-- - Logger: silog_logger/src/silog_logger.c: what a log call puts into the queue, and the sending thread's rounds.
--   Logger/Build has the entry that it builds, Logger/Enqueue the queue.
-- - Daemon: silog_dae/src/silog_daemon.c. One round of each thread's loop composes Ipc, Mpsc, Time, File and
--   Remote/Server; Daemon/Line, Room, Pipeline and Written follow an entry into the file, and Daemon/Start has
--   `SilogDaemonInit` and `SilogDaemonDeinit` with the remote service.
-- - Prelog: silog_comm/src/silog_prelog.c: the messages for diagnostics; Prelog/Line has the line that is put out.
-- - Exe: silog_exe/src/silog_exe.c: the commands that start, stop, show and test the daemon, on Ipc and Daemon/Start.
--   Exe/Main has `main`, Exe/Probe, Start, Stop and Main/Run follow the probes, the signals and the descriptors.
-- - Cat: silog_cat/src/silog_cat.c: the program that shows a remote daemon's entries. Cat/Args is about its command line,
--   Cat/Print about its filter, and Cat/Loop composes it with Remote/Client: Cat/Loop/Sessions follows whole runs.
-- - Securec: silog_comm/src/silog_securec.c: memory, texts in arrays, comparison, search, tokens, formats.
-- - Base: what these share: tests on numbers, lists, memory, words and bits.
--
-- State is passed explicitly: an operation takes the record that models the C structure and answers its
-- code and the new record. A pointer that may be NULL is an Option. What the system calls and the
-- allocator answer is a parameter, an argument or a record such as `InitCalls`; descriptors closed and
-- calls on files are part of an operation's result. Words wrap as written: `add32` is addition modulo
-- 2 ^ 32. What is undefined in C is marked: `memcpy` of overlapping regions answers `none`, a push that leaves the
-- memory of a priority queue leaves `none` in its place, and `bad_join` records the join of a thread that is not there.
--
-- Loops run on fuel, which is always enough: the index for `SiftUp`, the size for `SiftDown` and for the
-- deleting of files, the number of slots for the loops over the table, the number of bytes for the
-- sending loop, the retry limits for the two loops of a rotation, the capacity for the last loop of the
-- compression thread. A compare-and-exchange loop that does not end is `none`.
--
-- Not modelled: threads and locks outside Mpsc/Threads (each operation, and each round of a thread's loop, runs
-- alone), the platform code for Windows, how the C library formats and reads numbers, and what the programs silog_exe
-- and silog_cat print beside the entries.
pub mod Base
pub mod Cat
pub mod Clean
pub mod Daemon
pub mod Entry
pub mod Errors
pub mod Exe
pub mod File
pub mod Ipc
pub mod Logger
pub mod Mpsc
pub mod PQueue
pub mod Prelog
pub mod Remote
pub mod Securec
pub mod Time
