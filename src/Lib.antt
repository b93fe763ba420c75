-- ===== src/Lib.antt =====
-- Verification library of the code of Learn-APUE.
--
-- The database library db/db.c keeps an index file and a data file. The index file begins with
-- the pointer of the free list and the pointers of 137 hash chains; a record of the index file
-- holds the offset of the next record of its chain, the length of its line, and a line with the
-- key, the offset and the length of its data. Db/State.antt is the record DB with the contents of
-- both files, the record locks of the process and the ways a process ends inside the library;
-- Db/Disk.antt has _db_readptr, _db_readidx, _db_readdat, _db_writedat, _db_writeidx and
-- _db_writeptr; Db/Ops.antt has _db_hash, _db_find_and_lock, _db_dodelete, _db_findfree,
-- db_fetch, db_delete, db_store, db_rewind and db_nextrec; Db/Open.antt has db_open, _db_alloc
-- and db_close. A loop over a chain takes a number of rounds, since a damaged file may hold a
-- cycle; the number asked for is more than the chain has records, one round for each and one for
-- the end.
--
-- Db/Valid.antt is the invariant: where the chains stand in the files, that no two records
-- overlap, and that a key stands once, in the chain of its hash value; `view` is the map from
-- keys to data that the chains stand for. Db/Chain, Db/Search and Db/Fetch are about searching,
-- Db/Reread about a record that is written and read back, Db/Unlink, Db/Remove and Db/Delete about deletion, Db/Insert, Db/Append, Db/Insertion,
-- Db/Reuse, Db/Overwrite, Db/Branches and Db/Store about storing, Db/Next about sequential
-- reading, and Db/Fresh about a new database. Bytes/File.antt is a file as a list of bytes with
-- an offset, Bytes/Decimal.antt printf and atol of decimal numbers. Base.antt has Boolean tests,
-- lists and integers over the native numbers. Tests.antt beside a component applies its theorems
-- to concrete states.
--
-- Tty.antt has the state machine of lib/ttymodes.c (tty_cbreak, tty_raw, tty_reset, tty_atexit)
-- over a driver that is a parameter with tcgetattr and tcsetattr; Tty/Modes.antt has its
-- theorems. Semaph.antt has the routines of lib/semaph.c over the System V calls as a parameter,
-- with rounds for the loop behind `again`; Semaph/Kernel.antt is what the routines rely on of
-- these calls, and Semaph/Users.antt has the theorems. OpenServer/Clients.antt has the table of
-- clients of ipc2/open_server/client_management.c; its search goes round twice, before and behind
-- an allocation. OpenServer/Loop.antt has the loop over the descriptors of loop.c, whose rounds
-- get what select, accept, read, open and send_fd return; OpenServer/Table.antt,
-- OpenServer/Invariant.antt, OpenServer/Serving.antt, OpenServer/Keeping.antt and
-- OpenServer/Reachable.antt are about its
-- states. OpenServer/Request.antt has buf_args, client_args and handle_request of
-- ipc2/open_server, with open as a parameter, and buf_args of lib/bufargs.c. Passing.antt has
-- send_fd, send_err and recv_fd of lib/ over messages, with sendmsg and the user function as
-- parameters, and the loops of readn and writen over the return values of the system calls.
--
-- Links has a doubly linked list with pointers to both ends over an explicit store:
-- Links/Segments.antt says which nodes a list has, Links/Ends.antt and Links/Removal.antt have
-- the four ways the programs put in and take out a node. JobQueue.antt has threads/rwlock.c with
-- that list: its jobs, the search for a job of a thread and a round of handle_job. Spooler has
-- the print daemon printer/printd.c: Spooler/Jobs.antt the list of pending jobs, with the same
-- nodes, and the job numbers; Spooler/Workers.antt the list of client threads; Spooler/Files.antt
-- the spool directory and the daemon's state; Spooler/Accept.antt client_thread, which stores a
-- document and a request and queues the job; Spooler/Ipp.antt the two headers;
-- Spooler/Printing.antt a round of printer_thread; Spooler/Response.antt readmore and
-- printer_status, over the chunks that the connection delivers; Spooler/Restart.antt init_request
-- and build_qonstart; Spooler/Client.antt the request that printer/print.c builds;
-- Spooler/Config.antt scan_configfile of printer/util.c, over the bytes of the file as fgets
-- returns them. An overrun of a header's buffer, of a file's name at the start or of the answer's
-- buffer is an outcome of its own. A descriptor that is left open counts at the start. What
-- the system calls do is an argument of the threads. An operation on a list holds its lock, so it
-- is one step. The loops over the list of workers take rounds, one for each thread and one for
-- the end. RefTable.antt has the table of objects with reference counts of threads/mutex3.c in
-- the same way; its loops take a round for each object in front.
--
-- MemStream.antt has fmemopen and the functions of a memory stream in exercises/fmemopen.c; an
-- access outside the buffer and the overflow of an int are none, which MemStream/Bounds.antt and
-- MemStream/Runs.antt exclude.
--
-- In Spooler/Response.antt the loops of printer_status take rounds, for each byte in front of the
-- length and each answer before the last one, and what it writes to the log is left out; a byte
-- that was not received has no value, so reading one is an outcome of its own. Rot13.antt is the
-- asynchronous copy of advio/rot13c2.c, translate and the loop of main, with what each look at
-- one of its eight buffers finds as an argument; aio_suspend does not fail. FileWalk.antt is
-- myftw and dopath of filedir/ftw8.c over a tree of files, with the path in one shared buffer,
-- where a write outside the buffer is none; FileWalk/Counts.antt is myfunc with its counters.
-- realloc and closedir do not fail there. Barrier.antt is the merge of threads/barrier.c, with
-- heapsort as a parameter. ThreadQueue.antt is the job queue of threads/queue.c on top of
-- JobQueue.antt, where each thread waits on a condition of its own. Popen.antt is popen and
-- pclose of lib/popen.c, with the child up to execl.
--
-- Not modelled: failures of system calls of the database library other than a short read, other
-- processes at work on the same files, and the aliasing of a caller's data with the buffers of
-- the handle. Of the print daemon, main, signal_thread, that a round of printer_thread waits for
-- printer_status, whose result is its argument; of the semaphores, what SEM_UNDO does when a process ends. The demonstration programs of the other
-- directories are left out: each is a system call and its output.
pub mod Base
pub mod Bytes
pub mod Db
pub mod Tty
pub mod Semaph
pub mod OpenServer
pub mod Passing
pub mod Links
pub mod JobQueue
pub mod Spooler
pub mod MemStream
pub mod RefTable
pub mod Rot13
pub mod FileWalk
pub mod Barrier
pub mod ThreadQueue
pub mod Popen
