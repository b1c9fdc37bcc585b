-- ===== src/Lib.antt =====
-- Verification of the reference solutions of the operating systems labs.
--
-- Each lab is a program of its own; the programs share no state. Modelled are:
--
-- Raid is our-course/labs/lab06-io-storage/solutions/raidsim.c, the RAID engine. The static variables
--   are the record `Array` of Raid/State.antt, which a function that changes them takes and returns;
--   `phys_read` and `phys_write` are the only access to the disks and count it. Raid/Geometry.antt has
--   `data_disks`, `parity_disk_of` and `map_data`, Raid/Access.antt has `reconstruct`,
--   `parity_recompute`, `logical_read`, `logical_write` and `rebuild`, Raid/Script.antt has `do_init`,
--   `checksum` and the commands of `run_script` once a line is split; what a command prints is a value.
--   Every loop of the program is counted and is a recursion on its bound. The other modules prove.
-- Pcbuffer is our-course/labs/lab05-concurrency/part3-pcbuffer/solutions/pcbuffer.c, the bounded
--   buffer. `advance` is the next step of a thread in `pcb_put` or `pcb_get`, `Step` any step of any
--   of `n` threads, `Reach` the states that the threads can get to. Signals, signals that nobody
--   hears and spurious wake-ups are steps. Pcbuffer/Fifo.antt is about the ring of slots,
--   Pcbuffer/Invariant.antt about the threads, Pcbuffer/Promises.antt puts them together.
-- Toolkit is our-course/labs/lab05-concurrency/part4-toolkit/solutions/toolkit.c, in the same way: the
--   semaphore as a mutex and a condition variable (Toolkit/Semaphore.antt), and on it the barrier
--   (Toolkit/Barrier.antt), the rendezvous (Toolkit/Rendezvous.antt), the reader-writer lock
--   (Toolkit/Rwlock.antt) and the dining philosophers (Toolkit/Phils.antt). In these four a semaphore is
--   its value: a wait is one step, which zero blocks, and a post is one step.
-- Locks is our-course/labs/lab05-concurrency/part2-locks/solutions/mylock.c, the spinlock
--   (Locks/Spinlock.antt), the ticket lock (Locks/Ticketlock.antt) and the lock that sleeps on a futex
--   (Locks/Sleeplock.antt) in the same way, each atomic access a step; accesses are sequentially
--   consistent.
-- Msg is our-course/labs/lab10-distributed/solutions/msg.c, message buffers: all operations in
--   Msg.antt, what a writer may touch in Msg/Bounds.antt, reading back in Msg/RoundTrip.antt, whole
--   messages and foreign ones in Msg/Messages.antt.
-- Disksim is our-course/labs/lab06-io-storage/solutions/disksim.c, the simulator of disk scheduling.
--   Disksim/State.antt has the requests and `load_stream`, Disksim/Schedule.antt the four policies,
--   Disksim/Serve.antt `serve` and `do_run` once its arguments are read, Disksim/Generate.antt `do_gen`.
--   `qsort` of the C library is a parameter, of which its documentation is relied on (`IsQsort` in
--   Disksim/Qsort.antt); a line of a stream stands as `sscanf` reads it. The other modules prove.
-- Malloc is our-course/labs/lab03-allocator/solutions/mymalloc.c, the allocator. Malloc/State.antt has
--   the static variables (`Heap`), the memory as a map from addresses to 64-bit words, the headers in it
--   and `arena_init`; Malloc/Alloc.antt has `find_block` and `mymalloc`, Malloc/Free.antt `myfree`,
--   Malloc/Check.antt `mym_get_stats` and `mym_check_heap`. The environment, the page size and the
--   mappings are the parameter `Env`. The walks that the program does not bound recur on fuel, the
--   length of the arena: every block takes 32 bytes of it. Malloc/Tiles.antt says what a well-formed
--   heap is, the other modules prove.
-- Reliable is our-course/labs/lab10-distributed/solutions/reliable.c, delivery over a lossy network, with
--   the message buffers of Msg. Reliable/Packet.antt has `pack` and the reading of a packet's head,
--   Reliable/Server.antt a round of the loop in `server`, Reliable/Client.antt `client` and
--   `send_reliably` as the steps between two calls of `net_recv`. In Reliable/System.antt one client and
--   the server take steps on a network that keeps every packet ever sent: it may lose, repeat and
--   reorder, and a time-out may come at any time. What `snprintf` writes for a message and what an
--   array holds before it is written are parameters. The other modules prove.
-- Rpc is our-course/labs/lab10-distributed/solutions/rpc.c, the server of remote procedure calls. Rpc.antt
--   has the cache of replies and a round of `rpc_server_run` for any packet that arrives; the handler is
--   a parameter on a state of its own. The other modules prove.
-- Uthread is our-course/labs/lab05-concurrency/part1-uthread/solutions/uthread.c, threads of one process.
--   Uthread/State.antt has the table, the ready queue and the functions that a thread calls,
--   Uthread/Scheduler.antt the loop of `uthread_run`. The switch of stacks is assembly: what a thread
--   does from one switch to the next is a parameter, the `uthread_create` calls it makes and whether it
--   then yields or exits. The other modules prove.
-- Base has operators, Boolean tests, updated maps, the group of bitwise exclusive or, what holds of each
--   element of a list and of every two, and tallies of threads at a point of their program.
--
-- Numbers: indices, counts and sizes are natural numbers. The buffer's and the array's sizes are far
-- below the limits of `int`, and the checksum's 64-bit wrap-around is written out. An array has one
-- disk at least and a chunk that divides its rows, which `do_init` tests; the buffer's capacity is one
-- at least, which `pcb_init` asserts; a table has two philosophers at least, which `phil_init` asserts;
-- a barrier has one thread at least, which `mbarrier_init` asserts.
-- Sizes of messages and of blocks of the allocator wrap round at 2 ^ 64, and no object in memory, an
-- arena among them, is longer than half of that. Addresses, cylinders and times of the disk simulator
-- are not negative and far below the limits of `long`. A client sends fewer than 2 ^ 32 messages, and
-- the numbers of user threads stay below the limits of `int`.
--
-- Not modelled: parsing and printing of script lines, the demonstration of buffered I/O, and the
-- other labs (shell, kernel overlays, file system checker, web server, RPC clients and the file
-- server, containers); the kernel under our-course/labs/xv6-riscv is another project's.
-- Destruction of mutexes, condition variables and semaphores only gives memory back. Mutexes and
-- condition variables are those of POSIX: a mutex has one holder, a wait gives it back and sleeps in
-- one step, a wake-up may come without a signal.
pub mod Base
pub mod Raid
pub mod Locks
pub mod Disksim
pub mod Malloc
pub mod Msg
pub mod Pcbuffer
pub mod Reliable
pub mod Toolkit
pub mod Rpc
pub mod Uthread
