-- ===== src/Locks.antt =====
-- our-course/labs/lab05-concurrency/part2-locks/solutions/mylock.c: the spinlock, the ticket lock and
-- the sleeping lock.
pub mod Spinlock
pub mod Ticketlock
pub mod Sleeplock
mod Tests
