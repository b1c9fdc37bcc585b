-- ===== src/Uthread.antt =====
-- our-course/labs/lab05-concurrency/part1-uthread/solutions/uthread.c: threads of one process, and
-- their round-robin scheduler. `State` and `Scheduler` are the program; the other modules prove what
-- it does.
pub mod State
pub mod Scheduler
pub mod Chain
pub mod Queue
pub mod Slots
pub mod Create
pub mod Frame
pub mod Rounds
pub mod Fair
mod Tests
