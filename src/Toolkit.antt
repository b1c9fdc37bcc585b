-- ===== src/Toolkit.antt =====
-- our-course/labs/lab05-concurrency/part4-toolkit/solutions/toolkit.c: the synchronisation toolkit.
pub mod Semaphore
pub mod Rwlock
pub mod Phils
pub mod Rendezvous
pub mod Barrier
mod Tests
mod GateTests
