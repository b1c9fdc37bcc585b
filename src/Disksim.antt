-- ===== src/Disksim.antt =====
-- our-course/labs/lab06-io-storage/solutions/disksim.c: the disk scheduling simulator. `State`,
-- `Schedule`, `Serve` and `Generate` are the program; the other modules prove what it does.
pub mod State
pub mod Schedule
pub mod Serve
pub mod Lists
pub mod Qsort
pub mod Once
pub mod Travel
pub mod Sweep
pub mod Nearest
pub mod Shortest
pub mod Costs
pub mod Run
pub mod Generate
mod Insertion
mod Tests
