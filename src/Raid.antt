-- ===== src/Raid.antt =====
-- our-course/labs/lab06-io-storage/solutions/raidsim.c: the RAID engine of levels 0, 1, 4 and 5.
-- `State`, `Geometry` and `Access` are the program; the other modules prove what it does.
pub mod State
pub mod Geometry
pub mod Access
pub mod Script
mod Xor
pub mod Placement
pub mod Columns
pub mod Reads
pub mod Writes
pub mod Store
pub mod Recovery
pub mod Mirrors
pub mod MirrorRebuild
pub mod Degraded
pub mod Setup
mod Tests
