-- ===== src/Malloc.antt =====
-- our-course/labs/lab03-allocator/solutions/mymalloc.c: the allocator. `State`, `Alloc`, `Free` and
-- `Check` are the program; the other modules prove what it does.
pub mod State
pub mod Alloc
pub mod Free
pub mod Check
pub mod Tiles
pub mod Policy
pub mod Find
pub mod Take
pub mod Place
pub mod Absorb
pub mod Unite
pub mod Listing
pub mod Release
pub mod RoundTrip
pub mod Valid
pub mod Filling
pub mod Audit
pub mod Walk
pub mod Stats
pub mod Settings
pub mod Setup
pub mod Faults
mod Tests
