-- ===== src/Reliable.antt =====
-- our-course/labs/lab10-distributed/solutions/reliable.c: reliable delivery over a lossy network.
-- `Packet`, `Server`, `Client` and `System` are the program; the other modules prove what it does.
pub mod Packet
pub mod Server
pub mod Client
pub mod System
pub mod Format
pub mod Answers
pub mod Serving
pub mod Invariant
pub mod Promises
pub mod Budget
mod Tests
