-- ===== src/Parallel.antt =====
-- c9y/parallel.h: the parallel algorithms over chunks of a range.
pub mod Schedule
pub mod Chunks
pub mod Std
pub mod Queries
pub mod Updates
pub mod MapReduce
pub mod Pool
pub mod Nested
mod Examples
