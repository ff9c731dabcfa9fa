-- ===== src/MemoryBandwidth.antt =====
-- MemoryBandwidth/MemoryBandwidth.c
pub mod Iterations
pub mod Scalar
pub mod Measure
pub mod Threads
pub mod Options
pub mod Sweep
pub mod Main
pub mod Banks
pub mod Instructions
mod Tests
