-- ===== src/MemoryLatency.antt =====
-- MemoryLatency/MemoryLatency.c
pub mod Machine
pub mod Pattern
pub mod Chase
pub mod Run
pub mod Tlb
pub mod Mlp
pub mod Asm
pub mod Stlf
pub mod Options
pub mod Plan
pub mod Main
mod Tests
