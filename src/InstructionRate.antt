-- ===== src/InstructionRate.antt =====
-- InstructionRate/x86instructionrate.c and InstructionRate/arminstructionrate.c
pub mod Measure
pub mod Typing
pub mod X86
pub mod Arm
