-- ===== src/AsmGen.antt =====
-- AsmGen/DataFiles: the C code that AsmGen puts into the programs that it generates.
pub mod BranchHist
pub mod Indirect
pub mod Tables
pub mod Cycles
