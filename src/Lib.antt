-- ===== src/Lib.antt =====
-- Verification of uArchTest, a collection of C microbenchmarks. What a benchmark prints is only
-- worth something if its access pattern, its hand-over protocol, its iteration counts and its
-- arithmetic do what they are meant to do; this is what is modelled here.
--
-- The program's parts, and the files that model them (paths are from the repository's root):
--
-- MemoryLatency/MemoryLatency.c measures the latency of dependent loads.
--   MemoryLatency.Machine: what it takes from outside: rand(), malloc, clock_gettime, doubles.
--   MemoryLatency.Pattern: FillPatternArr and FillPatternArr64, as the two loops that RunTlbTest has
--   a third copy of.
--   MemoryLatency.Chase: the timed pointer chase that RunTest and RunTlbTest share, and
--   scale_iterations.
--   MemoryLatency.Run: RunTest. MemoryLatency.Tlb: RunTlbTest, which ends with a call of RunTest.
--   MemoryLatency.Mlp: RunMlpTest.
--   MemoryLatency.Asm: RunAsmTest, with the two assembly functions as parameters.
--   MemoryLatency.Stlf: RunStlfTest, with the assembly function as a parameter.
--   MemoryLatency.Options: the option loop of main. MemoryLatency.Plan: the memory that main maps
--   and the tests that it runs.
--   MemoryLatency.Main: the whole of main, from the command line to the numbers that are printed.
-- CoherencyLatency/PThreadsCoherencyLatency.c measures how fast two threads hand over a cache line.
--   CoherencyLatency: LatencyTestThread as a transition of the shared word and the thread's counter,
--   RunTest's initial state, and TimeThreads. A schedule is the list of the turns of the threads.
--   CoherencyLatency.Token: what it promises, a token that two threads pass to each other.
--   CoherencyLatency.Options: the option loop of main. CoherencyLatency.Main: RunTest and the
--   whole of main, with the words of the block that posix_memalign gives.
-- MemoryBandwidth/MemoryBandwidth.c measures the bandwidth of one or more threads.
--   MemoryBandwidth.Iterations: GetIterationCount and the global that it changes.
--   MemoryBandwidth.Scalar: scalar_read. MemoryBandwidth.Measure: MeasureBw.
--   MemoryBandwidth.Threads: the arrays of MeasureBw, and ReadBandwidthTestThread.
--   MemoryBandwidth.Options: the option loop of main on x86, and the choice of the kernel.
--   MemoryBandwidth.Sweep: the loops of main over sizes and threads. MemoryBandwidth.Main: all of main.
--   MemoryBandwidth.Instructions: MeasureInstructionBw, with the bytes of the function that it writes.
--   MemoryBandwidth.Instructions.Decode: an independent reading of those bytes on x86.
--   MemoryBandwidth.Banks: TestBankConflicts.
-- InstructionRate/x86instructionrate.c and arminstructionrate.c measure rates of instructions.
--   InstructionRate.Measure: measureFunction, the wrappers, and the lines that are printed.
--   InstructionRate.X86: main on x86, as blocks of tests, each under a test of the processor's
--   extensions; its children hold the tables of tests, one entry for each test of main.
--   InstructionRate.Typing: the types that the two headers declare for the assembly functions, the
--   wrappers and the arrays.
--   InstructionRate.Arm: main on ARM, which runs its whole table.
-- CoreClockChecker/CoreClockChecker.c measures clocks and energy by model specific registers.
--   CoreClockChecker: the open files, the registers behind them, setBoost and getTotalCoreEnergy.
--   CoreClockChecker.Power: detectCpuMaker, and main's modes that measure each core.
--   CoreClockChecker.Main: measurecmd, and the whole of main.
-- CoreClockChecker/BoostClockChecker.c samples the clock of one core.
--   BoostClockChecker: the option loop, the samples and the table that is printed.
-- AsmGen/DataFiles holds the C code of the programs that AsmGen generates.
--   AsmGen.BranchHist: runBranchHistTest. AsmGen.Indirect: runIndirectBranchTest.
--   AsmGen.Tables: the two test blocks, and printResultFloatArr. AsmGen.Cycles: read_cycles.
-- tools/riscv_cycle_probe.c, riscv_cycle_time_probe.c and riscv_counter_probe.c read counters around a
-- loop.
--   Probes: all three programs.
-- Timing: the differences of clock readings that all of them compute.
-- Prelude: shared helpers.
--
-- Memory is a list of slots, and `none` (in scalar_read `fault`) stands for an access out of bounds,
-- a division by zero or a signed counter that overflows, where C promises nothing. Machine words are
-- native numbers with the wrap-around written out (`u32`, `u64`). Calls of rand(), malloc and the
-- clock take their results from functions of the number of the call, so that a statement holds for
-- every behaviour of them. Floating point is a record of operations, Timing.Floats.
--
-- An option loop recurses on the arguments that are left; atoi is a parameter.
--
-- Loops of a known number of rounds recurse on the rounds that are left. scalar_read's loop, which
-- need not end, runs on fuel, one unit for a round and one for the last test; so does the loop of
-- runBranchHistTest, with historyLen + 1 units.
--
-- Not modelled: the assembly kernels, the code that AsmGen generates, the text
-- around the numbers that are printed, setting affinities, and
-- the order in which other threads of the machine run.
pub mod Prelude
pub mod Timing
pub mod Probes
pub mod MemoryLatency
pub mod CoherencyLatency
pub mod MemoryBandwidth
pub mod CoreClockChecker
pub mod InstructionRate
pub mod BoostClockChecker
pub mod AsmGen
