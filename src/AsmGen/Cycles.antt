-- ===== src/AsmGen/Cycles.antt =====
-- The timers of AsmGen/DataFiles/CommonFunctions.c with USE_CYCLE_TIMING.
use u_arch_test.Prelude.{ℕ, ◌+◌, ◌*◌, ◌/◌, ◌%◌, ◌^◌, ◌<◌, ◌≡◌, u64, sub64, arith}

-- What the instruction that reads the counter leaves: rdcycle and PMCCNTR_EL0 one register of 64 bits,
-- rdtsc two of 32.
pub data Ticks : Type 0 where
  riscv : (cycles : ℕ) → Ticks
  aarch64 : (cycles : ℕ) → Ticks
  x86_64 : (lo hi : ℕ) → Ticks

-- On x86 `((uint64_t)hi << 32) | lo`, where no bit is set in both operands.
pub read_cycles : Ticks → ℕ
read_cycles (riscv cycles) = cycles
read_cycles (aarch64 cycles) = cycles
read_cycles (x86_64 lo hi) = u64 (hi * 2 ^ 32) + lo

-- CALC_TIME_DIFF
pub cycle_diff : (start end : Ticks) → ℕ
cycle_diff start end = sub64 (read_cycles end) (read_cycles start)

-- The registers of each processor that hold a count.
abbrev pub Holds : Ticks → ℕ → Type 0
Holds (riscv cycles) t = cycles ≡ t
Holds (aarch64 cycles) t = cycles ≡ t
Holds (x86_64 lo hi) t = (lo ≡ t % 2 ^ 32) × (hi ≡ t / 2 ^ 32)

read_cycles_lem : (ticks : Ticks) (t : ℕ) → t < 2 ^ 64 → Holds ticks t → read_cycles ticks ≡ t
unfolding read_cycles
read_cycles_lem (riscv cycles) t small h = h
read_cycles_lem (aarch64 cycles) t small h = h
read_cycles_lem (x86_64 lo hi) t small h = omega arith

-- On each of the three processors the difference of two readings is the number of cycles between
-- them, for fewer than 2 ^ 64, also where the counter wraps.
pub cycle_diff_lem :
    (start end : Ticks) (t d : ℕ)
    → t < 2 ^ 64
    → d < 2 ^ 64
    → Holds start t
    → Holds end (u64 (t + d))
    → cycle_diff start end ≡ d
unfolding cycle_diff
cycle_diff_lem start end t d ht hd h h' =
    rw (read_cycles_lem start t ht h, read_cycles_lem end (u64 (t + d)) (omega arith) h')
      (omega arith)
