-- ===== src/Timing.antt =====
-- The differences of two clock readings that every benchmark takes: `clock_gettime` in nanoseconds
-- (MemoryLatency/MemoryLatency.c, MemoryBandwidth/MemoryBandwidth.c) and `gettimeofday` in
-- milliseconds (CoherencyLatency/PThreadsCoherencyLatency.c and others). Floating point numbers are
-- a parameter, `Floats`.
pub mod Laws
pub mod Tests
use u_arch_test.Prelude.{ℕ, ◌^◌}
use u_arch_test.Prelude.Int.{ℤ, pos, sub_ℕ, scale, quot, wrap, ◌+ℤ◌}

-- `double` with its operations; `truncate` is the conversion to uint64_t, `narrow` that to `float`.
pub record Floats : Type 1 where
  pub Real : Type 0
  pub real : ℤ → Real
  pub add : Real → Real → Real
  pub sub : Real → Real → Real
  pub mul : Real → Real → Real
  pub div : Real → Real → Real
  pub pow : Real → Real → Real
  pub fmax : Real → Real → Real
  pub truncate : Real → ℕ
  pub narrow : Real → Real

-- struct timespec and struct timeval
pub record Timespec : Type 0 where
  pub sec : ℕ
  pub nsec : ℕ

pub record Timeval : Type 0 where
  pub sec : ℕ
  pub usec : ℕ

-- `uint64_t time_diff_ns = 1e9 * (end.tv_sec - start.tv_sec) + (end.tv_nsec - start.tv_nsec)`
pub elapsed_ns : (fl : Floats) → Timespec → Timespec → ℕ
elapsed_ns fl s e = fl.truncate (
    fl.add (fl.mul (fl.real (pos 1000000000)) (fl.real (sub_ℕ e.sec s.sec)))
      (fl.real (sub_ℕ e.nsec s.nsec)))

-- `uint64_t time_diff_ms = 1000 * (end.tv_sec - start.tv_sec)
--  + ((end.tv_usec - start.tv_usec) / 1000)`
unfoldable pub elapsed_ms : Timeval → Timeval → ℕ
elapsed_ms s e = wrap 64 (scale 1000 (sub_ℕ e.sec s.sec) +ℤ quot (sub_ℕ e.usec s.usec) 1000)
