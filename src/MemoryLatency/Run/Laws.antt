-- ===== src/MemoryLatency/Run/Laws.antt =====
-- RunTest of MemoryLatency/MemoryLatency.c from its pattern to its report.
use u_arch_test.Prelude.{
  ℕ, ◌+◌, ◌/◌, ◌^◌, ◌≤◌, ◌<◌, ◌≡◌, refl, ap, List, Option, none, some, length, u32, arith, ◌>>=◌,
  false, ◌==◌,
}
use u_arch_test.Prelude.Int.{pos}
use u_arch_test.MemoryLatency.Machine.{Machine, Calls, IsLawful}
use u_arch_test.MemoryLatency.Pattern.Cycle.{stride}
use u_arch_test.MemoryLatency.Pattern.Fill.{IsSingleCycle, IsFilled, fill_pattern_arr-IsFilled}
use u_arch_test.MemoryLatency.Chase.{Chased, timed_chase, scale_iterations}
use u_arch_test.MemoryLatency.Chase.Laps.{visit, gathered}
use u_arch_test.MemoryLatency.Pattern.{fill_pattern_arr}
use u_arch_test.MemoryLatency.Chase.Tour.{Tours, timed_chase-Tours}
use u_arch_test.MemoryLatency.Run.{
  cacheline_size, list_size_of, run_on, run_new, no_memory, report, run_test, Report,
}

-- RunTest's work on an array with room for `size_kb` kilobytes.
pub record Measures (slot : ℕ → ℕ) (n rounds : ℕ) (Real : Type 0) (a : List ℕ)
    (r : Option (List ℕ × Chased Real)) : Type 0 where
  pub memory : List ℕ
  pub chased : Chased Real
  pub returns : r ≡ some (memory, chased)
  pub same_length : length memory ≡ length a
  pub single : IsSingleCycle slot n memory
  pub ends : chased.current ≡ slot (visit slot n memory single (rounds + 1))
  pub sums : chased.sum ≡ u32 (gathered slot n memory single rounds 1)

module _ (m : Machine) (size_kb iterations : ℕ) (some_kb : 0 < size_kb) (small : size_kb < 2 ^ 22)
    (few : u32 (scale_iterations m.floats size_kb iterations) < 2 ^ 31) where
  abbrev rounds : ℕ
  rounds = u32 (scale_iterations m.floats size_kb iterations)

  -- One element per cache line: 16 to the kilobyte.
  pub run_on-Measures :
      (a : List ℕ) (calls : Calls)
      → list_size_of size_kb ≤ length a
      → Measures
          (stride 16)
          (list_size_of size_kb / 16)
          rounds
          m.floats.Real
          a
          (run_on m size_kb iterations a calls)
  unfolding run_on
  run_on-Measures a calls room = record {
    memory = filled.out;
    chased = tour.out;
    returns = rw (filled.returns, ◌>>=◌, tour.returns) refl;
    same_length = filled.same_length;
    single = filled.single;
    ends = tour.ends;
    sums = tour.sums;
  }
    where
      filled :
          IsFilled 16
            (list_size_of size_kb / 16)
            a
            (fill_pattern_arr m.rand a (list_size_of size_kb) cacheline_size calls.drawn)
      filled =
          fill_pattern_arr-IsFilled m.rand a (list_size_of size_kb) cacheline_size calls.drawn room
            (omega arith) (omega arith) (omega arith)

      tour :
          Tours
            (stride 16)
            (list_size_of size_kb / 16)
            rounds
            m.floats.Real
            filled.out
            filled.single
            (timed_chase m filled.out rounds (record calls { drawn = filled.drawn' }))
      tour =
          timed_chase-Tours m (stride 16) (list_size_of size_kb / 16) rounds filled.out
            (record calls { drawn = filled.drawn' }) refl few filled.single

  -- A preallocated array has room for the list; without one, malloc is asked for it.
  abbrev pub Fits : Option (List ℕ) → Type 0
  Fits none = Unit
  Fits (some a) = list_size_of size_kb ≤ length a

  -- The array that the test works on: the preallocated one, or a new block.
  abbrev pub array_for : Option (List ℕ) → Calls → Option (List ℕ)
  array_for (some a) calls = some a
  array_for none calls = m.malloc calls.allocated (list_size_of size_kb)

  -- The calls that have been made when the array is there.
  abbrev pub calls_for : Option (List ℕ) → Calls → Calls
  calls_for (some a) calls = calls
  calls_for none calls = record calls { allocated = calls.allocated + 1 }

  -- What the caller finds in its array, if it has given one: what the test left in memory.
  abbrev pub left_of : Option (List ℕ) → (memory : List ℕ) → Option (List ℕ)
  left_of (some a) memory = some memory
  left_of none memory = none

  -- What is promised of a run on an array, and of one that got none.
  abbrev pub Outcome :
      (preallocated block : Option (List ℕ)) → Calls → Report (m.floats.Real) → Type 0
  Outcome preallocated none calls r =
      (r.latency ≡ m.floats.real (pos 0)) × (r.warned ≡ false) × (r.preallocated ≡ none)
  Outcome preallocated (some a) calls r =
      (memory : List ℕ) × (single : IsSingleCycle (stride 16) (list_size_of size_kb / 16) memory)
      × (length memory ≡ length a)
      × (r.preallocated ≡ left_of preallocated memory)
      × ((chased : Chased (m.floats.Real)) × (run_on m size_kb iterations a
              (calls_for preallocated calls)
            ≡ some (memory, chased))
          × (chased.current
              ≡ stride 16
                  (visit (stride 16) (list_size_of size_kb / 16) memory single (rounds + 1)))
          × (r.latency ≡ m.floats.narrow chased.latency))
      × (r.warned
          ≡ (u32 (gathered (stride 16) (list_size_of size_kb / 16) memory single rounds 1) == 0))

  run_new-Returns :
      (block : Option (List ℕ)) (calls : Calls)
      → ((a : List ℕ) → block ≡ some a → list_size_of size_kb ≤ length a)
      → (r : Report (m.floats.Real)) × (run_new m size_kb iterations block (calls_for none calls)
          ≡ some r)
        × Outcome none block calls r
  unfolding run_new no_memory report
  run_new-Returns none calls room =
      (no_memory m size_kb iterations (calls_for none calls), refl, (refl, refl, refl))
  run_new-Returns (some a) calls room =
      let run = run_on-Measures a (calls_for none calls) (room a refl) in
      (
        report m size_kb iterations none run.chased,
        rw (run.returns, ◌>>=◌) refl,
        (
          run.memory,
          run.single,
          run.same_length,
          refl,
          (run.chased, run.returns, run.ends, refl),
          ap (λ s. s == 0) run.sums,
        ),
      )

  -- RunTest, for 1 to 2 ^ 22 - 1 kilobytes and fewer than 2 ^ 31 scaled iterations, a preallocated
  -- array with room for the list and a malloc that returns the size asked for or NULL: it returns
  -- without a fault. With no memory it returns 0. Otherwise what it leaves in memory, which the
  -- caller finds in a preallocated array, is one cycle through all list_size / 16 cache lines; it
  -- returns the latency of the timed loop, which goes along just that cycle, from its first
  -- slot for one load more than the scaled iterations; and it warns exactly if the slots that these
  -- loads but the first read add up to 0 modulo 2 ^ 32.
  pub run_test-Returns :
      IsLawful m
      → (preallocated : Option (List ℕ)) (calls : Calls) → Fits preallocated
      → (r : Report (m.floats.Real)) × (run_test m size_kb iterations preallocated calls ≡ some r)
        × Outcome preallocated (array_for preallocated calls) calls r
  unfolding run_test report
  run_test-Returns lawful (some a) calls room =
      let run = run_on-Measures a calls room in
      (
        report m size_kb iterations (some run.memory) run.chased,
        rw (run.returns, ◌>>=◌) refl,
        (
          run.memory,
          run.single,
          run.same_length,
          refl,
          (run.chased, run.returns, run.ends, refl),
          ap (λ s. s == 0) run.sums,
        ),
      )
  run_test-Returns lawful none calls room =
      run_new-Returns (m.malloc calls.allocated (list_size_of size_kb)) calls
        (λ a e. omega (arith, lawful.block calls.allocated (list_size_of size_kb) a e))
