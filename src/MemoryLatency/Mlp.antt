-- ===== src/MemoryLatency/Mlp.antt =====
-- RunMlpTest of MemoryLatency/MemoryLatency.c: several pointer chases over one pattern, in turn.
pub mod Laws
use u_arch_test.Prelude.{
  ℕ, zero, suc, ◌+◌, ◌*◌, ◌/◌, ◌^◌, ltb, ◌==◌, if◌then◌else◌, Bool, false, List, [], ◌∷◌, Option,
  none, some, get_elem?, u32, ◌>>=◌,
}
use u_arch_test.Prelude.Int.{pos}
use u_arch_test.Timing.{Floats, elapsed_ns}
use u_arch_test.MemoryLatency.Machine.{Machine, Calls}
use u_arch_test.MemoryLatency.Pattern.{fill_pattern_arr}
use u_arch_test.MemoryLatency.Chase.{scale_iterations}
use u_arch_test.MemoryLatency.Run.{cacheline_size, list_size_of}

-- `offsets[i] = i * (CACHELINE_SIZE / sizeof(int))`, from `i` on.
pub start_offsets : (left i : ℕ) → List ℕ
start_offsets zero i = []
start_offsets (suc left) i = i * 16 ∷ start_offsets left (i + 1)

-- `offsets[j] = A[offsets[j]]` for each j.
pub advance : List ℕ → (offsets : List ℕ) → Option (List ℕ)
advance a [] = some []
advance a (offset ∷ offsets) = do
  next ← get_elem? a offset
  rest ← advance a offsets
  some (next ∷ rest)

pub advance_loop : (left : ℕ) → List ℕ → (offsets : List ℕ) → Option (List ℕ)
advance_loop zero a offsets = some offsets
advance_loop (suc left) a offsets = do offsets' ← advance a offsets; advance_loop left a offsets'

-- `sum += offsets[i]` for each i.
pub checksum : List ℕ → (sum : ℕ) → ℕ
checksum [] sum = sum
checksum (offset ∷ offsets) sum = checksum offsets (u32 (sum + offset))

-- The bandwidth, and whether the warning is printed.
pub record MlpReport (Real : Type 0) : Type 0 where
  pub bandwidth : Real
  pub warned : Bool
  pub calls : Calls

module _ (m : Machine) (size_kb iterations parallelism : ℕ) where
  pub no_bandwidth : Calls → MlpReport (m.floats.Real)
  no_bandwidth calls = record { bandwidth = m.floats.real (pos 0); warned = false; calls = calls }

  -- `scale_iterations(size_kb, iterations) / parallelism`
  abbrev pub rounds_of : ℕ
  rounds_of = u32 (scale_iterations m.floats size_kb iterations / parallelism)

  -- What follows the rounds.
  pub mlp_report : (offsets : List ℕ) → Calls → MlpReport (m.floats.Real)
  mlp_report offsets calls =
      let fl = m.floats in
      let elapsed = elapsed_ns fl (m.clock calls.ticks) (m.clock (calls.ticks + 1)) in
      let mb = fl.div (fl.real (pos (u32 (rounds_of * parallelism) * 4))) (fl.real (pos 1000000)) in
      record {
        bandwidth =
            fl.narrow (fl.div (fl.mul (fl.real (pos 1000000000)) mb) (fl.real (pos elapsed)));
        warned = checksum offsets 0 == 0;
        calls = record calls { ticks = calls.ticks + 2 };
      }

  -- From the filling of the pattern to the last checksum. The round counter is an `int`.
  pub mlp_on : List ℕ → Calls → Option (List ℕ × MlpReport (m.floats.Real))
  mlp_on a calls =
      if ltb rounds_of (2 ^ 31)
      then (do
        (a', drawn) ← fill_pattern_arr m.rand a (list_size_of size_kb) cacheline_size calls.drawn
        offsets ← advance_loop rounds_of a' (start_offsets parallelism 0)
        some (offsets, mlp_report offsets (record calls { drawn = drawn })))
      else none

  -- The test on what the two calls of malloc returned.
  pub mlp_new : (array offsets_block : Option (List ℕ)) → Calls → Option (MlpReport (m.floats.Real))
  mlp_new (some a) (some b) calls = do (offsets, report) ← mlp_on a calls; some report
  mlp_new _ _ calls = some (no_bandwidth calls)

  pub run_mlp_test : Calls → Option (MlpReport (m.floats.Real))
  run_mlp_test calls =
      if ltb parallelism 1
      then some (no_bandwidth calls)
      else mlp_new (m.malloc calls.allocated (list_size_of size_kb))
          (m.malloc (calls.allocated + 1) parallelism)
          (record calls { allocated = calls.allocated + 2 })
