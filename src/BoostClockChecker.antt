-- ===== src/BoostClockChecker.antt =====
-- CoreClockChecker/BoostClockChecker.c: the options of main, the samples of the time stamp counter,
-- and the table of clock speeds that is computed from them.
pub mod Laws
mod Tests
use u_arch_test.Prelude.{
  ℕ, zero, suc, ◌+◌, ◌*◌, if◌then◌else◌, List, [], ◌∷◌, Option, none, some, get_elem?, u64, store,
  ◌>>=◌,
}
use u_arch_test.Prelude.Int.{ℤ, pos, wrap, sub_ℕ, scale, quot, ◌+ℤ◌}
use u_arch_test.Timing.{Floats, Timeval}
use Prim.Native.String.{String}
use text.Mathlib.Text.{starts_with}

pub record Options : Type 0 where
  pub iterations : ℕ
  pub samples : ℕ
  pub sleep_seconds : ℕ

pub defaults : Options
defaults = record { iterations = 500000; samples = 100; sleep_seconds = 5 }

-- The options, in the order in which the loop tests for them. `*argv == '-'` with
-- `strncmp(argv + 1, w, n) == 0` is one test here, whether the argument starts with `-` and the
-- first n characters of w.
pub data Switch : Type 0 where
  help samples_value iterations_value sleep_value unknown no_dash : Switch

pub switch : String → Switch
switch arg =
    if starts_with arg "-"
    then if starts_with arg "-help"
      then help
      else if starts_with arg "-samples"
      then samples_value
      else if starts_with arg "-iterations"
      then iterations_value
      else if starts_with arg "-sleep"
      then sleep_value
      else unknown
    else no_dash

-- `main` returns with a code, or goes on with the options.
pub data Parsed : Type 0 where
  exits : (code : ℕ) → Parsed
  parsed : Options → Parsed

module _ (atol atoi : String → ℤ) where
  -- The loop over the arguments after the program's name; one without a dash is passed over.
  pub parse_loop : List String → Options → Parsed
  parse_loop [] o = parsed o
  parse_loop (arg ∷ []) o = elim (switch arg) [ help ↦ exits 0 | no_dash ↦ parsed o | _ ↦ exits 1 ]
  parse_loop (arg ∷ value ∷ rest) o = elim (switch arg) [
    | help ↦ exits 0
    | samples_value ↦ parse_loop rest (record o { samples = wrap 64 (atol value) })
    | iterations_value ↦ parse_loop rest (record o { iterations = wrap 64 (atol value) })
    | sleep_value ↦ parse_loop rest (record o { sleep_seconds = wrap 32 (atoi value) })
    | unknown ↦ exits 1
    | no_dash ↦ parse_loop (value ∷ rest) o
  ]

-- One line of the table: `elapsedTime`, `addsPerNs`, and the sample.
pub record Row (Real : Type 0) : Type 0 where
  pub elapsed_time : Real
  pub adds_per_ns : Real
  pub measured : ℕ

-- The slots that a block has; NULL has none.
abbrev pub slots_of : Option (List ℕ) → List ℕ
slots_of none = []
slots_of (some slots) = slots

-- `clktsctest k n` is the result of the k-th call, with n iterations, and `block` what malloc gives
-- for a number of bytes, as slots of eight.
module _ (fl : Floats) (clktsctest : ℕ → ℕ → ℕ) (block : ℕ → Option (List ℕ)) where
  -- The loop that takes the samples, with `left` to go.
  pub sample_loop : (iterations left sample_idx : ℕ) → List ℕ → Option (List ℕ)
  sample_loop iterations zero sample_idx measured_tscs = some measured_tscs
  sample_loop iterations (suc left) sample_idx measured_tscs = do
    measured_tscs' ← store measured_tscs sample_idx (clktsctest sample_idx iterations)
    sample_loop iterations left (sample_idx + 1) measured_tscs'

  -- `time_diff_ms`, a time_t, and `(float)referenceElapsedTsc / (float)time_diff_ms`
  abbrev pub time_diff_ms : (start end : Timeval) → ℤ
  time_diff_ms s e = scale 1000 (sub_ℕ e.sec s.sec) +ℤ quot (sub_ℕ e.usec s.usec) 1000

  pub tsc_per_ms : (reference : ℕ) (start end : Timeval) → fl.Real
  tsc_per_ms reference start end =
      fl.narrow (
        fl.div (fl.narrow (fl.real (pos reference))) (fl.narrow (fl.real (time_diff_ms start end))))

  module _ (per_ms : fl.Real) (iterations : ℕ) where
    -- `measuredTscs[sampleIdx] / tsc_per_ms`
    pub elapsed_time_ms : (tsc : ℕ) → fl.Real
    elapsed_time_ms tsc = fl.narrow (fl.div (fl.narrow (fl.real (pos tsc))) per_ms)

    -- `latency = 1e6 * elapsedTimeMs / (float)iterations; addsPerNs = 1 / latency`
    pub speed : (tsc : ℕ) → fl.Real
    speed tsc =
        let latency = fl.narrow (
          fl.div (fl.mul (fl.real (pos 1000000)) (elapsed_time_ms tsc))
            (fl.narrow (fl.real (pos iterations)))) in
        fl.narrow (fl.div (fl.real (pos 1)) latency)

    -- The loop that prints the table.
    pub line_loop :
        (left sample_idx : ℕ) (elapsed_time : fl.Real) → List ℕ → Option (List (Row fl.Real))
    line_loop zero sample_idx elapsed_time measured_tscs = some []
    line_loop (suc left) sample_idx elapsed_time measured_tscs = do
      tsc ← get_elem? measured_tscs sample_idx
      let elapsed_time' = fl.narrow (fl.add elapsed_time (elapsed_time_ms tsc))
      rows ← line_loop left (sample_idx + 1) elapsed_time' measured_tscs
      some (record { elapsed_time = elapsed_time'; adds_per_ns = speed tsc; measured = tsc } ∷ rows)

  -- What main prints with its options, between the two readings of the clock. The result of malloc
  -- is not tested.
  pub clock_table : (start end : Timeval) → Options → Option (List (Row fl.Real))
  clock_table start end o = do
    measured_tscs' ← sample_loop o.iterations o.samples 0 (slots_of (block (u64 (o.samples * 8))))
    let reference = clktsctest o.samples 8000000000
    line_loop (tsc_per_ms reference start end) o.iterations o.samples 0 (fl.real (pos 0))
        measured_tscs'
