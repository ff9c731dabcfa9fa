-- ===== src/MemoryBandwidth/Instructions.antt =====
-- MeasureInstructionBw of MemoryBandwidth/MemoryBandwidth.c: the function that it writes, byte by
-- byte, and the bandwidth that it computes from running it.
pub mod Decode
pub mod Laws
mod Tests
use u_arch_test.Prelude.{
  ℕ, zero, suc, ◌+◌, ◌-◌, ◌*◌, ◌/◌, ◌%◌, ◌^◌, ltb, leb, ◌==◌, if◌then◌else◌, Bool, true, false,
  ◌&&◌, List, [], ◌∷◌, ◌++◌, Option, none, some, length, replicate, u64, ◌>>=◌,
}
use u_arch_test.Prelude.Int.{ℤ, pos, pos_part}
use u_arch_test.Timing.{Floats, Timespec, elapsed_ns}

-- The processor that the code is compiled for.
pub data Arch : Type 0 where
  x86_64 aarch64 : Arch

-- The eight bytes that are written at once.
abbrev pub nop8b : Arch → List ℕ
nop8b x86_64 = 0x0f ∷ 0x1f ∷ 0x84 ∷ 0x00 ∷ 0x00 ∷ 0x00 ∷ 0x00 ∷ 0x00 ∷ []
nop8b aarch64 = 0x1f ∷ 0x20 ∷ 0x03 ∷ 0xd5 ∷ 0x00 ∷ 0x00 ∷ 0x80 ∷ 0xd2 ∷ []

abbrev pub nop4b : Arch → List ℕ
nop4b x86_64 = 0x0f ∷ 0x1f ∷ 0x40 ∷ 0x00 ∷ 0x0f ∷ 0x1f ∷ 0x40 ∷ 0x00 ∷ []
nop4b aarch64 = 0x1f ∷ 0x20 ∷ 0x03 ∷ 0xd5 ∷ 0x1f ∷ 0x20 ∷ 0x03 ∷ 0xd5 ∷ []

abbrev pub nop4b_with_branch : List ℕ
nop4b_with_branch = 0x0f ∷ 0x1f ∷ 0x40 ∷ 0x00 ∷ 0xeb ∷ 0x00 ∷ 0x66 ∷ 0x90 ∷ []

abbrev pub nop8b1 : List ℕ
nop8b1 = 0x00 ∷ 0x00 ∷ 0x80 ∷ 0xd2 ∷ 0xe0 ∷ 0x03 ∷ 0x40 ∷ 0xf9 ∷ []

-- `*nop8bptr`; for another size than 8 and 4 the pointer is not set.
pub nop_word : Arch → (nop_size : ℕ) → Option (List ℕ)
nop_word arch nop_size =
    if nop_size == 8 then some (nop8b arch) else (if nop_size == 4 then some (nop4b arch) else none)

-- What ends up in `nops[nop_idx]`.
pub word_at : Arch → (nop_size branch_interval nop_idx : ℕ) → (word : List ℕ) → List ℕ
word_at x86_64 nop_size branch_interval nop_idx word =
    if ltb 1 branch_interval && (nop_idx % branch_interval == 0) then nop4b_with_branch else word
word_at aarch64 nop_size branch_interval nop_idx word =
    if (nop_size == 8) && (nop_idx % 2 == 1) then nop8b1 else word

-- The loop over the elements, which writes the words in order.
pub fill_words : Arch → (nop_size branch_interval : ℕ) (word : List ℕ) (left nop_idx : ℕ) → List ℕ
fill_words arch nop_size branch_interval word zero nop_idx = []
fill_words arch nop_size branch_interval word (suc left) nop_idx =
    word_at arch nop_size branch_interval nop_idx word
    ++ fill_words arch nop_size branch_interval word left (nop_idx + 1)

-- What is stored at `functionEnd`: a byte, or a 64-bit word whose lower half is the instruction.
abbrev pub function_end : Arch → List ℕ
function_end x86_64 = 0xc3 ∷ []
function_end aarch64 = 0xc0 ∷ 0x03 ∷ 0x5f ∷ 0xd6 ∷ 0x00 ∷ 0x00 ∷ 0x00 ∷ 0x00 ∷ []

-- The store into the bytes that are left of the block; one beyond them is undefined. Bytes that are
-- not written are 0 here.
pub store_end : (left : ℕ) → List ℕ → Option (List ℕ)
store_end left bytes =
    if leb (length bytes) left then some (bytes ++ replicate (left - length bytes) 0) else none

abbrev pub elements_of : (size_kb : ℕ) → ℕ
elements_of size_kb = u64 (size_kb * 1024) / 8

abbrev pub func_len : (size_kb : ℕ) → ℕ
func_len size_kb = u64 (u64 (size_kb * 1024) + 4)

-- The whole function, in its block of `funcLen` bytes.
pub write_function : Arch → (size_kb nop_size branch_interval : ℕ) → Option (List ℕ)
write_function arch size_kb nop_size branch_interval = do
  word ← nop_word arch nop_size
  rest ← store_end (func_len size_kb - elements_of size_kb * 8) (function_end arch)
  some (fill_words arch nop_size branch_interval word (elements_of size_kb) 0 ++ rest)

-- How the call ends. `live` counts the blocks that are not freed.
pub data Ending (Real : Type 0) : Type 0 where
  fault : Ending Real
  returned : (bw : Real) (live : ℕ) → Ending Real

-- `memalign` and `mprotect` say whether the calls succeed, and the two readings are the clock's.
module _ (fl : Floats) (memalign mprotect : Bool) (start end : Timespec) where
  -- `(iterations * 8 * elements + 1)`
  pub bytes_of : (size_kb iterations : ℕ) → ℕ
  bytes_of size_kb iterations = u64 (u64 (u64 (iterations * 8) * elements_of size_kb) + 1)

  pub instruction_bw : (size_kb iterations : ℕ) → fl.Real
  instruction_bw size_kb iterations =
      let gb = fl.div (fl.real (pos (bytes_of size_kb iterations))) (fl.real (pos 1000000000)) in
      fl.narrow
        (fl.div (fl.mul (fl.real (pos 1000000000)) gb) (fl.real (pos (elapsed_ns fl start end))))

  -- The function's code, where it is run, with the end of the call. The rounds are counted on int.
  pub run_function : (size_kb iterations : ℕ) → Option (List ℕ) → Option (List ℕ) × Ending fl.Real
  run_function size_kb iterations none = (none, fault)
  run_function size_kb iterations (some code) =
      let rounds_end =
        if ltb iterations (2 ^ 31) then returned (instruction_bw size_kb iterations) 0 else fault in
      if mprotect then (some code, rounds_end) else (none, returned (fl.real (pos 0)) 1)

  pub measure_instruction_bw :
      Arch → (size_kb iterations nop_size branch_interval : ℕ) → Option (List ℕ) × Ending fl.Real
  measure_instruction_bw arch size_kb iterations nop_size branch_interval =
      if memalign
      then run_function size_kb iterations (write_function arch size_kb nop_size branch_interval)
      else (none, returned (fl.real (pos 0)) 0)
