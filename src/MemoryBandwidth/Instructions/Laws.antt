-- ===== src/MemoryBandwidth/Instructions/Laws.antt =====
-- The function that MeasureInstructionBw of MemoryBandwidth/MemoryBandwidth.c writes, as it runs.
use u_arch_test.Prelude.{
  ℕ, zero, suc, ◌+◌, ◌-◌, ◌*◌, ◌%◌, ◌^◌, ◌≤◌, ◌<◌, ◌≡◌, refl, ap, ◌∙◌, inl, inr, ltb, ◌==◌,
  if◌then◌else◌, Bool, true, false, ◌&&◌, Bool-cases, List, [], ◌∷◌, ◌++◌, none, some, length,
  length-append, arith, ◌>>=◌,
}
use mathlib.Core.List.{append_assoc}
use u_arch_test.Timing.{Floats, Timespec}
use u_arch_test.MemoryBandwidth.Instructions.{
  Arch, x86_64, aarch64, function_end, nop8b, nop4b, nop4b_with_branch, nop_word, word_at,
  fill_words, store_end, elements_of, func_len, write_function, fault, run_function,
  measure_instruction_bw,
}
use u_arch_test.MemoryBandwidth.Instructions.Decode.{walk}

module _ (fuel : ℕ) (rest : List ℕ) (n k : ℕ) (later : walk fuel rest ≡ some (n, k)) where
  walk-nop8b : walk (suc fuel) (nop8b x86_64 ++ rest) ≡ some (n + 1, k + 8)
  unfolding walk
  walk-nop8b = rw (later, ◌>>=◌) refl

  walk-nop4b : walk (suc (suc fuel)) (nop4b x86_64 ++ rest) ≡ some (n + 1 + 1, k + 4 + 4)
  unfolding walk
  walk-nop4b = rw (later, ◌>>=◌) refl

  walk-branch :
      walk (suc (suc (suc fuel))) (nop4b_with_branch ++ rest) ≡ some (n + 1 + 1 + 1, k + 2 + 2 + 4)
  unfolding walk
  walk-branch = rw (later, ◌>>=◌) refl

-- What runs before the return: `n` instructions that take all bytes of `left` words; without
-- branches all of them have the size asked for.
pub record Runs (nop_size branch_interval left fuel : ℕ) (code : List ℕ) : Type 0 where
  pub count : ℕ
  pub walks : walk fuel code ≡ some (count, left * 8)
  pub sized : branch_interval ≤ 1 → count * nop_size ≡ left * 8

-- The return, and what is left of the block.
abbrev pub tail : List ℕ
tail = 0xc3 ∷ 0x00 ∷ 0x00 ∷ 0x00 ∷ []

-- The two instruction sizes, and the words of instructions of that size.
abbrev pub size_of : (wide : Bool) → ℕ
size_of wide = if wide then 8 else 4

abbrev word_of : (wide : Bool) → List ℕ
word_of wide = if wide then nop8b x86_64 else nop4b x86_64

-- The bytes of the block beyond the words.
four : (size_kb : ℕ) → size_kb < 2 ^ 53 → func_len size_kb - elements_of size_kb * 8 ≡ 4
four size_kb small = omega arith

module _ (branch_interval : ℕ) where
  Runs-plain :
      (wide : Bool) (left fuel : ℕ) (rest : List ℕ)
      → ((f : ℕ) → left * 3 < f → Runs (size_of wide) branch_interval left f rest)
      → left * 3 < fuel
      → Runs (size_of wide) branch_interval (suc left) (suc (suc (suc fuel))) (word_of wide ++ rest)
  Runs-plain true left fuel rest later h =
      let r = later (suc (suc fuel)) (omega arith) in
      record {
        count = r.count + 1;
        walks =
            walk-nop8b (suc (suc fuel)) rest r.count (left * 8) r.walks
            ∙ ap (λ k. some (r.count + 1, k)) (omega arith);
        sized = λ e. omega (arith, r.sized e);
      }
  Runs-plain false left fuel rest later h =
      let r = later (suc fuel) (omega arith) in
      record {
        count = r.count + 1 + 1;
        walks =
            walk-nop4b (suc fuel) rest r.count (left * 8) r.walks
            ∙ ap (λ k. some (r.count + 1 + 1, k)) (omega arith);
        sized = λ e. omega (arith, r.sized e);
      }

  Runs-branch :
      (wide : Bool) (left fuel : ℕ) (rest : List ℕ)
      → 1 < branch_interval
      → ((f : ℕ) → left * 3 < f → Runs (size_of wide) branch_interval left f rest)
      → left * 3 < fuel
      → Runs
          (size_of wide)
          branch_interval
          (suc left)
          (suc (suc (suc fuel)))
          (nop4b_with_branch ++ rest)
  Runs-branch wide left fuel rest many later h =
      let r = later fuel h in
      record {
        count = r.count + 1 + 1 + 1;
        walks =
            walk-branch fuel rest r.count (left * 8) r.walks
            ∙ ap (λ k. some (r.count + 1 + 1 + 1, k)) (omega arith);
        sized = λ e. absurd (omega arith);
      }

  Runs-word :
      (wide : Bool) (left idx fuel : ℕ) (rest : List ℕ)
      → ((f : ℕ) → left * 3 < f → Runs (size_of wide) branch_interval left f rest)
      → left * 3 < fuel
      → Runs
          (size_of wide)
          branch_interval
          (suc left)
          (suc (suc (suc fuel)))
          (word_at x86_64 (size_of wide) branch_interval idx (word_of wide) ++ rest)
  unfolding word_at
  Runs-word wide left idx fuel rest later h =
      elim (Bool-cases (ltb 1 branch_interval && (idx % branch_interval == 0))) [
        | inl branch ↦ rw branch (Runs-branch wide left fuel rest (ground arith) later h)
        | inr plain ↦ rw plain (Runs-plain wide left fuel rest later h)
      ]

  fill_words-Runs :
      (wide : Bool) (left idx fuel : ℕ)
      → left * 3 < fuel
      → Runs
          (size_of wide)
          branch_interval
          left
          fuel
          (fill_words x86_64 (size_of wide) branch_interval (word_of wide) left idx ++ tail)
  unfolding fill_words walk
  fill_words-Runs wide zero idx zero h = absurd (omega arith)
  fill_words-Runs wide zero idx (suc fuel) h = record {
    count = 0;
    walks = refl;
    sized = λ e. omega arith;
  }
  fill_words-Runs wide (suc left) idx zero h = absurd (omega arith)
  fill_words-Runs wide (suc left) idx (suc zero) h = absurd (omega arith)
  fill_words-Runs wide (suc left) idx (suc (suc zero)) h = absurd (omega arith)
  fill_words-Runs wide (suc left) idx (suc (suc (suc fuel))) h = rw append_assoc (
      Runs-word wide left idx fuel
        (fill_words x86_64 (size_of wide) branch_interval (word_of wide) left (idx + 1) ++ tail)
        (λ f g. fill_words-Runs wide left (idx + 1) f g) (omega arith))

  length-word_at :
      (wide : Bool) (idx : ℕ)
      → length (word_at x86_64 (size_of wide) branch_interval idx (word_of wide)) ≡ 8
  unfolding word_at
  length-word_at true idx = ground arith
  length-word_at false idx = ground arith

  length-fill_words :
      (wide : Bool) (left idx : ℕ)
      → length (fill_words x86_64 (size_of wide) branch_interval (word_of wide) left idx) ≡ left * 8
  unfolding fill_words
  length-fill_words wide zero idx = refl
  length-fill_words wide (suc left) idx =
      length-append (word_at x86_64 (size_of wide) branch_interval idx (word_of wide)) _
      ∙ omega (arith, length-word_at wide idx, length-fill_words wide left (idx + 1))

  write_function_lem :
      (wide : Bool) (size_kb : ℕ)
      → size_kb < 2 ^ 53
      → write_function x86_64 size_kb (size_of wide) branch_interval
        ≡ some (
            fill_words x86_64 (size_of wide) branch_interval (word_of wide) (elements_of size_kb) 0
            ++ tail)
  unfolding write_function store_end nop_word
  write_function_lem true size_kb small = rw (four size_kb small, ◌>>=◌) refl
  write_function_lem false size_kb small = rw (four size_kb small, ◌>>=◌) refl

-- MeasureInstructionBw on x86-64, for sizes whose bytes do not wrap, either instruction size and any
-- branch interval, where its memory can be had and be made executable: the function that it runs
-- fills its block of 1024 * size_kb + 4 bytes; a processor that starts at the first byte runs only
-- nops and empty jumps, and meets the return exactly after 1024 * size_kb bytes; and
-- without branches all instructions have the size asked for.
pub measure_instruction_bw_lem :
    (fl : Floats) (start end : Timespec) (wide : Bool) (size_kb iterations branch_interval : ℕ)
    → size_kb < 2 ^ 53
    → (code : List ℕ) × (count : ℕ) × ((measure_instruction_bw fl true true start end x86_64 size_kb
          iterations
          (size_of wide)
          branch_interval).0
        ≡ some code)
      × (length code ≡ size_kb * 1024 + 4)
      × (walk (size_kb * 384 + 1) code ≡ some (count, size_kb * 1024))
      × (branch_interval ≤ 1 → count * size_of wide ≡ size_kb * 1024)
unfolding measure_instruction_bw run_function
measure_instruction_bw_lem fl start end wide size_kb iterations branch_interval small =
    let r =
      fill_words-Runs branch_interval wide (elements_of size_kb) 0 (size_kb * 384 + 1)
        (omega arith) in
    (
      fill_words x86_64 (size_of wide) branch_interval (word_of wide) (elements_of size_kb) 0
          ++ tail,
      r.count,
      rw (write_function_lem branch_interval wide size_kb small) refl,
      length-append
            (fill_words x86_64 (size_of wide) branch_interval (word_of wide) (elements_of size_kb)
              0)
            tail
          ∙ omega (arith, length-fill_words branch_interval wide (elements_of size_kb) 0),
      r.walks ∙ ap (λ k. some (r.count, k)) (omega arith),
      λ h. omega (arith, r.sized h),
    )

length-word_at_arm :
    (nop_size branch_interval idx : ℕ) (word : List ℕ)
    → length word ≡ 8
    → length (word_at aarch64 nop_size branch_interval idx word) ≡ 8
unfolding word_at
length-word_at_arm nop_size branch_interval idx word e = ground arith

length-fill_words_arm :
    (nop_size branch_interval : ℕ) (word : List ℕ) (left idx : ℕ)
    → length word ≡ 8
    → length (fill_words aarch64 nop_size branch_interval word left idx) ≡ left * 8
unfolding fill_words
length-fill_words_arm nop_size branch_interval word zero idx e = refl
length-fill_words_arm nop_size branch_interval word (suc left) idx e =
    length-append (word_at aarch64 nop_size branch_interval idx word) _
    ∙ omega (
      arith,
      length-word_at_arm nop_size branch_interval idx word e,
      length-fill_words_arm nop_size branch_interval word left (idx + 1) e,
    )

-- All that the function is written as, with the end, whatever room there is for it.
abbrev pub written_bytes : Arch → (wide : Bool) (branch_interval size_kb : ℕ) → List ℕ
written_bytes arch wide branch_interval size_kb =
    fill_words arch (size_of wide) branch_interval (if wide then nop8b arch else nop4b arch)
      (elements_of size_kb) 0
    ++ function_end arch

-- On aarch64, for sizes whose bytes do not wrap and either instruction size: the bytes that
-- MeasureInstructionBw writes are four more than its block has, and it faults.
pub measure_instruction_bw_overrun :
    (fl : Floats) (mprotect : Bool) (start end : Timespec) (wide : Bool)
    (size_kb iterations branch_interval : ℕ)
    → size_kb < 2 ^ 53
    → (length (written_bytes aarch64 wide branch_interval size_kb) ≡ func_len size_kb + 4)
      × (measure_instruction_bw fl true mprotect start end aarch64 size_kb iterations
            (size_of wide)
            branch_interval
          ≡ (none, fault))
unfolding measure_instruction_bw run_function write_function store_end nop_word
measure_instruction_bw_overrun fl mprotect start end true size_kb iterations branch_interval small =
    (
      length-append (fill_words aarch64 8 branch_interval (nop8b aarch64) (elements_of size_kb) 0)
            (function_end aarch64)
          ∙ omega (
            arith,
            length-fill_words_arm 8 branch_interval (nop8b aarch64) (elements_of size_kb) 0 refl,
          ),
      rw (four size_kb small, ◌>>=◌) refl,
    )
measure_instruction_bw_overrun fl mprotect start end false size_kb iterations branch_interval
      small =
    (
      length-append (fill_words aarch64 4 branch_interval (nop4b aarch64) (elements_of size_kb) 0)
            (function_end aarch64)
          ∙ omega (
            arith,
            length-fill_words_arm 4 branch_interval (nop4b aarch64) (elements_of size_kb) 0 refl,
          ),
      rw (four size_kb small, ◌>>=◌) refl,
    )
