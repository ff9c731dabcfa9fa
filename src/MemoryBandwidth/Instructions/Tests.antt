-- ===== src/MemoryBandwidth/Instructions/Tests.antt =====
-- Examples of MeasureInstructionBw.
use u_arch_test.Prelude.{
  ℕ, ◌+◌, ◌*◌, ◌≤◌, ◌≡◌, refl, true, false, List, none, some, ◌++◌, length, arith,
}
use u_arch_test.Timing.Tests.{integers, morning, later}
use u_arch_test.MemoryBandwidth.Instructions.{
  x86_64, aarch64, fault, nop4b, word_at, fill_words, func_len, measure_instruction_bw,
}
use u_arch_test.MemoryBandwidth.Instructions.Decode.{walk}
use u_arch_test.MemoryBandwidth.Instructions.Laws.{
  tail, written_bytes, measure_instruction_bw_lem, measure_instruction_bw_overrun,
}

-- Four words of 4-byte nops, with a branch in every second one.
walk_run : walk 20 (fill_words x86_64 4 2 (nop4b x86_64) 4 0 ++ tail) ≡ some (10, 32)
unfolding fill_words word_at walk
walk_run = refl

measure_instruction_bw_lem_example :
    (code : List ℕ) × (count : ℕ) × ((measure_instruction_bw integers true true morning later x86_64
        2 100 4 0).0
      ≡ some code)
    × (length code ≡ 2052)
    × (walk 769 code ≡ some (count, 2048))
    × (0 ≤ 1 → count * 4 ≡ 2048)
measure_instruction_bw_lem_example =
    measure_instruction_bw_lem integers morning later false 2 100 0 (omega arith)

measure_instruction_bw_overrun_example :
    (length (written_bytes aarch64 true 0 2) ≡ func_len 2 + 4)
    × (measure_instruction_bw integers true true morning later aarch64 2 100 8 0 ≡ (none, fault))
measure_instruction_bw_overrun_example =
    measure_instruction_bw_overrun integers true morning later true 2 100 0 (omega arith)
