-- ===== src/MemoryBandwidth/Instructions/Decode.antt =====
-- The few x86 instructions that MeasureInstructionBw of MemoryBandwidth/MemoryBandwidth.c writes,
-- as a processor reads them: an independent description.
use u_arch_test.Prelude.{
  ℕ, zero, suc, ◌+◌, ◌==◌, if◌then◌else◌, ◌&&◌, List, [], ◌∷◌, Option, none, some, get_or, ◌>>=◌,
}

-- An instruction without an effect, of some length; a return; anything else.
pub data Instruction : Type 0 where
  nop : (bytes : ℕ) → Instruction
  ret other : Instruction

-- The instruction that begins with these bytes: the multi-byte nops, a jump to the instruction
-- after it, and `ret`.
abbrev pub decode : (b0 b1 b2 : ℕ) → Instruction
decode b0 b1 b2 =
    if b0 == 0xc3
    then ret
    else if (b0 == 0x0f) && (b1 == 0x1f) && (b2 == 0x84)
    then nop 8
    else if (b0 == 0x0f) && (b1 == 0x1f) && (b2 == 0x40)
    then nop 4
    else if (b0 == 0xeb) && (b1 == 0x00)
    then nop 2
    else if (b0 == 0x66) && (b1 == 0x90)
    then nop 2
    else other

abbrev pub drop : ℕ → List ℕ → List ℕ
drop zero bytes = bytes
drop (suc n) [] = []
drop (suc n) (b ∷ bytes) = drop n bytes

-- How many nops a processor runs from here to the return, and how many bytes they take.
unfoldable pub walk : (fuel : ℕ) → List ℕ → Option (ℕ × ℕ)
walk zero bytes = none
walk (suc fuel) (b0 ∷ b1 ∷ bytes) = elim (decode b0 b1 (get_or bytes 0 0)) [
  | ret ↦ some (0, 0)
  | nop n ↦ do (count, size) ← walk fuel (drop n (b0 ∷ b1 ∷ bytes)); some (count + 1, size + n)
  | other ↦ none
]
walk (suc fuel) _ = none
