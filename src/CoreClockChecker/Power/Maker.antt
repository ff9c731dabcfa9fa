-- ===== src/CoreClockChecker/Power/Maker.antt =====
-- The processor that CoreClockChecker/CoreClockChecker.c detects.
use u_arch_test.Prelude.{
  ℕ, ◌+◌, ◌*◌, ◌/◌, ◌%◌, ◌^◌, ◌<◌, ◌≡◌, ◌↔◌, refl, ap, Bool, true, false, if◌then◌else◌, List, [],
  ◌∷◌, ◌++◌, get_or, arith,
}
use u_arch_test.CoreClockChecker.Power.{
  bytes_of_word, same_bytes, genuine_intel, authentic_amd, detect_cpu_maker,
}

-- The registers of cpuid hold "AuthenticAMD", as little-endian words.
abbrev pub IsAmd : (cpuid_ebx cpuid_edx cpuid_ecx : ℕ) → Type 0
IsAmd ebx edx ecx = (ebx ≡ 0x6874_7541) × (edx ≡ 0x6974_6e65) × (ecx ≡ 0x444d_4163)

word_of_bytes :
    (w a b c d : ℕ)
    → w < 2 ^ 32
    → w % 256 ≡ a
    → w / 256 % 256 ≡ b
    → w / 65536 % 256 ≡ c
    → w / 16777216 % 256 ≡ d
    → w ≡ a + 256 * b + 65536 * c + 16777216 * d
word_of_bytes w a b c d small ha hb hc hd = omega arith

same_bytes-eq : (xs ys : List ℕ) → same_bytes xs ys ≡ true → xs ≡ ys
unfolding same_bytes
same_bytes-eq [] [] e = refl
same_bytes-eq [] (y ∷ ys) e = cc
same_bytes-eq (x ∷ xs) [] e = cc
same_bytes-eq (x ∷ xs) (y ∷ ys) e = ground (arith, same_bytes-eq xs ys)

chosen : (intel amd : Bool) → (if intel then false else amd) ≡ true → amd ≡ true
chosen true amd e = cc
chosen false amd e = e

pub detect_cpu_maker_iff :
    (ebx edx ecx : ℕ)
    → ebx < 2 ^ 32
    → edx < 2 ^ 32
    → ecx < 2 ^ 32
    → (detect_cpu_maker ebx edx ecx ≡ true) ↔ IsAmd ebx edx ecx
unfolding detect_cpu_maker bytes_of_word same_bytes
detect_cpu_maker_iff ebx edx ecx hb hd hc = (to, λ h. rw (h.0, h.1, h.2) refl)
  where
    name : List ℕ
    name = bytes_of_word ebx ++ bytes_of_word edx ++ bytes_of_word ecx

    of_name : name ≡ authentic_amd → IsAmd ebx edx ecx
    of_name e =
        let byte = λ (k : ℕ). ap (λ l. get_or l k 0) e in
        (
          word_of_bytes ebx _ _ _ _ hb (byte 0) (byte 1) (byte 2) (byte 3),
          word_of_bytes edx _ _ _ _ hd (byte 4) (byte 5) (byte 6) (byte 7),
          word_of_bytes ecx _ _ _ _ hc (byte 8) (byte 9) (byte 10) (byte 11),
        )

    to : detect_cpu_maker ebx edx ecx ≡ true → IsAmd ebx edx ecx
    to e = of_name (
        same_bytes-eq name authentic_amd
          (chosen (same_bytes name genuine_intel) (same_bytes name authentic_amd) e))
