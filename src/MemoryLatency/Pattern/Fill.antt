-- ===== src/MemoryLatency/Pattern/Fill.antt =====
-- The whole of FillPatternArr and FillPatternArr64 of MemoryLatency/MemoryLatency.c.
use u_arch_test.Prelude.{
  div-mul-le, mul-le-mul, All, ℕ, zero, suc, ◌*◌, ◌/◌, ◌^◌, ◌≤◌, ◌<◌, ◌≡◌, refl, ◌∙◌, List, [],
  Option, some, length, u32_small, arith, ◌>>=◌, lt→ltb, checked_div_lem,
}
use u_arch_test.MemoryLatency.Pattern.{
  shuffle_loop, identity_loop, fill, fill_pattern_arr, fill_pattern_arr64,
}
use u_arch_test.MemoryLatency.Pattern.Cycle.{stride, Link, Chain}
use u_arch_test.MemoryLatency.Pattern.Family.{total}
use u_arch_test.MemoryLatency.Pattern.Shuffle.{hits, members, Cycles}
use u_arch_test.MemoryLatency.Pattern.Identity.{Kept, Identity, identity_loop-Identity}
use u_arch_test.MemoryLatency.Pattern.Rounds.{Shuffled, shuffle_loop-Shuffled}
use native.Mathlib.Decide.{dec_lt}

-- From element 0 the links lead through every element below `n` exactly once and back to 0.
pub record IsSingleCycle (slot : ℕ → ℕ) (n : ℕ) (a : List ℕ) : Type 0 where
  pub order : List ℕ
  pub linked : Chain a slot 0 order 0
  pub within : All (λ z. (1 ≤ z) × (z < n)) order
  pub once : (x : ℕ) → x < n → hits x 0 order ≡ 1
  pub size : suc (length order) ≡ n

-- The call returns an array of the same length whose elements form one cycle, other slots kept.
pub record IsFilled (increment n : ℕ) (a : List ℕ) (r : Option (List ℕ × ℕ)) : Type 0 where
  pub out : List ℕ
  pub drawn' : ℕ
  pub returns : r ≡ some (out, drawn')
  pub same_length : length out ≡ length a
  pub single : IsSingleCycle (stride increment) n out
  pub kept : Kept increment n a out

total-hits_none : (x m : ℕ) → m ≤ x → total (hits x) m (λ _. []) ≡ 0
total-hits_none x zero h = refl
total-hits_none x (suc m) h = ground (arith, total-hits_none x m)

total-hits_one : (x m : ℕ) → x < m → total (hits x) m (λ _. []) ≡ 1
total-hits_one x zero h = absurd (omega arith)
total-hits_one x (suc m) h = elim (dec_lt x m) [
  | yes below ↦ ground (arith, total-hits_one x m below)
  | no last ↦ ground (arith, total-hits_none x m (omega arith))
]

total-members : (m : ℕ) → total members m (λ _. []) ≡ m
total-members zero = refl
total-members (suc m) = omega (arith, total-members m)

-- Before the first swap every element is a cycle of its own.
pub Cycles-identity :
    (increment n : ℕ) (a : List ℕ)
    → ((x : ℕ) → x < n → Link a (stride increment) x x)
    → Cycles increment n n a
Cycles-identity increment n a links = record {
  cycle = λ _. [];
  linked = links;
  above = λ r h. tt;
  once = λ x h. total-hits_one x n h;
  size = total-members n;
}

-- Both loops, on any array with room for the elements: whatever rand() returns, they run without a
-- fault and leave a single cycle.
pub fill-IsFilled :
    (rand : ℕ → ℕ) (increment n : ℕ) (a : List ℕ) (drawn : ℕ)
    → 0 < increment
    → 0 < n
    → n < 2 ^ 31
    → n * increment ≤ 2 ^ 32
    → n * increment ≤ length a
    → IsFilled increment n a (fill rand increment n a drawn)
unfolding fill
fill-IsFilled rand increment n a drawn pos some_n few fits room = record {
  out = second.out;
  drawn' = second.drawn';
  returns = rw (lt→ltb n (2 ^ 31) few, first.returns, ◌>>=◌) second.returns;
  same_length = second.same_length ∙ first.same_length;
  single = record {
    order = second.cycles.cycle 0;
    linked = second.cycles.linked 0 (omega arith);
    within = second.cycles.above 0 (omega arith);
    once = λ x h. omega (arith, second.cycles.once x h);
    size = omega (arith, second.cycles.size);
  };
  kept = λ w h. second.kept w h ∙ first.kept w h;
}
  where
    first : Identity increment n pos fits a (identity_loop increment n 0 a)
    first =
        identity_loop-Identity increment n pos fits n 0 a (omega arith) room
          (λ x h. absurd (omega arith))

    second :
        Shuffled increment n pos fits n first.out (shuffle_loop rand increment n first.out drawn)
    second =
        shuffle_loop-Shuffled increment n pos fits rand n first.out drawn some_n (omega arith)
          (rw first.same_length room) (Cycles-identity increment n first.out first.links)

div-pos : (l k : ℕ) → 0 < k → k ≤ l → 0 < l / k
div-pos l k pos h = grind arith

div-lt_half : (l k : ℕ) → 2 ≤ k → l < 2 ^ 32 → l / k < 2 ^ 31
div-lt_half l k two h = omega (arith, div-mul-le l k, mul-le-mul 2 k (l / k) two)

fill-IsFilled_div :
    (rand : ℕ → ℕ) (k l : ℕ) (a : List ℕ) (drawn : ℕ)
    → l ≤ length a
    → l < 2 ^ 32
    → 2 ≤ k
    → k ≤ l
    → IsFilled k (l / k) a (fill rand k (l / k) a drawn)
fill-IsFilled_div rand k l a drawn room small two one =
    fill-IsFilled rand k (l / k) a drawn (omega arith) (div-pos l k (omega arith) one)
      (div-lt_half l k two small) (omega (arith, div-mul-le l k)) (omega (arith, div-mul-le l k))

module _ (rand : ℕ → ℕ) (a : List ℕ) (list_size byte_increment drawn : ℕ)
    (room : list_size ≤ length a) where
  -- FillPatternArr on an array of `list_size` 32-bit slots, with at least 8 bytes between elements
  -- and room for one element: no fault, whatever rand() returns, and the pointer chase from slot 0
  -- meets each of the list_size / (byte_increment / 4) elements exactly once before it is back.
  pub fill_pattern_arr-IsFilled :
      list_size < 2 ^ 32
      → 8 ≤ byte_increment
      → byte_increment / 4 ≤ list_size
      → IsFilled
          (byte_increment / 4)
          (list_size / (byte_increment / 4))
          a
          (fill_pattern_arr rand a list_size byte_increment drawn)
  unfolding fill_pattern_arr
  fill_pattern_arr-IsFilled small wide one =
      rw (checked_div_lem list_size (byte_increment / 4) (omega arith), ◌>>=◌)
        (fill-IsFilled_div rand (byte_increment / 4) list_size a drawn room small (omega arith) one)

  -- The same of FillPatternArr64, with 64-bit slots and 16 bytes between elements.
  pub fill_pattern_arr64-IsFilled :
      list_size < 2 ^ 32
      → 16 ≤ byte_increment
      → byte_increment < 2 ^ 32
      → byte_increment / 8 ≤ list_size
      → IsFilled
          (byte_increment / 8)
          (list_size / (byte_increment / 8))
          a
          (fill_pattern_arr64 rand a list_size byte_increment drawn)
  unfolding fill_pattern_arr64
  fill_pattern_arr64-IsFilled small wide narrow one =
      rw
        (
          u32_small (byte_increment / 8) (omega arith),
          checked_div_lem list_size (byte_increment / 8) (omega arith),
          ◌>>=◌,
          u32_small (list_size / (byte_increment / 8))
              (omega (arith, div-lt_half list_size (byte_increment / 8) (omega arith) small)),
        )
        (fill-IsFilled_div rand (byte_increment / 8) list_size a drawn room small (omega arith) one)
