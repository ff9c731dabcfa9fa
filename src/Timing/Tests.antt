-- ===== src/Timing/Tests.antt =====
-- Examples of Timing, and the integers as an instance of its floating point numbers.
use u_arch_test.Prelude.{◌*◌, ◌≡◌, refl, leb, if◌then◌else◌}
use u_arch_test.Prelude.Int.{ℤ, pos, sub_ℕ, quot, pos_part, neg_part, ◌+ℤ◌}
use u_arch_test.Timing.{Floats, Timespec, Timeval, elapsed_ms}
use u_arch_test.Timing.Laws.{IsExact}

-- Integers of any size, with truncating division and a power that is always 1.
abbrev pub integers : Floats
integers = record {
  Real = ℤ;
  real = λ z. z;
  add = λ a b. a +ℤ b;
  sub = λ a b. a +ℤ sub_ℕ (neg_part b) (pos_part b);
  mul = λ a b. sub_ℕ (pos_part a * pos_part b) (pos_part a * neg_part b);
  div = λ a b. quot a (pos_part b);
  pow = λ a b. pos 1;
  fmax = λ a b. if leb (pos_part b) (pos_part a) then a else b;
  truncate = pos_part;
  narrow = λ a. a;
}

integers-IsExact : IsExact integers
integers-IsExact = record {
  add_exact = λ a b h. refl;
  mul_exact = λ k b h. refl;
  truncate_exact = λ n h. refl;
}

abbrev pub morning : Timespec
morning = record { sec = 5; nsec = 999999000 }

abbrev pub later : Timespec
later = record { sec = 7; nsec = 500 }

abbrev first_time : Timeval
first_time = record { sec = 5; usec = 999000 }

abbrev second_time : Timeval
second_time = record { sec = 7; usec = 500 }

elapsed_ms_run : elapsed_ms first_time second_time ≡ 1002
unfolding elapsed_ms
elapsed_ms_run = refl
