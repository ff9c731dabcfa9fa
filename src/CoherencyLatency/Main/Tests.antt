-- ===== src/CoherencyLatency/Main/Tests.antt =====
-- Runs of main of CoherencyLatency, with whole numbers for floating point numbers.
use u_arch_test.Prelude.{
  ℕ, ◌+◌, ◌*◌, ◌≡◌, refl, if◌then◌else◌, Bool, true, false, List, [], ◌∷◌, none, some, replicate,
  length-replicate, arith,
}
use u_arch_test.Prelude.Int.{ℤ, pos}
use u_arch_test.Timing.{elapsed_ms}
use u_arch_test.Timing.Tests.{integers}
use u_arch_test.CoherencyLatency.{time_threads, attempt, step, run, finished}
use u_arch_test.CoherencyLatency.Rounds.{join}
use u_arch_test.CoherencyLatency.Options.{defaults, switch, parse_loop}
use u_arch_test.CoherencyLatency.Main.{
  System, joined_target, run_test, latency_entry, test_columns, test_rows, test_offsets,
  print_columns, print_rows, print_offsets, prints, measured, main,
}
use u_arch_test.CoherencyLatency.Main.Laws.{IsReady, pages}
use u_arch_test.CoherencyLatency.Main.Print.{main-prints, main_overrun}
use Prim.Native.String.{String}
use text.Mathlib.Text

-- A stand-in for atoi.
abbrev two_or_hundred : String → ℤ
two_or_hundred text = if Text.◌==◌ text "100" then pos 100 else pos 2

abbrev four_rounds : List (List Bool)
four_rounds =
    (true ∷ false ∷ [])
    ∷ (false ∷ true ∷ [])
    ∷ (true ∷ true ∷ false ∷ [])
    ∷ (false ∷ true ∷ [])
    ∷ []

-- The test of i and j at an offset takes 1 + offset + 2 * i + 4 * j milliseconds.
abbrev two_processors : System ℤ
two_processors = record {
  num_procs = 2;
  memalign = 0;
  block = replicate 512 7;
  unset = λ k. pos 9 ∷ pos 9 ∷ pos 9 ∷ pos 9 ∷ [];
  events = λ k i j. record {
    t1rc = 0;
    t2rc = 0;
    schedule = join four_rounds;
    start = record { sec = 0; usec = 0 };
    end = record { sec = 0; usec = 1000 * (1 + k + 2 * i + 4 * j) };
  };
}

two_processors-IsReady : IsReady 2 two_processors
two_processors-IsReady = record {
  aligned = refl;
  block_size = length-replicate {A = ℕ} 512 7;
  table_size = λ k. refl;
  created1 = λ k i j. refl;
  created2 = λ k i j. refl;
  rounds = λ k i j. four_rounds;
  fair = λ k i j. ((refl, refl), ((refl, refl), ((refl, refl), ((refl, refl), tt))));
  enough = λ k i j. omega arith;
  played = λ k i j. refl;
}

abbrev two_offsets : List String
two_offsets = "-iterations" ∷ "2" ∷ "-offset" ∷ "2" ∷ []

abbrev hundred_offsets : List String
hundred_offsets = "-iterations" ∷ "2" ∷ "-offset" ∷ "100" ∷ []

main_run :
    main integers two_or_hundred two_processors two_offsets
    ≡ some (
        prints (
          (0, (none ∷ some (pos 1250000) ∷ []) ∷ (some (pos 750000) ∷ none ∷ []) ∷ [])
          ∷ (1, (none ∷ some (pos 1500000) ∷ []) ∷ (some (pos 1000000) ∷ none ∷ []) ∷ [])
          ∷ []))
unfolding main measured parse_loop switch defaults test_offsets test_rows test_columns latency_entry
    run_test joined_target run step attempt finished time_threads elapsed_ms print_offsets
    print_rows print_columns u_arch_test.Prelude.store
main_run = refl

main-prints_example :
    main integers two_or_hundred two_processors two_offsets
    ≡ some (prints (pages integers two_processors 2 2 0))
unfolding parse_loop switch defaults
main-prints_example =
    main-prints integers two_processors 2 (omega arith) two_processors-IsReady two_or_hundred
      two_offsets (record { iter = 2; offsets = pos 2 }) 2 refl refl refl (omega arith)

main_overrun_example : main integers two_or_hundred two_processors hundred_offsets ≡ none
unfolding parse_loop switch defaults
main_overrun_example =
    main_overrun integers two_processors 2 (omega arith) two_processors-IsReady two_or_hundred
      hundred_offsets (record { iter = 2; offsets = pos 100 }) 100 refl refl refl (omega arith)
      (omega arith)
