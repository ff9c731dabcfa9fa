-- ===== src/MemoryLatency/Plan/Tests.antt =====
-- Examples of the tests that `main` of MemoryLatency runs.
use u_arch_test.Prelude.{◌≡◌, refl, [], ◌∷◌}
use u_arch_test.MemoryLatency.Plan.{size_call, sizes_loop}

sizes_loop_run : sizes_loop 1 (512 ∷ 1024 ∷ 2048 ∷ 600 ∷ []) ≡ size_call 512 ∷ size_call 1024 ∷ []
unfolding sizes_loop
sizes_loop_run = refl
