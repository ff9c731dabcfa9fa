-- ===== src/CoherencyLatency/Tests.antt =====
-- Examples of CoherencyLatency.
use u_arch_test.Prelude.{◌≤◌, ◌≡◌, ◌↔◌, refl, Bool, true, false, List, [], ◌∷◌, arith}
use u_arch_test.CoherencyLatency.{init, attempt, step, run, finished}
use u_arch_test.CoherencyLatency.Token.{Turns, token_of, run_refines}
use u_arch_test.CoherencyLatency.Rounds.{join, rounds-finished, run-finished}

-- Four rounds in which the threads take turns in different orders.
abbrev four_rounds : List (List Bool)
four_rounds =
    (true ∷ false ∷ [])
    ∷ (false ∷ false ∷ true ∷ [])
    ∷ (true ∷ false ∷ true ∷ [])
    ∷ (false ∷ true ∷ [])
    ∷ []

run_in_order :
    run 2 (true ∷ true ∷ false ∷ true ∷ false ∷ []) init
    ≡ record { target = 4; current1 = 5; current2 = 6 }
unfolding run step attempt
run_in_order = refl

rounds-finished_example :
    (finished 2 (run 2 (join four_rounds) init) ≡ true)
    × ((run 2 (join four_rounds) init).target ≡ 4)
rounds-finished_example =
    rounds-finished 2 (omega arith) four_rounds
      ((refl, refl), ((refl, refl), ((refl, refl), ((refl, refl), tt)))) (omega arith)

run-finished_example :
    ((run 2 (true ∷ true ∷ []) init).target ≤ 4)
    × ((finished 2 (run 2 (true ∷ true ∷ []) init) ≡ true)
        ↔ ((run 2 (true ∷ true ∷ []) init).target ≡ 4))
run-finished_example = run-finished 2 (omega arith) (true ∷ true ∷ [])

run_refines_example :
    Turns
      (true ∷ true ∷ false ∷ [])
      (record { holder = true; left = 4 })
      (token_of 2 (omega arith) (run 2 (true ∷ true ∷ false ∷ []) init))
    × ((finished 2 (run 2 (true ∷ true ∷ false ∷ []) init) ≡ true)
        ↔ ((token_of 2 (omega arith) (run 2 (true ∷ true ∷ false ∷ []) init)).left ≡ 0))
run_refines_example = run_refines 2 (omega arith) (true ∷ true ∷ false ∷ [])
