-- ===== src/MemoryLatency/Pattern/Rounds.antt =====
-- The second loop of FillPatternArr, round by round.
use u_arch_test.Prelude.{
  ℕ, zero, suc, ◌*◌, ◌^◌, ◌≤◌, ◌<◌, ◌≡◌, refl, ◌∙◌, List, Option, some, length, get_elem?,
  get_elem?_of_lt, get_elem?-set_ne, set, length-set, store_lem, arith, ◌>>=◌,
}
use u_arch_test.MemoryLatency.Pattern.{pick, shuffle_loop}
use u_arch_test.MemoryLatency.Pattern.Cycle.{swapped}
use u_arch_test.MemoryLatency.Pattern.Shuffle.{Cycles, join-Cycles}
use u_arch_test.MemoryLatency.Pattern.Identity.{Kept, slot_lt, u32_slot}

module _ (increment n : ℕ) (pos : 0 < increment) (fits : n * increment ≤ 2 ^ 32) where
  -- `m` elements were left to join: no other slot changes.
  pub record Shuffled (m : ℕ) (a : List ℕ) (r : Option (List ℕ × ℕ)) : Type 0 where
    pub out : List ℕ
    pub drawn' : ℕ
    pub returns : r ≡ some (out, drawn')
    pub same_length : length out ≡ length a
    pub cycles : Cycles increment n 1 out
    pub kept : Kept increment m a out

  module _ (rand : ℕ → ℕ) where
    pub pick-lt : (k drawn : ℕ) → (pick rand (suc k) drawn).0 < suc k
    unfolding pick
    pick-lt k drawn = ground arith

    -- One round: the next array, with its values read from the old one.
    module _ (k : ℕ) (a : List ℕ) (drawn : ℕ) (le : suc k < n)
        (room : n * increment ≤ length a) where
      abbrev pub j : ℕ
      j = (pick rand (suc k) drawn).0

      module _ (vi vj : ℕ) (at_i : get_elem? a (suc k * increment) ≡ some vi)
          (at_j : get_elem? a (j * increment) ≡ some vj) where
        j_lt : j < n
        j_lt = omega (arith, pick-lt k drawn)

        i_in : suc k * increment < length a
        i_in = slot_lt increment n pos fits (suc k) (length a) le room

        j_in : j * increment < length (set a (suc k * increment) vj)
        j_in = rw length-set (slot_lt increment n pos fits j (length a) j_lt room)

        abbrev pub next : List ℕ
        next = swapped a increment (suc k) j vi vj

        pub shuffle_loop-suc :
            shuffle_loop rand increment (suc (suc k)) a drawn
            ≡ shuffle_loop rand increment (suc k) next (pick rand (suc k) drawn).1
        unfolding shuffle_loop
        shuffle_loop-suc =
            rw
              (
                u32_slot increment n pos fits (suc k) le,
                u32_slot increment n pos fits j j_lt,
                at_i,
                ◌>>=◌,
                at_j,
                store_lem a (suc k * increment) vj i_in,
                store_lem (set a (suc k * increment) vj) (j * increment) vi j_in,
              )
              refl

        Shuffled-swapped :
            Shuffled
              (suc k)
              next
              (shuffle_loop rand increment (suc k) next (pick rand (suc k) drawn).1)
            → Shuffled (suc (suc k)) a (shuffle_loop rand increment (suc (suc k)) a drawn)
        Shuffled-swapped rest = record {
          out = rest.out;
          drawn' = rest.drawn';
          returns = shuffle_loop-suc ∙ rest.returns;
          same_length =
              rest.same_length
              ∙ length-set (set a (suc k * increment) vj) (j * increment) vi
              ∙ length-set a (suc k * increment) vj;
          cycles = rest.cycles;
          kept = λ w h.
              rest.kept w (λ x below. h x (omega arith))
              ∙ get_elem?-set_ne _ (j * increment) w vi (h j (omega (arith, pick-lt k drawn)))
              ∙ get_elem?-set_ne a (suc k * increment) w vj (h (suc k) (omega arith));
        }

    pub shuffle_loop-Shuffled :
        (m : ℕ) (a : List ℕ) (drawn : ℕ)
        → 0 < m
        → m ≤ n
        → n * increment ≤ length a
        → Cycles increment n m a
        → Shuffled m a (shuffle_loop rand increment m a drawn)
    shuffle_loop-Shuffled zero a drawn m_pos le room c = absurd (omega arith)
    shuffle_loop-Shuffled (suc zero) a drawn m_pos le room c = record {
      out = a;
      drawn' = drawn;
      returns = unfold shuffle_loop in refl;
      same_length = refl;
      cycles = c;
      kept = λ w h. refl;
    }
    shuffle_loop-Shuffled (suc (suc k)) a drawn m_pos le room c =
        let j_lt = pick-lt k drawn in
        let (vi, at_i) =
          get_elem?_of_lt a (suc k * increment)
            (slot_lt increment n pos fits (suc k) (length a) le room) in
        let (vj, at_j) =
          get_elem?_of_lt a (j k a drawn le room * increment)
            (slot_lt increment n pos fits (j k a drawn le room) (length a) (omega arith) room) in
        Shuffled-swapped k a drawn le room vi vj at_i at_j (
          shuffle_loop-Shuffled (suc k) (next k a drawn le room vi vj at_i at_j)
            (pick rand (suc k) drawn).1 (omega arith) (omega arith)
            (rw (length-set, length-set) room)
            (join-Cycles increment n pos a (suc k) (j k a drawn le room) vi vj c j_lt le at_i at_j))
