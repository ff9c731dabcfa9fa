-- ===== src/Timing/Laws.antt =====
-- Clock differences against the readings they are computed from.
use u_arch_test.Prelude.{ℕ, ◌+◌, ◌-◌, ◌*◌, ◌^◌, ◌≤◌, ◌<◌, ◌≡◌, ap, ◌∙◌, arith}
use u_arch_test.Prelude.Int.{ℤ, pos, sub_ℕ, scale, pos_part, neg_part, ◌+ℤ◌}
use u_arch_test.Timing.{Floats, Timespec, Timeval, elapsed_ns, elapsed_ms}

abbrev pub micros : Timeval → ℕ
micros t = t.sec * 1000000 + t.usec

abbrev pub nanos : Timespec → ℕ
nanos t = t.sec * 1000000000 + t.nsec

abbrev pub Below : ℕ → ℤ → Type 0
Below n a = (pos_part a < n) × (neg_part a < n)

-- IEEE double arithmetic is exact on integers of magnitude below 2 ^ 53.
pub record IsExact (fl : Floats) : Type 0 where
  pub add_exact :
      (a b : ℤ) → Below (2 ^ 53) (a +ℤ b) → fl.add (fl.real a) (fl.real b) ≡ fl.real (a +ℤ b)
  pub mul_exact :
      (k : ℕ) (b : ℤ)
      → Below (2 ^ 53) (scale k b)
      → fl.mul (fl.real (pos k)) (fl.real b) ≡ fl.real (scale k b)
  pub truncate_exact : (n : ℕ) → n < 2 ^ 53 → fl.truncate (fl.real (pos n)) ≡ n

-- The millisecond figure is off by less than one millisecond, although its microsecond part is
-- rounded towards zero, for readings with microseconds below 10 ^ 6 that are in order and less than
-- 10 ^ 12 seconds apart.
pub elapsed_ms_bounds :
    (s e : Timeval)
    → s.usec < 1000000
    → e.usec < 1000000
    → micros s ≤ micros e
    → e.sec < s.sec + 1000000000000
    → (elapsed_ms s e * 1000 < micros e - micros s + 1000)
      × (micros e - micros s < elapsed_ms s e * 1000 + 1000)
unfolding elapsed_ms
elapsed_ms_bounds s e hs he order near = ground arith

ns_value :
    (s e : Timespec)
    → s.nsec < 1000000000
    → e.nsec < 1000000000
    → nanos s ≤ nanos e
    → scale 1000000000 (sub_ℕ e.sec s.sec) +ℤ sub_ℕ e.nsec s.nsec ≡ pos (nanos e - nanos s)
ns_value s e hs he order = ground arith

-- Where double arithmetic is exact below 2 ^ 53, the nanosecond figure of two readings that are in
-- order and less than 9000000 seconds apart is exact.
pub elapsed_ns_lem :
    (fl : Floats) (exact : IsExact fl) (s e : Timespec)
    → s.nsec < 1000000000
    → e.nsec < 1000000000
    → nanos s ≤ nanos e
    → e.sec < s.sec + 9000000
    → elapsed_ns fl s e ≡ nanos e - nanos s
unfolding elapsed_ns
elapsed_ns_lem fl exact s e hs he order near =
    ap (λ r. fl.truncate (fl.add r (fl.real (sub_ℕ e.nsec s.nsec))))
      (exact.mul_exact 1000000000 (sub_ℕ e.sec s.sec) (ground arith))
    ∙ ap fl.truncate (
        exact.add_exact (scale 1000000000 (sub_ℕ e.sec s.sec)) (sub_ℕ e.nsec s.nsec) (ground arith))
    ∙ ap (λ z. fl.truncate (fl.real z)) (ns_value s e hs he order)
    ∙ exact.truncate_exact (nanos e - nanos s) (omega arith)
