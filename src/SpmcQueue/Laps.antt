-- ===== src/SpmcQueue/Laps.antt =====
-- Message `n` goes to slot `n % size` in lap `n / size`.
use lock_free_queues.Prelude.{ℕ, ◌+◌, ◌*◌, ◌/◌, ◌%◌, ◌≤◌, ◌<◌, ◌≡◌, ap, ◌∙◌, arith, dec_lt}
use native.Mathlib.Nat.{div-add-mod, mod-lt, add-mul-mod_self_right, mod-eq_of_lt}

pub lt_of_mul : (a b c : ℕ) → a * c < b * c → a < b
lt_of_mul a b c h = elim (dec_lt a b) [ yes lt ↦ lt | no ge ↦ absurd (grind arith) ]

-- The quotient by a positive divisor.
pub quotient_unique : (q d r p : ℕ) → r < d → q * d + r ≡ p → q ≡ p / d
quotient_unique q d r p lt e = omega (arith, below, above)
  where
    below : q < p / d + 1
    below =
        lt_of_mul q (p / d + 1) d (omega (arith, div-add-mod p d, mod-lt p {m = d} (omega arith)))

    above : p / d < q + 1
    above = lt_of_mul (p / d) (q + 1) d (omega (arith, div-add-mod p d))

module _ (size : ℕ) (pos : 0 < size) where
  pub lap_split : (n : ℕ) → n / size * size + n % size ≡ n
  lap_split n = omega (arith, div-add-mod n size)

  -- Of the messages for slot `n % size`, `n` alone lies from `n` up to a lap later.
  pub lap_unique :
      (n lap : ℕ) → n ≤ lap * size + n % size → lap * size + n % size < n + size → lap ≡ n / size
  lap_unique n lap lo hi = omega (arith, below, above)
    where
      below : n / size < lap + 1
      below = lt_of_mul (n / size) (lap + 1) size (omega (arith, lap_split n))

      above : lap < n / size + 1
      above = lt_of_mul lap (n / size + 1) size (omega (arith, lap_split n))

  pub slot_unique : (lap j : ℕ) → j < size → (lap * size + j) % size ≡ j
  slot_unique lap j lt =
      ap (λ t. t % size) (omega arith) ∙ add-mul-mod_self_right j lap size ∙ mod-eq_of_lt lt
