-- ===== src/Bench/Clock.antt =====
-- The conversions between TSC cycles and nanoseconds of include/benchmark_utils.hpp, and `sleep_ns`
-- of src/main.cpp. A division by zero traps: `none`.
use lock_free_queues.Prelude.{
  ℕ, ◌+◌, ◌*◌, ◌/◌, ◌%◌, ◌≤◌, ◌<◌, ◌≡◌, ap, Option, none, some, arith, ◌==◌, ne→==, if◌then◌else◌,
}
use native.Mathlib.Nat.{div-add-mod, mod-lt}
use lock_free_queues.Prelude.Int.{ℤ, pos, negsuc, neg}
use lock_free_queues.Prelude.Words.{word_mod, add64, sub64, mul64}

abbrev pub giga : ℕ
giga = 1_000_000_000

-- __int128 holds the product of two 64-bit numbers; the cast at the end keeps 64 bits.
unfoldable pub cycles_to_ns : ℕ → ℕ → Option ℕ
cycles_to_ns cycles freq =
    let num = cycles * giga + freq / 2 in if freq == 0 then none else some (num / freq % word_mod)

-- `struct timespec` as read by clock_gettime.
pub record Timespec : Type 0 where
  pub tv_sec : ℕ
  pub tv_nsec : ℕ

unfoldable pub to_ns : Timespec → ℕ
to_ns ts = add64 (mul64 ts.tv_sec giga) ts.tv_nsec

-- The readings of both clocks before and after the sleep are arguments.
unfoldable pub calibrate_tsc : Timespec → ℕ → Timespec → ℕ → Option ℕ
calibrate_tsc before c0 after c1 =
    let delta_cycles = sub64 c1 c0 in
    let delta_ns = sub64 (to_ns after) (to_ns before) in
    if delta_ns == 0
    then none
    else some ((delta_cycles * giga + delta_ns / 2) / delta_ns % word_mod)

-- The argument of nanosleep.
pub record Request : Type 0 where
  pub tv_sec : ℤ
  pub tv_nsec : ℤ

-- Division and remainder of a negative number go towards zero.
unfoldable pub sleep_ns : ℤ → Request
sleep_ns (pos ns) = record { tv_sec = pos (ns / giga); tv_nsec = pos (ns % giga) }
sleep_ns (negsuc ns) = record { tv_sec = neg ((ns + 1) / giga); tv_nsec = neg ((ns + 1) % giga) }

-- A quotient after adding half the divisor is the nearest integer.
abbrev pub Nearest : ℕ → ℕ → ℕ → Type 0
Nearest num d q = (2 * (q * d) ≤ 2 * num + d) × (2 * num ≤ 2 * (q * d) + d)

nearest : (num d : ℕ) → 0 < d → Nearest num d ((num + d / 2) / d)
nearest num d positive = omega (arith, div-add-mod (num + d / 2) d, mod-lt (num + d / 2) positive)

-- At a positive frequency the nanoseconds are the cycles at that frequency, rounded to the nearest
-- integer, wherever they fit 64 bits.
pub cycles_to_ns-Nearest :
    (cycles freq : ℕ)
    → 0 < freq
    → (cycles * giga + freq / 2) / freq < word_mod
    → (ns : ℕ) × (cycles_to_ns cycles freq ≡ some ns) × Nearest (cycles * giga) freq ns
unfolding cycles_to_ns
cycles_to_ns-Nearest cycles freq positive fit = (
  (cycles * giga + freq / 2) / freq,
  rw (ne→== freq 0 (omega arith)) (ap some (omega arith)),
  nearest (cycles * giga) freq positive,
)

-- If the two clock readings, their seconds and nanoseconds together, are `ns` nanoseconds apart with
-- `ns` positive, and the readings, the cycles and the result fit 64 bits, then the frequency is the cycles over the time slept, in Hz and rounded to the
-- nearest integer, also if the cycle counter wrapped between its two readings.
pub calibrate_tsc-Nearest :
    (before after : Timespec) (c0 cycles ns : ℕ)
    → c0 < word_mod
    → cycles < word_mod
    → 0 < ns
    → before.tv_sec * giga + before.tv_nsec + ns < word_mod
    → after.tv_sec * giga + after.tv_nsec ≡ before.tv_sec * giga + before.tv_nsec + ns
    → (cycles * giga + ns / 2) / ns < word_mod
    → (freq : ℕ) × (calibrate_tsc before c0 after (add64 c0 cycles) ≡ some freq)
      × Nearest (cycles * giga) ns freq
unfolding calibrate_tsc to_ns
calibrate_tsc-Nearest before after c0 cycles ns h0 hc positive below e fit = (
  (cycles * giga + ns / 2) / ns,
  rw (elapsed_cycles, elapsed_ns, ne→== ns 0 (omega arith)) (ap some (omega arith)),
  nearest (cycles * giga) ns positive,
)
  where
    elapsed_cycles : sub64 (add64 c0 cycles) c0 ≡ cycles
    elapsed_cycles = omega arith

    elapsed_ns : sub64 (to_ns after) (to_ns before) ≡ ns
    elapsed_ns = omega arith
