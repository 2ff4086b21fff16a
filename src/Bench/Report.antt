-- ===== src/Bench/Report.antt =====
-- `export_latency_samples_csv` of include/benchmark_utils.hpp: percentiles, histogram and elapsed
-- time of the latency samples, as they go to the file and to the terminal.
pub mod Sums
pub mod Facts
use lock_free_queues.Prelude.{
  ℕ, zero, suc, ◌+◌, ◌-◌, ◌*◌, ◌%◌, ◌^◌, ◌≤◌, ◌<◌, ◌≡◌, ◌≢◌, refl, sym, ap, ◌∙◌, List, [], ◌∷◌,
  Option, none, some, arith, ◌==◌, ==_iff, ne→==, if◌then◌else◌, length, get_elem?, ◌>>=◌, ltb,
  ℕ_discrete,
}
use lock_free_queues.Prelude.Int.{ℤ, pos, negsuc}
use lock_free_queues.Prelude.Words.{word_mod, add64}
use lock_free_queues.Bench.Clock.{cycles_to_ns}

-- `++histogram[ns]` on the map from nanoseconds to counts.
unfoldable pub bump : ℕ → List (ℕ × ℕ) → List (ℕ × ℕ)
bump ns [] = (ns, 1) ∷ []
bump ns ((k, n) ∷ rows) = if k == ns then (k, add64 n 1) ∷ rows else (k, n) ∷ bump ns rows

-- The loop over the samples.
unfoldable pub histogram : ℕ → List ℕ → List (ℕ × ℕ) → Option (List (ℕ × ℕ))
unfolding bump
histogram freq [] rows = some rows
histogram freq (cycles ∷ samples) rows = do
  ns ← cycles_to_ns cycles freq
  histogram freq samples (bump ns rows)

-- An `int`, given as its bit pattern, as a `uint64_t`.
unfoldable pub sign_extend : ℕ → ℕ
sign_extend i = if ltb i (2 ^ 31) then i else i + (2 ^ 64 - 2 ^ 32)

-- The `int` of a bit pattern.
unfoldable pub as_int : ℕ → ℤ
as_int i = if ltb i (2 ^ 31) then pos i else negsuc (2 ^ 32 - i - 1)

-- std::accumulate(samples.begin(), samples.end(), 0): the start value is an `int`, so every partial
-- sum goes back to 32 bits. The result is the bit pattern of the `int`.
unfoldable pub accumulate_int : List ℕ → ℕ → ℕ
unfolding sign_extend
accumulate_int [] acc = acc
accumulate_int (x ∷ xs) acc = accumulate_int xs (add64 (sign_extend acc) x % 2 ^ 32)

pub data Percentile : Type 0 where
  p50 p95 p99 p999 : Percentile

-- What goes to the terminal and to the file.
pub record Report : Type 0 where
  pub p50_ns : ℕ
  pub p95_ns : ℕ
  pub p99_ns : ℕ
  pub p999_ns : ℕ
  pub elapsed : ℤ
  pub rows : List (ℕ × ℕ)

-- `std::sort` and static_cast<size_t>(p * n) are arguments. The inner `none` is the early return,
-- the outer one a division by zero or an index out of range.
module _ (sort : List ℕ → List ℕ) (rank : Percentile → ℕ → ℕ) where
  -- The `percentile` lambda.
  unfoldable pub percentile : List ℕ → Percentile → Option ℕ
  percentile sorted p = get_elem? sorted (rank p (length sorted - 1))

  unfoldable pub export_latency_samples : ℕ → List ℕ → Option (Option Report)
  unfolding percentile
  export_latency_samples tsc_freq [] = some none
  export_latency_samples tsc_freq (s ∷ ss) = do
    let sorted = sort (s ∷ ss)
    a ← percentile sorted p50
    b ← percentile sorted p95
    c ← percentile sorted p99
    d ← percentile sorted p999
    counts ← histogram tsc_freq sorted []
    a' ← cycles_to_ns a tsc_freq
    b' ← cycles_to_ns b tsc_freq
    c' ← cycles_to_ns c tsc_freq
    d' ← cycles_to_ns d tsc_freq
    some (
        some (record {
          p50_ns = a';
          p95_ns = b';
          p99_ns = c';
          p999_ns = d';
          elapsed = as_int (accumulate_int sorted 0);
          rows = counts;
        }))
