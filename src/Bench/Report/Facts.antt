-- ===== src/Bench/Report/Facts.antt =====
-- What the report of the latency samples says of the samples.
use lock_free_queues.Prelude.{
  ℕ, zero, suc, ◌+◌, ◌-◌, ◌*◌, ◌/◌, ◌%◌, ◌^◌, ◌≤◌, ◌<◌, ◌≡◌, refl, sym, ap, if◌then◌else◌, ◌==◌,
  ◌∙◌, List, [], ◌∷◌, some, arith, ne→==, length, get_elem?,
}
use lock_free_queues.Prelude.Words.{word_mod, add64}
use lock_free_queues.Bench.Clock.{cycles_to_ns, giga}
use mathlib.Core.List.{Perm}
use lock_free_queues.Bench.Report.Sums.{weigh, weigh-Perm, same, samples_at}
use lock_free_queues.Bench.Report.{
  bump, histogram, sign_extend, as_int, accumulate_int, Percentile, p50, p95, p99, p999, percentile,
  Report, export_latency_samples,
}

abbrev pub sum : List ℕ → ℕ
sum = weigh (λ cycles. cycles)

-- The number of samples that the rows count.
abbrev pub total : List (ℕ × ℕ) → ℕ
total [] = 0
total ((k, n) ∷ rows) = n + total rows

total-bump :
    (ns : ℕ) (rows : List (ℕ × ℕ))
    → total rows + 1 < word_mod
    → total (bump ns rows) ≡ total rows + 1
unfolding bump
total-bump ns [] h = refl
total-bump ns ((k, n) ∷ rows) h = ground (arith, total-bump ns rows)

-- The count of a row.
abbrev pub count_at : ℕ → List (ℕ × ℕ) → ℕ
count_at ns [] = 0
count_at ns ((k, n) ∷ rows) = if k == ns then n else count_at ns rows

count_at-bump :
    (ns ns' : ℕ) (rows : List (ℕ × ℕ))
    → total rows + 1 < word_mod
    → count_at ns (bump ns' rows) ≡ count_at ns rows + same ns (some ns')
unfolding bump
count_at-bump ns ns' [] h = ground arith
count_at-bump ns ns' ((k, n) ∷ rows) h = ground (arith, count_at-bump ns ns' rows)

-- The value of a sample in the histogram.
pub converts : (cycles freq : ℕ) → 0 < freq → (ns : ℕ) × (cycles_to_ns cycles freq ≡ some ns)
unfolding cycles_to_ns
converts cycles freq pos =
    ((cycles * giga + freq / 2) / freq % word_mod, rw (ne→== freq 0 (omega arith)))

-- At a positive frequency, and as long as the counts stay below 2^64, the loop counts every sample
-- once on top of the rows that it starts from, in the row of its nanoseconds.
pub histogram-total :
    (freq : ℕ) (samples : List ℕ) (rows : List (ℕ × ℕ))
    → 0 < freq
    → total rows + length samples < word_mod
    → (out : List (ℕ × ℕ)) × (histogram freq samples rows ≡ some out)
      × (total out ≡ total rows + length samples)
      × ((ns : ℕ) → count_at ns out ≡ count_at ns rows + samples_at freq ns samples)
unfolding histogram
histogram-total freq [] rows pos h = (rows, refl, omega arith, λ ns. omega arith)
histogram-total freq (cycles ∷ samples) rows pos h =
    let (ns, e) = converts cycles freq pos in
    let grown = total-bump ns rows (omega arith) in
    let (out, ok, all, each) = histogram-total freq samples (bump ns rows) pos (omega arith) in
    (
      out,
      rw e ok,
      omega arith,
      λ k. omega (arith, each k, count_at-bump k ns rows (omega arith), ap (same k) e),
    )

low_bits : (acc x : ℕ) → add64 (sign_extend acc) x % 2 ^ 32 ≡ (acc + x) % 2 ^ 32
unfolding sign_extend
low_bits acc x = ground arith

-- From a start value of 32 bits, the sum that `elapsed_sec` is computed from is that of the
-- samples modulo 2^32.
pub accumulate_int_wraps :
    (xs : List ℕ) (acc : ℕ) → acc < 2 ^ 32 → accumulate_int xs acc ≡ (acc + sum xs) % 2 ^ 32
unfolding accumulate_int
accumulate_int_wraps [] acc h = omega arith
accumulate_int_wraps (x ∷ xs) acc h =
    accumulate_int_wraps xs (add64 (sign_extend acc) x % 2 ^ 32) (omega arith) ∙ step
  where
    step : (add64 (sign_extend acc) x % 2 ^ 32 + sum xs) % 2 ^ 32 ≡ (acc + (x + sum xs)) % 2 ^ 32
    step = omega (arith, low_bits acc x)

-- What `std::sort` promises of its result: the same items, in order.
pub record IsSorting (sort : List ℕ → List ℕ) : Type 0 where
  pub keeps_length : (xs : List ℕ) → length (sort xs) ≡ length xs
  pub permutes : (xs : List ℕ) → Perm (sort xs) xs
  pub ordered :
      (xs : List ℕ) (i j a b : ℕ)
      → i ≤ j
      → get_elem? (sort xs) i ≡ some a
      → get_elem? (sort xs) j ≡ some b
      → a ≤ b

-- What the double multiplication by a factor of at most one and the cast promise.
pub record IsRank (rank : Percentile → ℕ → ℕ) : Type 0 where
  pub bounded : (p : Percentile) (n : ℕ) → rank p n ≤ n
  pub rising_p95 : (n : ℕ) → rank p50 n ≤ rank p95 n
  pub rising_p99 : (n : ℕ) → rank p95 n ≤ rank p99 n
  pub rising_p999 : (n : ℕ) → rank p99 n ≤ rank p999 n

get_elem?-some : (xs : List ℕ) (i : ℕ) → i < length xs → (x : ℕ) × (get_elem? xs i ≡ some x)
get_elem?-some [] i lt = absurd (omega arith)
get_elem?-some (x ∷ xs) zero lt = (x, refl)
get_elem?-some (x ∷ xs) (suc i) lt = get_elem?-some xs i (omega arith)

module _ (sort : List ℕ → List ℕ) (rank : Percentile → ℕ → ℕ) (sorting : IsSorting sort)
    (ranks : IsRank rank) where
  -- The percentiles of the samples, in cycles.
  abbrev pub Ordered : List ℕ → Type 0
  Ordered sorted =
      (a : ℕ) × (b : ℕ) × (c : ℕ) × (d : ℕ) × (percentile sort rank sorted p50 ≡ some a)
      × (percentile sort rank sorted p95 ≡ some b)
      × (percentile sort rank sorted p99 ≡ some c)
      × (percentile sort rank sorted p999 ≡ some d)
      × (a ≤ b)
      × (b ≤ c)
      × (c ≤ d)

  pub in_range :
      (xs : List ℕ) (p : Percentile)
      → 0 < length xs
      → (x : ℕ) × (get_elem? (sort xs) (rank p (length (sort xs) - 1)) ≡ some x)
  in_range xs p pos =
      get_elem?-some (sort xs) (rank p (length (sort xs) - 1))
        (omega (arith, sorting.keeps_length xs, ranks.bounded p (length (sort xs) - 1)))

  -- Of at least one sample, and with `std::sort` and the ranks as their records say, no percentile
  -- is read outside the array, and they rise from the median to the 99.9th.
  pub percentiles-Ordered : (xs : List ℕ) → 0 < length xs → Ordered (sort xs)
  unfolding percentile
  percentiles-Ordered xs pos =
      let (a, ea) = in_range xs p50 pos in
      let (b, eb) = in_range xs p95 pos in
      let (c, ec) = in_range xs p99 pos in
      let (d, ed) = in_range xs p999 pos in
      let n = length (sort xs) - 1 in
      (
        a,
        b,
        c,
        d,
        ea,
        eb,
        ec,
        ed,
        sorting.ordered xs (rank p50 n) (rank p95 n) a b (ranks.rising_p95 n) ea eb,
        sorting.ordered xs (rank p95 n) (rank p99 n) b c (ranks.rising_p99 n) eb ec,
        sorting.ordered xs (rank p99 n) (rank p999 n) c d (ranks.rising_p999 n) ec ed,
      )

  -- The nanoseconds of a percentile are those of the sorted sample at its rank.
  abbrev pub Placed : ℕ → List ℕ → Percentile → ℕ → Type 0
  Placed freq xs p ns =
      (x : ℕ) × (get_elem? (sort xs) (rank p (length xs - 1)) ≡ some x)
      × (cycles_to_ns x freq ≡ some ns)

  placed :
      (freq : ℕ) (xs : List ℕ) (p : Percentile)
      → 0 < freq
      → 0 < length xs
      → (x : ℕ) × (ns : ℕ) × (percentile sort rank (sort xs) p ≡ some x)
        × (cycles_to_ns x freq ≡ some ns)
        × Placed freq xs p ns
  unfolding percentile
  placed freq xs p pos some_sample =
      let (x, at) = in_range xs p some_sample in
      let (ns, e) = converts x freq pos in
      (
        x,
        ns,
        at,
        e,
        (x, ap (λ n. get_elem? (sort xs) (rank p (n - 1))) (sym (sorting.keeps_length xs)) ∙ at, e),
      )

  -- For at least one sample, fewer than 2^64, and a positive frequency, and with `std::sort` and
  -- the ranks as their records say, there is a report. Each percentile is the nanoseconds of the
  -- sorted sample at its rank; the histogram has for each number of nanoseconds the number of the
  -- samples with it, and counts every sample; and the elapsed time is the sum of the samples modulo
  -- 2^32, read as a signed `int`.
  pub export_latency_samples_lem :
      (freq s : ℕ) (ss : List ℕ)
      → 0 < freq
      → length (s ∷ ss) < word_mod
      → (r : Report) × (export_latency_samples sort rank freq (s ∷ ss) ≡ some (some r))
        × Placed freq (s ∷ ss) p50 r.p50_ns
        × Placed freq (s ∷ ss) p95 r.p95_ns
        × Placed freq (s ∷ ss) p99 r.p99_ns
        × Placed freq (s ∷ ss) p999 r.p999_ns
        × ((ns : ℕ) → count_at ns r.rows ≡ samples_at freq ns (s ∷ ss))
        × (total r.rows ≡ length (s ∷ ss))
        × (r.elapsed ≡ as_int (sum (s ∷ ss) % 2 ^ 32))
  unfolding export_latency_samples
  export_latency_samples_lem freq s ss pos few =
      let xs = s ∷ ss in
      let (a, a', ea, ca, pa) = placed freq xs p50 pos (omega arith) in
      let (b, b', eb, cb, pb) = placed freq xs p95 pos (omega arith) in
      let (c, c', ec, cc', pc) = placed freq xs p99 pos (omega arith) in
      let (d, d', ed, cd, pd) = placed freq xs p999 pos (omega arith) in
      let len = sorting.keeps_length xs in
      let moved : (f : ℕ → ℕ) → weigh f (sort xs) ≡ weigh f xs =
        λ f. weigh-Perm f (sorting.permutes xs) in
      let (out, ok, all, each) = histogram-total freq (sort xs) [] pos (omega (arith, len)) in
      (
        record {
          p50_ns = a';
          p95_ns = b';
          p99_ns = c';
          p999_ns = d';
          elapsed = as_int (accumulate_int (sort xs) 0);
          rows = out;
        },
        rw (ea, eb, ec, ed, ok, ca, cb, cc', cd) refl,
        pa,
        pb,
        pc,
        pd,
        λ ns. omega (arith, each ns, moved (λ cycles. same ns (cycles_to_ns cycles freq))),
        omega (arith, all, len),
        ap as_int (
            accumulate_int_wraps (sort xs) 0 (omega arith)
            ∙ ap (λ t. t % 2 ^ 32) (omega (arith, moved (λ cycles. cycles)))),
      )
