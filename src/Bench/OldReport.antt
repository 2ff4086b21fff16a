-- ===== src/Bench/OldReport.antt =====
-- `export_latency_samples_csv` of src/benchmark_utils.cpp: a row for each sample, and the elapsed
-- time as an argument.
use lock_free_queues.Prelude.{
  ℕ, zero, suc, ◌-◌, ◌<◌, ◌≡◌, refl, ap, ◌∙◌, List, [], ◌∷◌, Option, none, some, arith, length,
  get_elem?, ◌>>=◌,
}
use lock_free_queues.Bench.Clock.{cycles_to_ns}
use lock_free_queues.Bench.Report.{Percentile, p50, p95, p99, p999, percentile}
use lock_free_queues.Bench.Report.Facts.{IsSorting, IsRank, in_range, converts}

pub record Report : Type 0 where
  pub samples : ℕ
  pub p50_ns : ℕ
  pub p95_ns : ℕ
  pub p99_ns : ℕ
  pub p999_ns : ℕ
  pub elapsed : ℕ
  pub rows : List ℕ

-- The loop that writes the file.
unfoldable pub rows_from : ℕ → List ℕ → Option (List ℕ)
rows_from tsc_freq [] = some []
rows_from tsc_freq (cycles ∷ samples) = do
  ns ← cycles_to_ns cycles tsc_freq
  rest ← rows_from tsc_freq samples
  some (ns ∷ rest)

module _ (sort : List ℕ → List ℕ) (rank : Percentile → ℕ → ℕ) where
  -- The inner `none` is the early return, the outer one a division by zero or an index out of range.
  unfoldable pub export_latency_samples : ℕ → List ℕ → ℕ → Option (Option Report)
  unfolding percentile
  export_latency_samples tsc_freq [] elapsed_cycles = some none
  export_latency_samples tsc_freq (s ∷ ss) elapsed_cycles = do
    let sorted = sort (s ∷ ss)
    a ← percentile sort rank sorted p50
    b ← percentile sort rank sorted p95
    c ← percentile sort rank sorted p99
    d ← percentile sort rank sorted p999
    out ← rows_from tsc_freq sorted
    a' ← cycles_to_ns a tsc_freq
    b' ← cycles_to_ns b tsc_freq
    c' ← cycles_to_ns c tsc_freq
    d' ← cycles_to_ns d tsc_freq
    some (
        some (record {
          samples = length sorted;
          p50_ns = a';
          p95_ns = b';
          p99_ns = c';
          p999_ns = d';
          elapsed = elapsed_cycles;
          rows = out;
        }))

items-cons :
    (freq x ns : ℕ) (xs out : List ℕ)
    → cycles_to_ns x freq ≡ some ns
    → ((i y : ℕ) → get_elem? xs i ≡ some y → get_elem? out i ≡ cycles_to_ns y freq)
    → (i y : ℕ) → get_elem? (x ∷ xs) i ≡ some y
    → get_elem? (ns ∷ out) i ≡ cycles_to_ns y freq
items-cons freq x ns xs out e all zero y h = cc
items-cons freq x ns xs out e all (suc i) y h = all i y h

rows_from_lem :
    (freq : ℕ) (xs : List ℕ)
    → 0 < freq
    → (out : List ℕ) × (rows_from freq xs ≡ some out)
      × (length out ≡ length xs)
      × ((i x : ℕ) → get_elem? xs i ≡ some x → get_elem? out i ≡ cycles_to_ns x freq)
unfolding rows_from
rows_from_lem freq [] pos = ([], refl, refl, λ i x e. cc)
rows_from_lem freq (x ∷ xs) pos =
    let (ns, e) = converts x freq pos in
    let (out, ok, len, all) = rows_from_lem freq xs pos in
    (ns ∷ out, rw (e, ok) refl, ap suc len, items-cons freq x ns xs out e all)

module _ (sort : List ℕ → List ℕ) (rank : Percentile → ℕ → ℕ) (sorting : IsSorting sort)
    (ranks : IsRank rank) where
  -- What the report of the sorted samples has to say: a row for each, and its percentiles among the
  -- rows.
  pub record Listed (sorted : List ℕ) (elapsed : ℕ) (r : Report) : Type 0 where
    pub counted : r.samples ≡ length sorted
    pub timed : r.elapsed ≡ elapsed
    pub each : length r.rows ≡ length sorted
    pub median : get_elem? r.rows (rank p50 (length sorted - 1)) ≡ some r.p50_ns
    pub at_95 : get_elem? r.rows (rank p95 (length sorted - 1)) ≡ some r.p95_ns
    pub at_99 : get_elem? r.rows (rank p99 (length sorted - 1)) ≡ some r.p99_ns
    pub at_999 : get_elem? r.rows (rank p999 (length sorted - 1)) ≡ some r.p999_ns

  -- For at least one sample and a positive frequency, and with `std::sort` and the ranks as their
  -- records say, there is a report; its file has a row for each sample, and the percentiles
  -- printed are the rows at their ranks.
  pub export_latency_samples-Listed :
      (freq s : ℕ) (ss : List ℕ) (elapsed : ℕ)
      → 0 < freq
      → (r : Report) × (export_latency_samples sort rank freq (s ∷ ss) elapsed ≡ some (some r))
        × Listed (sort (s ∷ ss)) elapsed r
  unfolding export_latency_samples percentile
  export_latency_samples-Listed freq s ss elapsed pos =
      let (a, ea) = in_range sort rank sorting ranks (s ∷ ss) p50 (omega arith) in
      let (b, eb) = in_range sort rank sorting ranks (s ∷ ss) p95 (omega arith) in
      let (c, ec) = in_range sort rank sorting ranks (s ∷ ss) p99 (omega arith) in
      let (d, ed) = in_range sort rank sorting ranks (s ∷ ss) p999 (omega arith) in
      let (out, ok, len, all) = rows_from_lem freq (sort (s ∷ ss)) pos in
      let (a', ca) = converts a freq pos in
      let (b', cb) = converts b freq pos in
      let (c', cc') = converts c freq pos in
      let (d', cd) = converts d freq pos in
      let n = length (sort (s ∷ ss)) - 1 in
      (
        record {
          samples = length (sort (s ∷ ss));
          p50_ns = a';
          p95_ns = b';
          p99_ns = c';
          p999_ns = d';
          elapsed = elapsed;
          rows = out;
        },
        rw (ea, eb, ec, ed, ok, ca, cb, cc', cd) refl,
        record {
          counted = refl;
          timed = refl;
          each = len;
          median = all (rank p50 n) a ea ∙ ca;
          at_95 = all (rank p95 n) b eb ∙ cb;
          at_99 = all (rank p99 n) c ec ∙ cc';
          at_999 = all (rank p999 n) d ed ∙ cd;
        },
      )
