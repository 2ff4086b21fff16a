-- ===== src/Bench/DpdkWorkload.antt =====
-- `make_random_changes` of src/bench_dpdk.cpp, whose `BestLvlChange` has a padding that the loop
-- leaves as it is.
use lock_free_queues.Prelude.{
  ℕ, zero, suc, ◌+◌, ◌≡◌, refl, ap, ◌∙◌, List, [], ◌∷◌, ◌++◌, map, map-append, if◌then◌else◌, ◌==◌,
}
use lock_free_queues.Bench.Workload
use lock_free_queues.Bench.Workload.{Side, bid, ask, Random}

pub record BestLvlChange : Type 0 where
  pub padding : ℕ
  pub qty : ℕ
  pub price : ℕ
  pub side : Side

abbrev pub forget : BestLvlChange → Workload.BestLvlChange
forget c = record { qty = c.qty; price = c.price; side = c.side }

-- `stale i` is what the memory of `c` holds in round `i`.
module _ {S : Type 0} (r : Random S) (stale : ℕ → ℕ) (min_price max_price min_qty max_qty : ℕ) where
  unfoldable pub random_change : ℕ → S → BestLvlChange × S
  random_change i s =
      let (price, s₁) = r.price_dist min_price max_price s in
      let (qty, s₂) = r.qty_dist min_qty max_qty s₁ in
      let (side, s₃) = r.side_dist 0 1 s₂ in
      (
        record {
          padding = stale i;
          qty = qty;
          price = price;
          side = if side == 0 then Side.bid else Side.ask;
        },
        s₃,
      )

  -- The loop at `i`: `n` rounds to go, the vector so far.
  unfoldable pub changes_from : ℕ → ℕ → S → List BestLvlChange → List BestLvlChange
  unfolding random_change
  changes_from zero i s v = v
  changes_from (suc n) i s v =
      let (c, s') = random_change i s in changes_from n (i + 1) s' (v ++ (c ∷ []))

  unfoldable pub make_random_changes : ℕ → S → List BestLvlChange
  unfolding changes_from
  make_random_changes n seed = changes_from n 0 seed []

  forget-changes_from :
      (n i : ℕ) (s : S) (v : List BestLvlChange)
      → map forget (changes_from n i s v)
        ≡ Workload.changes_from r min_price max_price min_qty max_qty n s (map forget v)
  unfolding changes_from Workload.changes_from
  forget-changes_from zero i s v = refl
  forget-changes_from (suc n) i s v =
      forget-changes_from n (i + 1) (random_change i s).1 (v ++ ((random_change i s).0 ∷ []))
      ∙ ap (Workload.changes_from r min_price max_price min_qty max_qty n (random_change i s).1)
          (map-append forget v ((random_change i s).0 ∷ []))

  -- Whatever the padding holds, the changes are those of the other benchmarks.
  pub forget-make_random_changes :
      (n : ℕ) (seed : S)
      → map forget (make_random_changes n seed)
        ≡ Workload.make_random_changes r min_price max_price min_qty max_qty n seed
  unfolding make_random_changes Workload.make_random_changes
  forget-make_random_changes n seed = forget-changes_from n 0 seed []
